-- ===== src/MessageQueue/Failure.antt =====
-- sysv_example/main.c when there is no queue.
use linux_programming_exampl.Prelude.{
  ℕ, ◌≤◌, ◌≡◌, refl, ◌⊎◌, inl, inr, ℤ, pos, minus_one, is_minus_one, true, false, some, List, [],
  ◌∷◌, ◌++◌, arith, length, get_or, le→ltb,
}
use linux_programming_exampl.Program.{World, Output, int, perror, printf, moved, said}
use linux_programming_exampl.CMemory.{codes, strcmp_eq}
use linux_programming_exampl.MessageQueue.{
  sysv_mqid_setting, send_data, recv_data, main, shared_path, proj_id,
}
use linux_programming_exampl.MessageQueue.Kernel.{QueueOs}

module _ (K : QueueOs) where
  -- The state in which `main` asks for the key.
  abbrev pub before : K.State → K.State
  before s = (K.close (K.open_file shared_path s).0 (K.open_file shared_path s).1).1

  -- There is no key, or no queue.
  abbrev pub NoQueue : K.State → Type 0
  NoQueue s =
      ((K.ftok shared_path proj_id s).0 ≡ minus_one)
      ⊎ (is_minus_one (K.ftok shared_path proj_id s).0 ≡ false)
        × ((K.msgget (K.ftok shared_path proj_id s).0 (K.ftok shared_path proj_id s).1).0
            ≡ minus_one)

  setting_fails :
      (w : World K.State)
      → NoQueue w.os
      → (id : ℤ) × (w' : World K.State) × (sysv_mqid_setting K w ≡ some ((minus_one, id), w'))
  unfolding sysv_mqid_setting
  setting_fails w (inl e) =
      let s : K.State = (K.ftok shared_path proj_id w.os).1 in
      (
        pos 0,
        said (said (moved (said w (printf " = Create IPC key " [])) s) (printf " => FAIL \n" []))
            (perror "ftok()"),
        ground (arith, e),
      )
  setting_fails w (inr (k, e)) =
      let (key, s1) = K.ftok shared_path proj_id w.os in
      let s : K.State = (K.msgget key s1).1 in
      let w1 : World K.State =
        said
          (said (moved (said w (printf " = Create IPC key " [])) s1)
            (printf " => SUCCESS, key: %d\n" (int key ∷ [])))
          (printf " = Create Message Queue ID " []) in
      (
        minus_one,
        said (said (moved w1 s) (printf " => FAIL \n" [])) (perror "msgget()"),
        ground (arith, k, e),
      )

  -- When there is no key or no queue, `main` returns -1 for both commands, and the last two lines
  -- are those of the step and of the command that failed.
  pub main_fails_without_queue :
      (argv : List (List ℕ)) (w : World K.State)
      → 3 ≤ length argv
      → NoQueue (before w.os)
      → (strcmp_eq (get_or argv 1 []) (codes "s") ≡ true
          → (w' : World K.State) × (shown : List Output) × (main K argv w ≡ some (minus_one, w'))
            × (w'.out
                ≡ (shown ++ (printf "FAIL setting mq id\n" [] ∷ []))
                  ++ (printf "메세지 전송을 실패하였습니다.\n" [] ∷ [])))
        × (strcmp_eq (get_or argv 1 []) (codes "s") ≡ false
            → strcmp_eq (get_or argv 1 []) (codes "r") ≡ true
            → (w' : World K.State) × (shown : List Output) × (main K argv w ≡ some (minus_one, w'))
              × (w'.out
                  ≡ (shown ++ (printf "FAIL setting mq id\n" [] ∷ []))
                    ++ (printf "메세지 수신을 실패하였습니다.\n" [] ∷ [])))
  unfolding main send_data recv_data
  main_fails_without_queue argv w enough none_here =
      let (id, w1, failed) = setting_fails (moved w (before w.os)) none_here in
      let w2 : World K.State = said w1 (printf "FAIL setting mq id\n" []) in
      (
        λ s. (
          said w2 (printf "메세지 전송을 실패하였습니다.\n" []),
          w1.out,
          ground (arith, le→ltb (length argv) 3 enough, s, failed),
          refl,
        ),
        λ s r. (
          said w2 (printf "메세지 수신을 실패하였습니다.\n" []),
          w1.out,
          ground (arith, le→ltb (length argv) 3 enough, s, r, failed),
          refl,
        ),
      )

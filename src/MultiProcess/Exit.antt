-- ===== src/MultiProcess/Exit.antt =====
-- What the parent of multi_process_example/main.c says of its child, and what the two processes of
-- fork_test.c say of their variables.
use linux_programming_exampl.Prelude.{
  ℕ, String, zero, suc, ◌+◌, ◌*◌, ◌%◌, ◌<◌, ◌≡◌, ◌≢◌, refl, sym, ap, ◌∙◌, ℤ, pos, Bool, true, false,
  Option, some, List, [], ◌∷◌, ◌++◌, arith, append_assoc, append-nil,
}
use linux_programming_exampl.Program.{two_more, World, Output, int, printf, moved, said}
use linux_programming_exampl.MultiProcess.{
  ProcessOs, Rusage, exited, wifexited, wexitstatus, yj_print_ruseage, yj_print_pid, wait_child,
  main, auther, fork_test_main, fork_test_branch,
}

-- How a child ended, and the status that wait(2) gives for it: the low byte of an exit code in the
-- second byte, or the number of a signal, with a mark for a core dump.
pub data Ending : Type 0 where
  exit_code : ℕ → Ending
  signal : ℕ → Bool → Ending

abbrev pub core_mark : Bool → ℕ
core_mark true = 128
core_mark false = 0

pub status_of : Ending → ℕ
status_of (exit_code n) = (n % 256) * 256
status_of (signal n core) = n + core_mark core

-- The signals: 127 marks a child that is stopped.
abbrev pub IsEnding : Ending → Type 0
IsEnding (exit_code n) = Unit
IsEnding (signal n core) = (0 < n) × (n < 127)

-- What is to be said of it.
pub report : ℤ → Ending → Output
report child (exit_code n) =
    printf "    * The child process(%d) terminated successfully. (CODE: %d)\n "
      (int child ∷ int (pos (n % 256)) ∷ [])
report child (signal n core) =
    printf "    * The child process(%d) is not exited\n " (int child ∷ [])

wifexited-exit_code : (n : ℕ) → wifexited (status_of (exit_code n)) ≡ true
unfolding wifexited status_of
wifexited-exit_code n = ground (arith, code_zero n)
  where
    code_zero : (n : ℕ) → ((n % 256) * 256) % 128 ≡ 0
    code_zero n = omega arith

wexitstatus-exit_code : (n : ℕ) → wexitstatus (status_of (exit_code n)) ≡ n % 256
unfolding wexitstatus status_of
wexitstatus-exit_code n = omega arith

wifexited-signal :
    (n : ℕ) (core : Bool) → 0 < n → n < 127 → wifexited (status_of (signal n core)) ≡ false
unfolding wifexited status_of
wifexited-signal n true h k =
    let rest : (n + 128) % 128 ≡ n % 128 = omega arith in
    let small : n % 128 ≡ n = omega arith in
    let nonzero : (n + 128) % 128 ≢ 0 = omega arith in ground (arith, nonzero)
wifexited-signal n false h k =
    let nonzero : (n + 0) % 128 ≢ 0 = omega arith in ground (arith, nonzero)

-- What was printed first.
abbrev pub Begins : List Output → List Output → Type 0
Begins p l = (more : List Output) × (l ≡ p ++ more)

Begins-more : (p l : List Output) (o : Output) → Begins p l → Begins p (l ++ (o ∷ []))
Begins-more p l o (more, e) =
    (more ++ (o ∷ []), ap (λ x. x ++ (o ∷ [])) e ∙ append_assoc p more (o ∷ []))

usage_shown :
    {S : Type 0} (ldr : Option (List ℕ)) (ru : Rusage) (p : List Output) (w : World S)
    → Begins p w.out
    → (w' : World S) × (yj_print_ruseage ldr ru w ≡ some (tt, w')) × Begins p w'.out
unfolding yj_print_ruseage
usage_shown ldr ru p w h =
    let next = λ (l : List Output) (o : Output) (b : Begins p l). Begins-more p l o b in
    (
      _,
      refl,
      next _ _ (
          next _ _ (
            next _ _ (
              next _ _ (
                next _ _ (
                  next _ _ (next _ _ (next _ _ (next _ _ (next _ _ (next _ _ (next _ _ h))))))))))),
    )

first_three :
    (o : List Output) (a b c : Output)
    → Begins (o ++ (a ∷ b ∷ c ∷ [])) (((o ++ (a ∷ [])) ++ (b ∷ [])) ++ (c ∷ []))
first_three o a b c = ([], two_more o a b (c ∷ []) ∙ sym (append-nil (o ++ (a ∷ b ∷ c ∷ []))))

-- What the process to which `fork` gave a number shows.
abbrev who : ℕ → String
who zero = "CHILD"
who (suc n) = "PARENT"

abbrev copy_a : ℕ → ℕ
copy_a zero = 11
copy_a (suc n) = 12

abbrev copy_b : ℕ → ℕ
copy_b zero = 21
copy_b (suc n) = 20

module _ (K : ProcessOs) where
  -- When the parent's child has ended, with an exit code or by a signal, and the kernel encodes this
  -- the way wait(2) says, the parent reports, behind its own number, the child's number and the low
  -- byte of the exit code, or that it has not exited. It returns 0.
  pub main_reports :
      (n : ℕ) (e : Ending) (usage : Rusage) (w : World K.State) (s1 s2 : K.State)
      → K.fork w.os ≡ (pos (suc n), s1)
      → K.wait4 (pos (suc n)) s1 ≡ some (some (pos (suc n), status_of e, usage), s2)
      → IsEnding e
      → (w' : World K.State) × (main K w ≡ some (exited (pos 0), w'))
        × Begins
            (w.out
              ++ (printf " [*] THIS IS PARENT PROCESS\n" []
                  ∷ printf "    * current process pid : %d\n" (int (K.getpid s1) ∷ [])
                  ∷ report (pos (suc n)) e
                  ∷ []))
            w'.out
  unfolding main yj_print_pid wait_child report
  main_reports n (exit_code c) usage w s1 s2 forked waited good =
      let a : Output = printf " [*] THIS IS PARENT PROCESS\n" [] in
      let b : Output = printf "    * current process pid : %d\n" (int (K.getpid s1) ∷ []) in
      let r : Output = report (pos (suc n)) (exit_code c) in
      let w3 : World K.State = said (moved (said (said (moved w s1) a) b) s2) r in
      let (w4, shown, begins) =
        usage_shown (some auther) usage (w.out ++ (a ∷ b ∷ r ∷ [])) w3 (first_three w.out a b r) in
      (
        w4,
        ground (arith, forked, waited, wifexited-exit_code c, wexitstatus-exit_code c, shown),
        begins,
      )
  main_reports n (signal c core) usage w s1 s2 forked waited (some_signal, no_stop) =
      let a : Output = printf " [*] THIS IS PARENT PROCESS\n" [] in
      let b : Output = printf "    * current process pid : %d\n" (int (K.getpid s1) ∷ []) in
      let r : Output = report (pos (suc n)) (signal c core) in
      (
        said (moved (said (said (moved w s1) a) b) s2) r,
        ground (arith, forked, waited, wifexited-signal c core some_signal no_stop),
        first_three w.out a b r,
      )

  -- fork_test.c: the parent's copy of `a` is 12 and the child's is 11, the child's copy of `b` is 21 and
  -- the parent's is 20.
  fork_test_main_copies :
      (n : ℕ) (w : World K.State) (s : K.State)
      → K.fork w.os ≡ (pos n, s)
      → (w' : World K.State) × (fork_test_main K w ≡ some (pos 0, w'))
        × (w'.out
            ≡ (w.out ++ (printf (who n) [] ∷ []))
              ++ (printf "[%d] a = %d / b = %d\n"
                    (int (K.getpid s) ∷ int (pos (copy_a n)) ∷ int (pos (copy_b n)) ∷ [])
                  ∷ []))
  unfolding fork_test_main fork_test_branch
  fork_test_main_copies zero w s forked = (
    said (said (moved w s) (printf (who (zero)) [])) (
        printf "[%d] a = %d / b = %d\n"
          (int (K.getpid s) ∷ int (pos (copy_a (zero))) ∷ int (pos (copy_b (zero))) ∷ [])),
    ground (arith, forked),
    refl,
  )
  fork_test_main_copies (suc n) w s forked = (
    said (said (moved w s) (printf (who (suc n)) [])) (
        printf "[%d] a = %d / b = %d\n"
          (int (K.getpid s) ∷ int (pos (copy_a (suc n))) ∷ int (pos (copy_b (suc n))) ∷ [])),
    ground (arith, forked),
    refl,
  )

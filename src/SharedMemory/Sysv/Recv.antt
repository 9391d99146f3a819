-- ===== src/SharedMemory/Sysv/Recv.antt =====
-- The monitor of shared_memory_example/main.c for a System V segment, and what both of its programs
-- do when there is no segment.
use linux_programming_exampl.Prelude.{
  ℕ, ◌+◌, ◌*◌, ◌/◌, ◌≤◌, ◌≡◌, refl, ap, sym, ◌∙◌, ℤ, pos, minus_one, is_minus_one, is_zero, false,
  some, List, [], ◌∷◌, ◌++◌, append_assoc, map, arith, length, take, length-replicate,
}
use linux_programming_exampl.Program.{World, Output, perror, moved, said, ◌>>=◌}
use linux_programming_exampl.SharedMemory.Kernel.{
  ShmOs, Shares, Attaches, page_size, sizeof_data_info, zero_info, monitoring_count,
}
use linux_programming_exampl.SharedMemory.Monitor.{arrivals, monitor_total, store_ok}
use linux_programming_exampl.SharedMemory.Sysv.{
  sysv_init, sysv_gen_info, sysv_finish, sysv_recv_message, sys_send_message, sysv_line, roundup,
  key_path, proj_id,
}

abbrev pub segment_size : ℕ
segment_size = roundup sizeof_data_info

-- `ROUNDUP` gives the least multiple of the page size that is not less than its argument.
pub roundup-IsLeast :
    (x : ℕ)
    → (x ≤ roundup x)
      × ((q : ℕ) × (roundup x ≡ page_size * q))
      × ((q : ℕ) → x ≤ page_size * q → roundup x ≤ page_size * q)
unfolding roundup
roundup-IsLeast x = (omega arith, ((x + 4095) / 4096, omega arith), λ q h. omega arith)

module _ (K : ShmOs) where
  -- The reasons for which there is no segment.
  pub data Unavailable (s : K.State) : Type 0 where
    no_key : (K.ftok key_path proj_id s).0 ≡ minus_one → Unavailable s
    no_segment :
        is_minus_one (K.ftok key_path proj_id s).0 ≡ false
        → (K.shmget (K.ftok key_path proj_id s).0 segment_size (K.ftok key_path proj_id s).1).0
          ≡ minus_one
        → Unavailable s
    not_attached :
        is_minus_one (K.ftok key_path proj_id s).0 ≡ false
        → is_minus_one
            (K.shmget (K.ftok key_path proj_id s).0 segment_size (K.ftok key_path proj_id s).1).0
          ≡ false
        → (let (id, s') =
              K.shmget (K.ftok key_path proj_id s).0 segment_size (K.ftok key_path proj_id s).1 in
            (K.shmat id s').0)
          ≡ minus_one
        → Unavailable s

  -- What is printed then.
  abbrev pub complaint : {s : K.State} → Unavailable s → List Output
  complaint (no_key _) = perror "ftok()" ∷ perror "sysv_init()" ∷ []
  complaint (no_segment _ _) = perror "shmget()" ∷ perror "sysv_init()" ∷ []
  complaint (not_attached _ _ _) = perror "shmat()" ∷ perror "sysv_gen_info()" ∷ []

  -- When there is no key, no segment, or no way to attach it, the monitor and the sender both return
  -- -1 and print the failed call and the step that it belongs to.
  pub sysv-Unavailable :
      (rounds : ℕ) (m : List ℕ) (w : World K.State) (r : Unavailable w.os)
      → ((w' : World K.State) × (sysv_recv_message K rounds w ≡ some (minus_one, w'))
          × (w'.out ≡ w.out ++ complaint r))
        × ((w' : World K.State) × (sys_send_message K m w ≡ some (minus_one, w'))
            × (w'.out ≡ w.out ++ complaint r))
  unfolding sysv_recv_message sys_send_message sysv_init sysv_gen_info
  sysv-Unavailable rounds m w (no_key e) =
      let s : K.State = (K.ftok key_path proj_id w.os).1 in
      let w' : World K.State = said (said (moved w s) (perror "ftok()")) (perror "sysv_init()") in
      (
        (w', ground (arith, e), append_assoc w.out (perror "ftok()" ∷ []) _),
        (w', ground (arith, e), append_assoc w.out (perror "ftok()" ∷ []) _),
      )
  sysv-Unavailable rounds m w (no_segment k e) =
      let (key, s) = K.ftok key_path proj_id w.os in
      let s1 : K.State = (K.shmget key segment_size s).1 in
      let w' : World K.State =
        said (said (moved w s1) (perror "shmget()")) (perror "sysv_init()") in
      (
        (w', ground (arith, k, e), append_assoc w.out (perror "shmget()" ∷ []) _),
        (w', ground (arith, k, e), append_assoc w.out (perror "shmget()" ∷ []) _),
      )
  sysv-Unavailable rounds m w (not_attached k i e) =
      let (key, s) = K.ftok key_path proj_id w.os in
      let (id, s1) = K.shmget key segment_size s in
      let s2 : K.State = (K.shmat id s1).1 in
      let w' : World K.State =
        said (said (moved w s2) (perror "shmat()")) (perror "sysv_gen_info()") in
      (
        (w', ground (arith, k, i, e), append_assoc w.out (perror "shmat()" ∷ []) _),
        (w', ground (arith, k, i, e), append_assoc w.out (perror "shmat()" ∷ []) _),
      )

module _ (K : ShmOs) (S : Shares K) (A : Attaches K S) where
  -- A segment that is to be had: `sysv_gen_info` attaches and clears it.
  pub sysv_gen_info_ok :
      (id : ℤ) (w : World K.State)
      → is_minus_one (K.shmat id w.os).0 ≡ false
      → (s : K.State) × (sysv_gen_info K id w ≡ some ((K.shmat id w.os).0, moved w s))
        × (is_zero (K.shmat id w.os).0 ≡ false)
        × (S.content s ≡ zero_info)
        × S.At (K.shmat id w.os).0 s
        × (A.attached s ≡ A.attached w.os + 1)
  unfolding sysv_gen_info
  sysv_gen_info_ok id w ok =
      let p : ℤ = (K.shmat id w.os).0 in
      let s : K.State = (K.shmat id w.os).1 in
      let (at, nonzero, count) = A.attach id w.os ok in
      let (s1, run, e, at1, poked) =
        store_ok K S p (λ d. zero_info) (moved w s) at (length-replicate {A = ℕ} page_size 0) in
      (
        s1,
        rw ok (rw (run, ◌>>=◌) refl),
        nonzero,
        e,
        at1,
        A.poke_attached p zero_info s s1 poked ∙ count,
      )

  -- When `ftok`, `shmget` and `shmat` succeed, and five changes come within the rounds from the state on
  -- in which `sysv_gen_info` has cleared the segment that it attached, `sysv_recv_message` prints the
  -- first five changes from this state on, each once and in order, and returns 0.
  pub sysv_recv_message_total :
      (rounds : ℕ) (key id p : ℤ) (w : World K.State) (s1 s2 s3 s : K.State)
      → K.ftok key_path proj_id w.os ≡ (key, s1)
      → is_minus_one key ≡ false
      → K.shmget key segment_size s1 ≡ (id, s2)
      → is_minus_one id ≡ false
      → K.shmat id s2 ≡ (p, s3)
      → is_minus_one p ≡ false
      → K.poke p zero_info s3 ≡ some s
      → monitoring_count ≤ length (arrivals K S rounds s)
      → (w' : World K.State) × (sysv_recv_message K rounds w ≡ some (pos 0, w'))
        × (S.content s ≡ zero_info)
        × (w'.out ≡ w.out ++ map sysv_line (take monitoring_count (arrivals K S rounds s)))
  unfolding sysv_recv_message sysv_finish
  sysv_recv_message_total rounds key id p w s1 s2 s3 s got key_ok made id_ok att p_ok clear enough =
      let init : sysv_init K w ≡ some (id, moved w s2) =
        unfold sysv_init in ground (arith, got, key_ok, made, id_ok) in
      let (at0, nonzero0, _) = A.attach id s2 (rw att p_ok) in
      let at : S.At p s3 = rw att at at0 in
      let nonzero : is_zero p ≡ false = rw att at nonzero0 in
      let (s', cleared, e, at', poked) =
        store_ok K S p (λ d. zero_info) (moved w s3) at (length-replicate {A = ℕ} page_size 0) in
      let same : s' ≡ s = ground (arith, poked, clear) in
      let gen : sysv_gen_info K id (moved w s2) ≡ some (p, moved w s) =
        unfold sysv_gen_info in ground (arith, att, p_ok, cleared, same) in
      let at_s : S.At p s = rw same at at' in
      let (w', run, shown, _) = monitor_total K S sysv_line rounds p (moved w s) at_s enough in
      (
        w',
        rw (init, ◌>>=◌) (rw id_ok (rw (gen, ◌>>=◌) (rw nonzero (rw (run, ◌>>=◌) (rw p_ok refl))))),
        ap S.content (sym same) ∙ e,
        shown,
      )

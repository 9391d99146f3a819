-- ===== src/Semaphore/Named/Handles.antt =====
-- Every path of `posix_named_main` of semaphore_example/main.c closes the semaphore that it opened.
use linux_programming_exampl.Prelude.{
  ℕ, ◌+◌, ◌≤◌, ◌==◌, if◌then◌else◌, ◌≡◌, inl, inr, ℤ, some, List, [], arith, get_or, Option-cases,
}
use linux_programming_exampl.Program.{Prog, World, moved, ◌>>◌}
use linux_programming_exampl.CMemory.{codes}
use linux_programming_exampl.Semaphore.Usage.{print_help, sem_num, posix_named_time_delay}
use linux_programming_exampl.Semaphore.Named.{
  posix_named_init, posix_named_show, posix_named_wait, posix_named_trywait, posix_named_timedwait,
  posix_named_release, posix_named_fin, named_command, posix_named_main,
}
use linux_programming_exampl.Semaphore.Named.Kernel.{PosixSemOs, CountsHandles}

module _ (K : PosixSemOs) (C : CountsHandles K) where
  -- From `w` to `w'`, each semaphore stays open as many times as it was.
  abbrev SameHandles : World K.State → World K.State → Type 0
  SameHandles w w' = (q : ℕ) → C.handles w'.os q ≡ C.handles w.os q

  wait_keeps :
      (p : ℕ) (w w' : World K.State) (r : ℤ)
      → posix_named_wait K p w ≡ some (r, w')
      → SameHandles w w'
  unfolding posix_named_wait
  wait_keeps p w w' r run q = elim (Option-cases (K.sem_wait p w.os)) [
    | inl never ↦ ground arith
    | inr ((ret, s), e) ↦ ground (arith, C.wait_keeps p w.os s ret e q)
  ]

  timedwait_keeps :
      (p : ℕ) (w w' : World K.State) (r : ℤ)
      → posix_named_timedwait K p w ≡ some (r, w')
      → SameHandles w w'
  unfolding posix_named_timedwait
  timedwait_keeps p w w' r run q =
      let s : K.State = (K.clock_gettime w.os).1 in
      let sec : ℕ = (K.clock_gettime w.os).0.0 + posix_named_time_delay in
      let nsec : ℕ = (K.clock_gettime w.os).0.1 in
      elim (Option-cases (K.sem_timedwait p sec nsec s)) [
        | inl never ↦ ground arith
        | inr ((ret, s'), e) ↦
            ground (arith, C.timedwait_keeps p sec nsec s s' ret e q, C.gettime_keeps w.os q)
      ]

  other_keeps :
      (p : ℕ) (w w' : World K.State) (r : ℤ)
      → (posix_named_show K p w ≡ some (r, w') → SameHandles w w')
        × (posix_named_trywait K p w ≡ some (r, w') → SameHandles w w')
        × (posix_named_release K p w ≡ some (r, w') → SameHandles w w')
  unfolding posix_named_show posix_named_trywait posix_named_release
  other_keeps p w w' r = (
    λ e q. ground (arith, C.getvalue_keeps p w.os q),
    λ e q. ground (arith, C.trywait_keeps p w.os q),
    λ e q. ground (arith, C.post_keeps p w.os q),
  )

  help_keeps :
      (argv : List (List ℕ)) (w w' : World K.State) {t : Unit {0}}
      → print_help (get_or argv 0 []) w ≡ some (t, w')
      → SameHandles w w'
  unfolding print_help
  help_keeps argv w w' run q = ground arith

  -- The semaphore of `p` has been opened once more in `w'` than in `w`.
  abbrev OneMoreOpen : ℕ → World K.State → World K.State → Type 0
  OneMoreOpen p w w' =
      (q : ℕ) → C.handles w'.os q ≡ (if q == p then C.handles w.os q + 1 else C.handles w.os q)

  -- A command that opens and closes nothing, with `posix_named_fin` behind it.
  closes :
      {A : Type 0} (p : ℕ) (w w1 w' : World K.State) (q : ℕ) (m : Prog K.State A)
      → OneMoreOpen p w w1
      → ((r : A) (w2 : World K.State) → m w1 ≡ some (r, w2) → SameHandles w1 w2)
      → (m >> posix_named_fin K p) w1 ≡ some (tt, w')
      → C.handles w'.os q ≡ C.handles w.os q
  unfolding posix_named_fin
  closes p w w1 w' q m opens keeps run = elim (Option-cases (m w1)) [
    | inl never ↦ ground arith
    | inr ((r, w2), e) ↦
        let one : 1 ≤ C.handles w2.os p = ground (arith, keeps r w2 e p, opens p) in
        ground (arith, C.close_one p w2.os one q, keeps r w2 e q, opens q)
  ]

  named_command_closes :
      (argv : List (List ℕ)) (p : ℕ) (w w1 w' : World K.State)
      → OneMoreOpen p w w1
      → named_command K argv p w1 ≡ some (tt, w')
      → SameHandles w w'
  unfolding named_command
  named_command_closes argv p w w1 w' h run q = ground (
    arith,
    closes p w w1 w' q (posix_named_show K p) h (λ r w2. (other_keeps p w1 w2 r).0),
    closes p w w1 w' q (posix_named_wait K p) h (λ r w2. wait_keeps p w1 w2 r),
    closes p w w1 w' q (posix_named_trywait K p) h (λ r w2. (other_keeps p w1 w2 r).1),
    closes p w w1 w' q (posix_named_timedwait K p) h (λ r w2. timedwait_keeps p w1 w2 r),
    closes p w w1 w' q (posix_named_release K p) h (λ r w2. (other_keeps p w1 w2 r).2),
    closes p w w1 w' q (print_help (get_or argv 0 [])) h (λ r w2. help_keeps argv w1 w2),
  )

  -- When `posix_named_main` returns, whatever the command and whether or not the semaphore could be
  -- opened, the process has the semaphore of each address open as many times as before: the address
  -- that `sem_open` gave is the one that is closed.
  pub posix_named_main_closes :
      (argv : List (List ℕ)) (w w' : World K.State)
      → posix_named_main K argv w ≡ some (tt, w')
      → (q : ℕ) → C.handles w'.os q ≡ C.handles w.os q
  unfolding posix_named_main posix_named_init
  posix_named_main_closes argv w w' run q =
      let s : K.State = (K.sem_open (codes "/named_posix") sem_num w.os).1 in
      elim (Option-cases (K.sem_open (codes "/named_posix") sem_num w.os).0) [
        | inl failed ↦ ground (arith, C.open_failed (codes "/named_posix") sem_num w.os failed q)
        | inr (p, e) ↦
            named_command_closes argv p w (moved w s) w'
              (C.open_ok (codes "/named_posix") sem_num w.os p e) (ground arith) q
      ]

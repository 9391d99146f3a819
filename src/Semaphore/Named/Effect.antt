-- ===== src/Semaphore/Named/Effect.antt =====
-- What the commands of semaphore_example/main.c do to the value of a named semaphore.
use linux_programming_exampl.Prelude.{
  ℕ, String, zero, suc, ◌+◌, ◌≡◌, refl, ◌∙◌, ◌⊎◌, inl, inr, ℤ, pos, minus_one, none, some, [], ◌∷◌,
  ◌++◌, arith,
}
use linux_programming_exampl.Program.{World, int, perror, printf, moved, said}
use linux_programming_exampl.Semaphore.Usage.{posix_named_time_delay}
use linux_programming_exampl.Semaphore.Named.{
  posix_named_show, posix_named_wait, posix_named_trywait, posix_named_timedwait,
  posix_named_release,
}
use linux_programming_exampl.Semaphore.Named.Kernel.{PosixSemOs, HasValue}

module _ (K : PosixSemOs) (V : HasValue K) where
  -- A call that took the semaphore, or one that found it at 0 and only printed an error.
  abbrev pub Tried : ℕ → World K.State → String → ℤ → World K.State → Type 0
  Tried p w what status w' =
      ((status ≡ pos 0) × (V.value w.os p ≡ V.value w'.os p + 1) × (w'.out ≡ w.out))
      ⊎ ((status ≡ minus_one)
          × (V.value w.os p ≡ 0)
          × (V.value w'.os p ≡ 0)
          × (w'.out ≡ w.out ++ (perror what ∷ [])))

  try_from :
      (p v : ℕ) (w : World K.State)
      → V.value w.os p ≡ v
      → (status : ℤ) × (w' : World K.State) × (posix_named_trywait K p w ≡ some (status, w'))
        × Tried p w "sem_trywait()" status w'
  unfolding posix_named_trywait
  try_from p zero w e = (
    minus_one,
    said w (perror "sem_trywait()"),
    ground (arith, V.trywait_fails p w.os e),
    inr (refl, e, e, refl),
  )
  try_from p (suc v) w e =
      let (ok, less) = V.trywait_down p v w.os e in
      (
        pos 0,
        moved w (K.sem_trywait p w.os).1,
        ground (arith, ok),
        inl (refl, omega (arith, less), refl),
      )

  timed_from :
      (p v : ℕ) (w : World K.State)
      → V.value w.os p ≡ v
      → (status : ℤ) × (w' : World K.State) × (posix_named_timedwait K p w ≡ some (status, w'))
        × Tried p w "sem_timedwait()" status w'
  unfolding posix_named_timedwait
  timed_from p zero w e =
      let s : K.State = (K.clock_gettime w.os).1 in
      let sec : ℕ = (K.clock_gettime w.os).0.0 + posix_named_time_delay in
      let (s', late, still) =
        V.timedwait_late p sec (K.clock_gettime w.os).0.1 s (V.gettime_value p w.os ∙ e) in
      (
        minus_one,
        said (moved w s') (perror "sem_timedwait()"),
        ground (arith, late),
        inr (refl, e, still, refl),
      )
  timed_from p (suc v) w e =
      let s : K.State = (K.clock_gettime w.os).1 in
      let sec : ℕ = (K.clock_gettime w.os).0.0 + posix_named_time_delay in
      let (s', ok, less) =
        V.timedwait_down p sec (K.clock_gettime w.os).0.1 v s (V.gettime_value p w.os ∙ e) in
      (pos 0, moved w s', ground (arith, ok), inl (refl, omega (arith, less), refl))

  -- `trywait` and `timewait` return, whatever the value. They take the semaphore and return 0 if its
  -- value was positive; if it was 0 it stays 0, and they print an error and return -1.
  pub tries_total :
      (p : ℕ) (w : World K.State)
      → ((status : ℤ) × (w' : World K.State) × (posix_named_trywait K p w ≡ some (status, w'))
          × Tried p w "sem_trywait()" status w')
        × ((status : ℤ) × (w' : World K.State) × (posix_named_timedwait K p w ≡ some (status, w'))
            × Tried p w "sem_timedwait()" status w')
  tries_total p w = (try_from p (V.value w.os p) w refl, timed_from p (V.value w.os p) w refl)

  -- Behind a `release`, a `wait` does not sleep: both return 0, and the value is as before.
  pub wait-release :
      (p : ℕ) (w : World K.State)
      → (w1 w2 : World K.State) × (posix_named_release K p w ≡ some (pos 0, w1))
        × (posix_named_wait K p w1 ≡ some (pos 0, w2))
        × (V.value w2.os p ≡ V.value w.os p)
        × (w2.out ≡ w.out)
  unfolding posix_named_release posix_named_wait
  wait-release p w =
      let s1 : K.State = (K.sem_post p w.os).1 in
      let (ok, more) = V.post_up p w.os in
      let (s2, got, less) = V.wait_down p (V.value w.os p) s1 (omega (arith, more)) in
      (moved w s1, moved w s2, ground (arith, ok), ground (arith, got), less, refl)

  -- `wait` on a semaphore of value 0 sleeps, and `show` prints the value and changes nothing.
  pub wait_show :
      (p : ℕ) (w : World K.State)
      → (V.value w.os p ≡ 0 → posix_named_wait K p w ≡ none)
        × (posix_named_show K p w
            ≡ some (
              pos 0,
              said
                  (said
                    (said w (printf "============================================\n" []))
                    (printf " POSIX NAMED SEMAPHORE VALUE CHECK \n" []))
                  (printf "    * semaphore : %d\n" (int (pos (V.value w.os p)) ∷ [])),
            ))
  unfolding posix_named_wait posix_named_show
  wait_show p w = (λ e. ground (arith, V.wait_sleeps p w.os e), ground (arith, V.getvalue p w.os))

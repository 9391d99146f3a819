-- ===== src/Semaphore/Sysv/Operations.antt =====
-- `sysv_sem_get`, `sysv_sem_release` and `sysv_sem_wait` of semaphore_example/main.c, on one semaphore.
use linux_programming_exampl.Prelude.{
  ℕ, suc, ◌+◌, ◌<◌, ◌≡◌, ◌∙◌, ℤ, pos, int_eq_refl, int_eq→eq, true, none, some, arith, ◌==◌,
  if◌then◌else◌,
}
use linux_programming_exampl.Program.{World, moved}
use linux_programming_exampl.Semaphore.Usage.{sem_num}
use linux_programming_exampl.Semaphore.Sysv.{to_u16, sysv_sem_get, sysv_sem_release, sysv_sem_wait}
use linux_programming_exampl.Semaphore.Sysv.Kernel.{SysvSemOs, IsSemSets, set_value}

module _ (K : SysvSemOs) (L : IsSemSets K) where
  -- State `s'` has the same sets as `s`, and `v` in semaphore `n` of `id` instead of its value.
  pub record Changed (s : K.State) (id : ℤ) (n v : ℕ) (s' : K.State) : Type 0 where
    pub sets : (id' : ℤ) → L.is_set s' id' ≡ L.is_set s id'
    pub values : (id' : ℤ) (n' : ℕ) → L.value s' id' n' ≡ set_value (L.value s) id n v id' n'

  pub sysv_sem_get_total :
      (id index : ℤ) (n v : ℕ) (w : World K.State)
      → L.is_set w.os id ≡ true
      → to_u16 index ≡ n
      → n < sem_num
      → L.value w.os id n ≡ suc v
      → (s' : K.State) × (sysv_sem_get K id index w ≡ some (pos 0, moved w s'))
        × Changed w.os id n v s'
  unfolding sysv_sem_get
  sysv_sem_get_total id index n v w set e h positive =
      let (s', ok, sets, values) = L.semop_down id n v w.os set h positive in
      (s', ground (arith, ok, e), record { sets = sets; values = values })

  pub sysv_sem_get_sleeps :
      (id index : ℤ) (n : ℕ) (w : World K.State)
      → L.is_set w.os id ≡ true
      → to_u16 index ≡ n
      → n < sem_num
      → L.value w.os id n ≡ 0
      → sysv_sem_get K id index w ≡ none
  unfolding sysv_sem_get
  sysv_sem_get_sleeps id index n w set e h taken =
      ground (arith, L.semop_sleeps id n w.os set h taken)

  pub sysv_sem_release_total :
      (id index : ℤ) (n : ℕ) (w : World K.State)
      → L.is_set w.os id ≡ true
      → to_u16 index ≡ n
      → n < sem_num
      → (s' : K.State) × (sysv_sem_release K id index w ≡ some (pos 0, moved w s'))
        × Changed w.os id n (L.value w.os id n + 1) s'
  unfolding sysv_sem_release
  sysv_sem_release_total id index n w set e h =
      let (s', ok, sets, values) = L.semop_up id n w.os set h in
      (s', ground (arith, ok, e), record { sets = sets; values = values })

  -- `wait0` returns at once, with 0 and without a change, if the semaphore is 0; else it sleeps.
  pub sysv_sem_wait_total :
      (id index : ℤ) (n : ℕ) (w : World K.State)
      → L.is_set w.os id ≡ true
      → to_u16 index ≡ n
      → n < sem_num
      → sysv_sem_wait K id index w ≡ (if L.value w.os id n == 0 then some (pos 0, w) else none)
  unfolding sysv_sem_wait
  sysv_sem_wait_total id index n w set e h = ground (arith, L.semop_zero id n w.os set h)

  -- Taking a semaphore that is free and giving it back leaves every semaphore of every set as it was,
  -- and both calls return 0.
  pub release-get :
      (id index : ℤ) (n v : ℕ) (w : World K.State)
      → L.is_set w.os id ≡ true
      → to_u16 index ≡ n
      → n < sem_num
      → L.value w.os id n ≡ suc v
      → (w1 w2 : World K.State) × (sysv_sem_get K id index w ≡ some (pos 0, w1))
        × (sysv_sem_release K id index w1 ≡ some (pos 0, w2))
        × ((id' : ℤ) (n' : ℕ) → L.value w2.os id' n' ≡ L.value w.os id' n')
  release-get id index n v w set e h positive =
      let (s1, got, c1) = sysv_sem_get_total id index n v w set e h positive in
      let (s2, gave, c2) = sysv_sem_release_total id index n (moved w s1) (c1.sets id ∙ set) e h in
      (
        moved w s1,
        moved w s2,
        got,
        gave,
        λ id' n'. ground (
          arith,
          c2.values id' n',
          c1.values id' n',
          c1.values id n,
          positive,
          int_eq→eq id id',
          int_eq_refl id,
        ),
      )

-- ===== src/Semaphore/Sysv/Kernel.antt =====
-- The System V calls that semaphore_example/main.c makes, over an unknown kernel, and what their
-- manual pages promise.
use linux_programming_exampl.Prelude.{
  ℕ, suc, ◌+◌, ◌≤◌, ◌<◌, ◌≡◌, ℤ, pos, minus_one, Bool, true, false, Option, none, some, List, ◌==◌,
  if◌then◌else◌, int_eq, ◌&&◌,
}
use linux_programming_exampl.Semaphore.Usage.{sem_num}

-- `semctl_setval id n v` is `semctl(id, n, SETVAL, v)`, `semctl_getval id n` is
-- `semctl(id, n, GETVAL)`, `semop id n op` has the one operation `op` on semaphore `n`. `none`: the
-- process sleeps, and is not woken.
pub record SysvSemOs : Type 1 where
  pub State : Type 0
  pub ftok : List ℕ → ℕ → State → ℤ × State
  pub semget : ℤ → ℕ → State → ℤ × State
  pub semctl_setval : ℤ → ℕ → ℕ → State → ℤ × State
  pub semctl_getval : ℤ → ℕ → State → ℤ × State
  pub semop : ℤ → ℕ → ℤ → State → Option (ℤ × State)

-- `value s id n` is the value of semaphore `n` of the set `id`.
abbrev pub Values : Type 0
Values = ℤ → ℕ → ℕ

abbrev pub set_value : Values → ℤ → ℕ → ℕ → ℤ → ℕ → ℕ
set_value f id n v id' n' = if int_eq id id' && n == n' then v else f id' n'

-- Sets of `sem_num` semaphores, on which no other process works meanwhile.
pub record IsSemSets (K : SysvSemOs) : Type 1 where
  pub is_set : K.State → ℤ → Bool
  pub value : K.State → ℤ → ℕ → ℕ
  pub not_set : (s : K.State) → is_set s minus_one ≡ false
  -- SETVAL
  pub setval_ok :
      (id : ℤ) (n v : ℕ) (s : K.State)
      → is_set s id ≡ true
      → n < sem_num
      → ((K.semctl_setval id n v s).0 ≡ pos 0)
        × ((id' : ℤ) → is_set (K.semctl_setval id n v s).1 id' ≡ is_set s id')
        × ((id' : ℤ) (n' : ℕ)
            → value (K.semctl_setval id n v s).1 id' n' ≡ set_value (value s) id n v id' n')
  pub setval_bad :
      (id : ℤ) (n v : ℕ) (s : K.State)
      → is_set s id ≡ false
      → K.semctl_setval id n v s ≡ (minus_one, s)
  -- GETVAL
  pub getval_ok :
      (id : ℤ) (n : ℕ) (s : K.State)
      → is_set s id ≡ true
      → n < sem_num
      → K.semctl_getval id n s ≡ (pos (value s id n), s)
  pub getval_bad :
      (id : ℤ) (n : ℕ) (s : K.State) → is_set s id ≡ false → K.semctl_getval id n s ≡ (minus_one, s)
  -- `sem_op` is 1: the value grows; -1: it falls, or the process sleeps while it is 0;
  -- 0: the process sleeps while it is not 0.
  pub semop_up :
      (id : ℤ) (n : ℕ) (s : K.State)
      → is_set s id ≡ true
      → n < sem_num
      → (s' : K.State) × (K.semop id n (pos 1) s ≡ some (pos 0, s'))
        × ((id' : ℤ) → is_set s' id' ≡ is_set s id')
        × ((id' : ℤ) (n' : ℕ)
            → value s' id' n' ≡ set_value (value s) id n (value s id n + 1) id' n')
  pub semop_down :
      (id : ℤ) (n v : ℕ) (s : K.State)
      → is_set s id ≡ true
      → n < sem_num
      → value s id n ≡ suc v
      → (s' : K.State) × (K.semop id n minus_one s ≡ some (pos 0, s'))
        × ((id' : ℤ) → is_set s' id' ≡ is_set s id')
        × ((id' : ℤ) (n' : ℕ) → value s' id' n' ≡ set_value (value s) id n v id' n')
  pub semop_sleeps :
      (id : ℤ) (n : ℕ) (s : K.State)
      → is_set s id ≡ true
      → n < sem_num
      → value s id n ≡ 0
      → K.semop id n minus_one s ≡ none
  pub semop_zero :
      (id : ℤ) (n : ℕ) (s : K.State)
      → is_set s id ≡ true
      → n < sem_num
      → K.semop id n (pos 0) s ≡ (if value s id n == 0 then some (pos 0, s) else none)
  pub semop_bad :
      (id : ℤ) (n : ℕ) (op : ℤ) (s : K.State)
      → is_set s id ≡ false
      → K.semop id n op s ≡ some (minus_one, s)
  -- EFBIG: there is no semaphore of that number.
  pub semop_efbig :
      (id : ℤ) (n : ℕ) (op : ℤ) (s : K.State)
      → is_set s id ≡ true
      → sem_num ≤ n
      → K.semop id n op s ≡ some (minus_one, s)

-- ===== src/Semaphore/Named/Kernel.antt =====
-- The calls of semaphore.h that semaphore_example/main.c makes on a named semaphore.
use linux_programming_exampl.Prelude.{
  ℕ, suc, ◌+◌, ◌-◌, ◌≤◌, ◌≡◌, ◌==◌, if◌then◌else◌, ℤ, pos, minus_one, Option, none, some, List,
}

-- A semaphore is named by its address. `sem_open` gives `none` for `SEM_FAILED`, `sem_getvalue` its
-- result and the value, and `clock_gettime` seconds and nanoseconds. The outer `none` of `sem_wait`
-- and `sem_timedwait`: the process sleeps, and is not woken.
pub record PosixSemOs : Type 1 where
  pub State : Type 0
  pub sem_open : List ℕ → ℕ → State → Option ℕ × State
  pub sem_getvalue : ℕ → State → (ℤ × ℤ) × State
  pub sem_wait : ℕ → State → Option (ℤ × State)
  pub sem_trywait : ℕ → State → ℤ × State
  pub sem_timedwait : ℕ → ℕ → ℕ → State → Option (ℤ × State)
  pub sem_post : ℕ → State → ℤ × State
  pub sem_close : ℕ → State → ℤ × State
  pub clock_gettime : State → (ℕ × ℕ) × State

-- How many times the process has the semaphore of an address open: `sem_open` gives the same address
-- for a semaphore that is open already. `sem_close` takes an address that is open.
pub record CountsHandles (K : PosixSemOs) : Type 1 where
  pub handles : K.State → ℕ → ℕ
  pub open_failed :
      (path : List ℕ) (v : ℕ) (s : K.State)
      → (K.sem_open path v s).0 ≡ none
      → (q : ℕ) → handles (K.sem_open path v s).1 q ≡ handles s q
  pub open_ok :
      (path : List ℕ) (v : ℕ) (s : K.State) (p : ℕ)
      → (K.sem_open path v s).0 ≡ some p
      → (q : ℕ)
      → handles (K.sem_open path v s).1 q ≡ (if q == p then handles s q + 1 else handles s q)
  pub close_one :
      (p : ℕ) (s : K.State)
      → 1 ≤ handles s p
      → (q : ℕ) → handles (K.sem_close p s).1 q ≡ (if q == p then handles s q - 1 else handles s q)
  pub getvalue_keeps :
      (p : ℕ) (s : K.State) (q : ℕ) → handles (K.sem_getvalue p s).1 q ≡ handles s q
  pub wait_keeps :
      (p : ℕ) (s s' : K.State) (r : ℤ)
      → K.sem_wait p s ≡ some (r, s')
      → (q : ℕ) → handles s' q ≡ handles s q
  pub trywait_keeps : (p : ℕ) (s : K.State) (q : ℕ) → handles (K.sem_trywait p s).1 q ≡ handles s q
  pub timedwait_keeps :
      (p sec nsec : ℕ) (s s' : K.State) (r : ℤ)
      → K.sem_timedwait p sec nsec s ≡ some (r, s')
      → (q : ℕ) → handles s' q ≡ handles s q
  pub post_keeps : (p : ℕ) (s : K.State) (q : ℕ) → handles (K.sem_post p s).1 q ≡ handles s q
  pub gettime_keeps : (s : K.State) (q : ℕ) → handles (K.clock_gettime s).1 q ≡ handles s q

-- The value of the semaphore, while no other process works on it.
pub record HasValue (K : PosixSemOs) : Type 1 where
  pub value : K.State → ℕ → ℕ
  pub getvalue : (p : ℕ) (s : K.State) → K.sem_getvalue p s ≡ ((pos 0, pos (value s p)), s)
  pub wait_down :
      (p v : ℕ) (s : K.State)
      → value s p ≡ suc v
      → (s' : K.State) × (K.sem_wait p s ≡ some (pos 0, s')) × (value s' p ≡ v)
  pub wait_sleeps : (p : ℕ) (s : K.State) → value s p ≡ 0 → K.sem_wait p s ≡ none
  pub trywait_down :
      (p v : ℕ) (s : K.State)
      → value s p ≡ suc v
      → ((K.sem_trywait p s).0 ≡ pos 0) × (value (K.sem_trywait p s).1 p ≡ v)
  pub trywait_fails : (p : ℕ) (s : K.State) → value s p ≡ 0 → K.sem_trywait p s ≡ (minus_one, s)
  -- The value is there, or the time comes.
  pub timedwait_down :
      (p sec nsec v : ℕ) (s : K.State)
      → value s p ≡ suc v
      → (s' : K.State) × (K.sem_timedwait p sec nsec s ≡ some (pos 0, s')) × (value s' p ≡ v)
  pub timedwait_late :
      (p sec nsec : ℕ) (s : K.State)
      → value s p ≡ 0
      → (s' : K.State) × (K.sem_timedwait p sec nsec s ≡ some (minus_one, s')) × (value s' p ≡ 0)
  pub post_up :
      (p : ℕ) (s : K.State)
      → ((K.sem_post p s).0 ≡ pos 0) × (value (K.sem_post p s).1 p ≡ value s p + 1)
  pub gettime_value : (p : ℕ) (s : K.State) → value (K.clock_gettime s).1 p ≡ value s p

-- ===== src/Semaphore/Sysv/Tests.antt =====
-- A kernel with one set of semaphores, and the theorems about semaphore_example/main.c on it.
use linux_programming_exampl.Prelude.{
  ℕ, zero, suc, ◌+◌, ◌-◌, ◌≤◌, ◌≡◌, refl, ℤ, pos, negsuc, minus_one, int_eq, int_eq→eq, Bool, ◌&&◌,
  Option, none, some, List, [], ◌∷◌, arith, ◌==◌, ltb, if◌then◌else◌,
}
use linux_programming_exampl.Program.{World, said}
use linux_programming_exampl.CMemory.{codes}
use linux_programming_exampl.Semaphore.Usage.{sem_num}
use linux_programming_exampl.Semaphore.Sysv.{
  to_u16, init_loop, sysv_sem_init, sysv_sem_get, sysv_sem_release, sysv_main,
}
use linux_programming_exampl.Semaphore.Sysv.Kernel.{SysvSemOs, IsSemSets}
use linux_programming_exampl.Semaphore.Sysv.Init.{initial, line}
use linux_programming_exampl.Semaphore.Sysv.Session.{
  Command, get, release, gets, releases, session, holders_bound,
}
use linux_programming_exampl.Semaphore.Sysv.Failure.{
  heading, without_key, ended, sysv_main_without_set,
}

-- The state is the values of the set 7.
abbrev State : Type 0
State = ℕ → ℕ

abbrev seven : ℤ
seven = pos 7

abbrev put : State → ℕ → ℕ → State
put s n v m = if n == m then v else s m

abbrev exists : ℤ → ℕ → Bool
exists id n = int_eq id seven && ltb n sem_num

abbrev operate : ℕ → ℤ → State → Option (ℤ × State)
operate n (pos zero) s = if s n == 0 then some (pos 0, s) else none
operate n (pos (suc k)) s = some (pos 0, put s n (s n + suc k))
operate n (negsuc k) s = if ltb k (s n) then some (pos 0, put s n (s n - suc k)) else none

-- `ftok` gives the key that the kernel is made with.
abbrev toy : ℤ → SysvSemOs
toy key = record {
  State = State;
  ftok = λ path proj s. (key, s);
  semget = λ k n s. (seven, s);
  semctl_setval = λ id n v s. if exists id n then (pos 0, put s n v) else (minus_one, s);
  semctl_getval = λ id n s. if exists id n then (pos (s n), s) else (minus_one, s);
  semop = λ id n op s. if exists id n then operate n op s else some (minus_one, s);
}

toy-IsSemSets : (key : ℤ) → IsSemSets (toy key)
toy-IsSemSets key = record {
  is_set = λ s id. int_eq id seven;
  value = λ s id n. if int_eq id seven then s n else 0;
  not_set = λ s. refl;
  setval_ok = λ id n v s set h. (
    ground arith,
    λ id'. refl,
    λ id' n'. ground (arith, int_eq→eq id id', int_eq→eq id seven, int_eq→eq id' seven),
  );
  setval_bad = λ id n v s set. rw set;
  getval_ok = λ id n s set h. ground arith;
  getval_bad = λ id n s set. rw set;
  semop_up = λ id n s set h. (
    put s n (s n + 1),
    ground arith,
    λ id'. refl,
    λ id' n'. ground (arith, int_eq→eq id id', int_eq→eq id seven, int_eq→eq id' seven),
  );
  semop_down = λ id n v s set h e. (
    put s n (s n - 1),
    ground arith,
    λ id'. refl,
    λ id' n'. ground (arith, int_eq→eq id id', int_eq→eq id seven, int_eq→eq id' seven),
  );
  semop_sleeps = λ id n s set h e. ground arith;
  semop_zero = λ id n s set h. ground arith;
  semop_bad = λ id n op s set. rw set;
  semop_efbig = λ id n op s set h. ground arith;
}

abbrev world : State → World State
world s = record { os = s; out = [] }

abbrev zeros : State
zeros n = 0

abbrev kernel : SysvSemOs
kernel = toy (pos 1)

-- The values after `init`.
abbrev alternating : State
alternating = put (put (put (put (put zeros 0 1) 1 5) 2 1) 3 5) 4 1

init_run : sysv_sem_init kernel seven (world zeros) ≡ some (pos 0, world alternating)
unfolding sysv_sem_init init_loop
init_run = refl

abbrev commands : List Command
commands = get ∷ release ∷ get ∷ []

commands_run :
    (w : World State) × (session kernel commands seven (pos 0) (world alternating) ≡ some (tt, w))
unfolding session sysv_sem_get sysv_sem_release to_u16
commands_run = (_, refl)

holders_bound_example : gets commands ≤ initial 0 + releases commands
unfolding toy-IsSemSets to_u16
holders_bound_example =
    holders_bound kernel (toy-IsSemSets (pos 1)) seven (pos 0) 0 commands (world zeros)
      (world alternating) commands_run.0 refl refl (omega arith) init_run commands_run.1

-- Semaphore 65537 is semaphore 1.
abbrev arg : List ℕ
arg = codes "65537"

-- `ftok` has failed.
abbrev lost : World State
lost = without_key (toy minus_one) (world zeros)

sysv_main_without_set_example :
    (sysv_main (toy minus_one) (codes "sem" ∷ codes "sysv" ∷ codes "init" ∷ []) (world zeros)
      ≡ ended (toy minus_one) lost "semctl()")
    × (sysv_main (toy minus_one) (codes "sem" ∷ codes "sysv" ∷ codes "show" ∷ []) (world zeros)
        ≡ ended (toy minus_one) (said (said lost line) heading) "semctl()")
    × (sysv_main (toy minus_one) (codes "sem" ∷ codes "sysv" ∷ codes "get" ∷ arg ∷ []) (world zeros)
        ≡ ended (toy minus_one) lost "semop()")
    × (sysv_main
          (toy minus_one)
          (codes "sem" ∷ codes "sysv" ∷ codes "release" ∷ arg ∷ [])
          (world zeros)
        ≡ ended (toy minus_one) lost "semop()")
    × (sysv_main
          (toy minus_one)
          (codes "sem" ∷ codes "sysv" ∷ codes "wait0" ∷ arg ∷ [])
          (world zeros)
        ≡ ended (toy minus_one) lost "semop()")
sysv_main_without_set_example =
    sysv_main_without_set (toy minus_one) (toy-IsSemSets minus_one) (codes "sem") (codes "sysv") arg
      [] (world zeros) refl

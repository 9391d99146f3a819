-- ===== src/Semaphore/Named/Tests.antt =====
-- A kernel with one named semaphore, and the theorems about semaphore_example/main.c on it.
use linux_programming_exampl.Prelude.{
  ℕ, zero, suc, ◌+◌, ◌-◌, ◌≡◌, refl, ℤ, pos, minus_one, Option, none, some, List, [], ◌∷◌, arith,
  ◌==◌, if◌then◌else◌,
}
use linux_programming_exampl.Program.{World}
use linux_programming_exampl.CMemory.{codes, strcmp_eq}
use linux_programming_exampl.Semaphore.Named.{
  posix_named_init, posix_named_trywait, posix_named_main, named_command, posix_named_fin,
}
use linux_programming_exampl.Semaphore.Named.Kernel.{PosixSemOs, CountsHandles, HasValue}
use linux_programming_exampl.Semaphore.Named.Handles.{posix_named_main_closes}

record One : Type 0 where
  value : ℕ
  opened : ℕ → ℕ

-- The semaphore has the address 1.
abbrev open_one : (ℕ → ℕ) → ℕ → ℕ
open_one f q = if q == 1 then f q + 1 else f q

abbrev close_one : (ℕ → ℕ) → ℕ → ℕ → ℕ
close_one f p q = if q == p then f q - 1 else f q

abbrev down : One → Option (ℤ × One)
down s = elim s.value [ zero ↦ none | suc v ↦ some (pos 0, record s { value = v }) ]

abbrev try_down : One → ℤ × One
try_down s = elim s.value [ zero ↦ (minus_one, s) | suc v ↦ (pos 0, record s { value = v }) ]

abbrev toy : PosixSemOs
toy = record {
  State = One;
  sem_open = λ path v s. (some 1, record s { opened = open_one s.opened });
  sem_getvalue = λ p s. ((pos 0, pos s.value), s);
  sem_wait = λ p s. down s;
  sem_trywait = λ p s. try_down s;
  sem_timedwait = λ p sec nsec s. some (try_down s);
  sem_post = λ p s. (pos 0, record s { value = s.value + 1 });
  sem_close = λ p s. (pos 0, record s { opened = close_one s.opened p });
  clock_gettime = λ s. ((1000, 0), s);
}

toy-CountsHandles : CountsHandles toy
toy-CountsHandles = record {
  handles = λ s. s.opened;
  open_failed = λ path v s e q. absurd (cc);
  open_ok = λ path v s p e q. ground arith;
  close_one = λ p s e q. refl;
  getvalue_keeps = λ p s q. refl;
  wait_keeps = λ p s s' r e q. ground arith;
  trywait_keeps = λ p s q. ground arith;
  timedwait_keeps = λ p sec nsec s s' r e q. ground arith;
  post_keeps = λ p s q. refl;
  gettime_keeps = λ s q. refl;
}

toy-HasValue : HasValue toy
toy-HasValue = record {
  value = λ s p. s.value;
  getvalue = λ p s. refl;
  wait_down = λ p v s e. (record s { value = v }, ground arith, refl);
  wait_sleeps = λ p s e. ground arith;
  trywait_down = λ p v s e. (ground arith, ground arith);
  trywait_fails = λ p s e. ground arith;
  timedwait_down = λ p sec nsec v s e. (record s { value = v }, ground arith, refl);
  timedwait_late = λ p sec nsec s e. (s, ground arith, e);
  post_up = λ p s. (refl, refl);
  gettime_value = λ p s. refl;
}

abbrev world : ℕ → World One
world v = record { os = record { value = v; opened = λ q. 0 }; out = [] }

abbrev argv : List (List ℕ)
argv = codes "sem" ∷ codes "named_posix" ∷ codes "trywait" ∷ []

main_run : (w' : World One) × (posix_named_main toy argv (world 0) ≡ some (tt, w'))
unfolding posix_named_main posix_named_init named_command posix_named_trywait posix_named_fin
    strcmp_eq
main_run = (_, refl)

posix_named_main_closes_example : main_run.0.os.opened 1 ≡ 0
unfolding toy-CountsHandles
posix_named_main_closes_example =
    posix_named_main_closes toy toy-CountsHandles argv (world 0) main_run.0 main_run.1 1

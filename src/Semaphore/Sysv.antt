-- ===== src/Semaphore/Sysv.antt =====
-- The System V part of semaphore_example/main.c.
pub mod Kernel
pub mod Init
pub mod Operations
pub mod Session
pub mod Failure
mod Tests
use linux_programming_exampl.Prelude.{
  ℕ, zero, suc, ◌+◌, ◌-◌, ◌%◌, ℤ, pos, negsuc, minus_one, is_minus_one, Bool, true, false, List, [],
  ◌∷◌, ◌==◌, ltb, if◌then◌else◌, length, get_or,
}
use linux_programming_exampl.Program.{
  Prog, World, int, text, printf, perror, pure, ◌>>=◌, ◌>>◌, print, sys, call,
}
use linux_programming_exampl.CMemory.{codes, strcmp_eq, atoi}
use linux_programming_exampl.Semaphore.Usage.{print_help, sem_num, sem_count, sem_binary, ftok_proj}
use Kernel.{SysvSemOs}

-- `buf.sem_num = sem_index`: an `int` stored in an `unsigned short`.
unfoldable pub to_u16 : ℤ → ℕ
to_u16 (pos n) = n % 65536
to_u16 (negsuc n) = 65535 - n % 65536

-- `SEM_SYSV_RELEASE`, `SEM_SYSV_WAIT`, `SEM_SYSV_GET`
abbrev pub sem_sysv_release : ℤ
sem_sysv_release = pos 1

abbrev pub sem_sysv_wait : ℤ
sem_sysv_wait = pos 0

abbrev pub sem_sysv_get : ℤ
sem_sysv_get = minus_one

module _ (K : SysvSemOs) where
  pub sysv_sem_setting : Prog K.State ℤ
  sysv_sem_setting = do
    key ← sys (K.ftok (codes "/tmp") ftok_proj)
    if is_minus_one key then (do print (perror "ftok()"); pure minus_one) else (do
      sem_id ← sys (K.semget key sem_num)
      if is_minus_one sem_id then (do print (perror "semget()"); pure minus_one) else pure sem_id)

  -- The loop of `sysv_sem_init`, with `rounds` rounds to go from `i` on.
  pub init_loop : ℕ → ℕ → ℤ → Prog K.State ℤ
  init_loop zero i sem_id = pure (pos 0)
  init_loop (suc rounds) i sem_id = do
    ret ← sys (K.semctl_setval sem_id (i - 1) (if i % 2 == 0 then sem_count else sem_binary))
    elim (is_minus_one ret) [
      | true ↦ do print (perror "semctl()"); pure minus_one
      | false ↦ init_loop rounds (i + 1) sem_id
    ]

  pub sysv_sem_init : ℤ → Prog K.State ℤ
  sysv_sem_init sem_id = init_loop sem_num 1 sem_id

  pub show_loop : ℕ → ℕ → ℤ → Prog K.State ℤ
  show_loop zero i sem_id = do
    print (printf "=====================================\n" [])
    pure (pos 0)
  show_loop (suc rounds) i sem_id = do
    ret ← sys (K.semctl_getval sem_id i)
    elim (is_minus_one ret) [
      | true ↦ do print (perror "semctl()"); pure minus_one
      | false ↦ do
        print (printf "    - Semaphore[%d] = %d\n " (int (pos i) ∷ int ret ∷ []))
        show_loop rounds (i + 1) sem_id
    ]

  pub sysv_sem_show : ℤ → Prog K.State ℤ
  sysv_sem_show sem_id = do
    print (printf "=====================================\n" [])
    print (printf "SHOW SYSV SEMPAHORE VALUES \n" [])
    show_loop sem_num 0 sem_id

  -- The three functions that call `semop` with one operation.
  pub semop_one : ℤ → ℤ → ℤ → Prog K.State ℤ
  semop_one sem_id sem_index op = do
    ret ← call (K.semop sem_id (to_u16 sem_index) op)
    if is_minus_one ret then (do print (perror "semop()"); pure minus_one) else pure (pos 0)

  pub sysv_sem_get : ℤ → ℤ → Prog K.State ℤ
  unfolding semop_one
  sysv_sem_get sem_id sem_index = semop_one sem_id sem_index sem_sysv_get

  pub sysv_sem_release : ℤ → ℤ → Prog K.State ℤ
  unfolding semop_one
  sysv_sem_release sem_id sem_index = semop_one sem_id sem_index sem_sysv_release

  pub sysv_sem_wait : ℤ → ℤ → Prog K.State ℤ
  unfolding semop_one
  sysv_sem_wait sem_id sem_index = semop_one sem_id sem_index sem_sysv_wait

  -- A command that wants the index of a semaphore.
  pub with_index : List (List ℕ) → (ℤ → Prog K.State ℤ) → Prog K.State (Unit {0})
  with_index argv command =
      if ltb (length argv) 4
      then print_help (get_or argv 0 [])
      else (do command (atoi (get_or argv 3 [])); pure tt)

  -- The result of `sysv_sem_setting` is not looked at.
  pub sysv_main : List (List ℕ) → Prog K.State (Unit {0})
  unfolding with_index
  sysv_main argv = do
    sem_id ← sysv_sem_setting
    if strcmp_eq (get_or argv 2 []) (codes "init")
        then (do sysv_sem_init sem_id; pure tt)
        else if strcmp_eq (get_or argv 2 []) (codes "show")
        then (do sysv_sem_show sem_id; pure tt)
        else if strcmp_eq (get_or argv 2 []) (codes "get")
        then with_index argv (sysv_sem_get sem_id)
        else if strcmp_eq (get_or argv 2 []) (codes "release")
        then with_index argv (sysv_sem_release sem_id)
        else if strcmp_eq (get_or argv 2 []) (codes "wait0")
        then with_index argv (sysv_sem_wait sem_id)
        else print_help (get_or argv 0 [])

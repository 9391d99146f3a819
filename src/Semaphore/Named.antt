-- ===== src/Semaphore/Named.antt =====
-- The part of semaphore_example/main.c on a named POSIX semaphore.
pub mod Kernel
pub mod Effect
pub mod Handles
mod Tests
use linux_programming_exampl.Prelude.{
  ℕ, ◌+◌, ℤ, pos, minus_one, is_minus_one, Bool, true, false, Option, none, some, List, [], ◌∷◌,
  if◌then◌else◌, get_or,
}
use linux_programming_exampl.Program.{
  Prog, World, int, printf, perror, pure, ◌>>=◌, ◌>>◌, print, sys, call,
}
use linux_programming_exampl.CMemory.{codes, strcmp_eq}
use linux_programming_exampl.Semaphore.Usage.{print_help, sem_num, posix_named_time_delay}
use Kernel.{PosixSemOs}

module _ (K : PosixSemOs) where
  -- `none` is the null pointer.
  pub posix_named_init : Prog K.State (Option ℕ)
  posix_named_init = do
    sem ← sys (K.sem_open (codes "/named_posix") sem_num)
    elim sem [ none ↦ do print (perror "sem_open()"); pure none | some p ↦ pure (some p) ]

  pub posix_named_show : ℕ → Prog K.State ℤ
  posix_named_show sem = do
    (ret, sval) ← sys (K.sem_getvalue sem)
    if is_minus_one ret then (do print (perror "sem_getvalue()"); pure minus_one) else (do
      print (printf "============================================\n" [])
      print (printf " POSIX NAMED SEMAPHORE VALUE CHECK \n" [])
      print (printf "    * semaphore : %d\n" (int sval ∷ []))
      pure (pos 0))

  pub posix_named_wait : ℕ → Prog K.State ℤ
  posix_named_wait sem = do
    ret ← call (K.sem_wait sem)
    if is_minus_one ret then (do print (perror "sem_wait()"); pure minus_one) else pure (pos 0)

  pub posix_named_trywait : ℕ → Prog K.State ℤ
  posix_named_trywait sem = do
    ret ← sys (K.sem_trywait sem)
    if is_minus_one ret then (do print (perror "sem_trywait()"); pure minus_one) else pure (pos 0)

  pub posix_named_timedwait : ℕ → Prog K.State ℤ
  posix_named_timedwait sem = do
    (tv_sec, tv_nsec) ← sys K.clock_gettime
    ret ← call (K.sem_timedwait sem (tv_sec + posix_named_time_delay) tv_nsec)
    if is_minus_one ret then (do print (perror "sem_timedwait()"); pure minus_one) else pure (pos 0)

  pub posix_named_release : ℕ → Prog K.State ℤ
  posix_named_release sem = do
    ret ← sys (K.sem_post sem)
    if is_minus_one ret then (do print (perror "sem_post()"); pure minus_one) else pure (pos 0)

  pub posix_named_fin : ℕ → Prog K.State (Unit {0})
  posix_named_fin sem = do sys (K.sem_close sem); pure tt

  -- The commands, and the end that all of them share.
  pub named_command : List (List ℕ) → ℕ → Prog K.State (Unit {0})
  named_command argv sem =
      if strcmp_eq (get_or argv 2 []) (codes "show")
      then (do posix_named_show sem; posix_named_fin sem)
      else if strcmp_eq (get_or argv 2 []) (codes "wait")
      then (do posix_named_wait sem; posix_named_fin sem)
      else if strcmp_eq (get_or argv 2 []) (codes "trywait")
      then (do posix_named_trywait sem; posix_named_fin sem)
      else if strcmp_eq (get_or argv 2 []) (codes "timewait")
      then (do posix_named_timedwait sem; posix_named_fin sem)
      else if strcmp_eq (get_or argv 2 []) (codes "release")
      then (do posix_named_release sem; posix_named_fin sem)
      else (do print_help (get_or argv 0 []); posix_named_fin sem)

  pub posix_named_main : List (List ℕ) → Prog K.State (Unit {0})
  posix_named_main argv = do
    sem ← posix_named_init
    elim sem [ none ↦ pure tt | some p ↦ named_command argv p ]

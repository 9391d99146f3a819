-- ===== src/Semaphore/Unnamed.antt =====
-- The part of semaphore_example/main.c on an unnamed POSIX semaphore in shared memory.
pub mod Kernel
pub mod Counter
pub mod Monitor
mod Tests
use linux_programming_exampl.Prelude.{
  ℕ, zero, suc, ◌+◌, ℤ, pos, minus_one, is_minus_one, Bool, true, false, Option, none, some, List,
  [], ◌∷◌, replicate, ◌==◌, if◌then◌else◌, get_or,
}
use linux_programming_exampl.Program.{
  Prog, World, Output, int, printf, perror, pure, stuck, ◌>>=◌, ◌>>◌, print, sys, call, moved,
}
use linux_programming_exampl.CMemory.{codes, strcmp_eq}
use linux_programming_exampl.Watch.{read, nap}
use linux_programming_exampl.Semaphore.Usage.{print_help, sem_num}
use Kernel.{UnnamedOs, DataInfo, sizeof_data_info, sizeof_sem, info_eq, plus_one}

abbrev pub posix_unnamed_filename : List ℕ
posix_unnamed_filename = codes "/unnamed_posix"

abbrev pub posix_unnamed_process_shared : ℕ
posix_unnamed_process_shared = 1

abbrev pub zero_info : DataInfo
zero_info = record { sem = replicate sizeof_sem 0; pid = pos 0; count = pos 0 }

abbrev pub monitor_line : DataInfo → ℤ → Output
monitor_line d sval =
    printf "    * pid = %d, counter = %d, sem: %d\n" (int d.pid ∷ int d.count ∷ int sval ∷ [])

module _ (K : UnnamedOs) where
  -- Stores to the object at a pointer.
  abbrev pub store : ℤ → (DataInfo → DataInfo) → Prog K.State (Unit {0})
  store info f w = elim (K.peek info w.os) [
    | none ↦ none
    | some d ↦ elim (K.poke info (f d) w.os) [ none ↦ none | some s ↦ some (tt, moved w s) ]
  ]

  -- The new value of `sval`, which a failed call leaves as it is.
  abbrev pub new_sval : ℤ → ℤ → ℤ → ℤ
  new_sval ret read_value sval = if is_minus_one ret then sval else read_value

  -- The loop of the monitor, with its local copy, `n` and `sval`; `rounds` bounds its rounds.
  unfoldable pub monitor_loop : ℤ → ℕ → DataInfo → ℕ → ℤ → Prog K.State (Unit {0})
  monitor_loop info zero last n sval = stuck
  monitor_loop info (suc rounds) last n sval = do
    nap K.usleep
    seen ← read (K.peek info)
    elim (info_eq last seen) [
      | true ↦ monitor_loop info rounds last n sval
      | false ↦ do
        print (monitor_line seen sval)
        (ret, value) ← sys (K.sem_getvalue info)
        copied ← read (K.peek info)
        elim (n + 1 == 5) [
          | true ↦ pure tt
          | false ↦ monitor_loop info rounds copied (n + 1) (new_sval ret value sval)
        ]
    ]

  -- `sval` is what the uninitialised variable holds.
  pub posix_unnamed_monitor : ℕ → ℤ → Prog K.State ℤ
  posix_unnamed_monitor rounds sval = do
    fd ← sys (K.shm_open posix_unnamed_filename true)
    if is_minus_one fd then (do print (perror "shm_open()"); pure minus_one) else (do
      ret ← sys (K.ftruncate fd sizeof_data_info)
      if is_minus_one ret then (do print (perror "ftruncate()"); pure minus_one) else (do
        info ← sys (K.mmap sizeof_data_info fd)
        if is_minus_one info
            then (do print (perror "mmap()"); sys (K.close fd); pure minus_one)
            else (do
              ret_init ← sys (K.sem_init info posix_unnamed_process_shared sem_num)
              if is_minus_one ret_init
                  then (do print (perror "sem_init()"); pure minus_one)
                  else (do
                    sys (K.close fd)
                    print (printf "========================================\n" [])
                    print (printf " NAMED SEMAPHORE MONITORING START\n" [])
                    monitor_loop info rounds zero_info 0 sval
                    sys (K.sem_destroy info)
                    sys (K.munmap info sizeof_data_info)
                    pure (pos 0)))))

  pub posix_unnamed_get : Prog K.State ℤ
  posix_unnamed_get = do
    fd ← sys (K.shm_open posix_unnamed_filename false)
    if is_minus_one fd then (do print (perror "shm_open()"); pure minus_one) else (do
      info ← sys (K.mmap sizeof_data_info fd)
      if is_minus_one info
          then (do print (perror "mmap()"); sys (K.close fd); pure minus_one)
          else (do
            sys (K.close fd)
            print (printf "PUT DATA IN MMAP \n" [])
            ret ← call (K.sem_wait info)
            if is_minus_one ret then (do print (perror "sem_wait()"); pure minus_one) else (do
              pid ← (λ w. some (K.getpid w.os, w))
              store info (λ d. record d { pid = pid })
              store info (λ d. record d { count = plus_one d.count })
              d ← read (K.peek info)
              print (printf "INPUT DATA pid: %d, count : %d\n" (int d.pid ∷ int d.count ∷ []))
              sys (K.munmap info sizeof_data_info)
              pure (pos 0))))

  pub posix_unnamed_put : Prog K.State ℤ
  posix_unnamed_put = do
    fd ← sys (K.shm_open posix_unnamed_filename false)
    if is_minus_one fd then (do print (perror "shm_open()"); pure minus_one) else (do
      info ← sys (K.mmap sizeof_data_info fd)
      if is_minus_one info
          then (do print (perror "mmap()"); sys (K.close fd); pure minus_one)
          else (do
            sys (K.close fd)
            ret ← sys (K.sem_post info)
            if is_minus_one ret
                then (do print (perror "sem_post()"); pure minus_one)
                else (do sys (K.munmap info sizeof_data_info); pure (pos 0))))

  pub posix_unnamed_main : ℕ → ℤ → List (List ℕ) → Prog K.State (Unit {0})
  posix_unnamed_main rounds sval argv =
      if strcmp_eq (get_or argv 2 []) (codes "monitor")
      then (do posix_unnamed_monitor rounds sval; pure tt)
      else if strcmp_eq (get_or argv 2 []) (codes "get")
      then (do posix_unnamed_get; pure tt)
      else if strcmp_eq (get_or argv 2 []) (codes "put")
      then (do posix_unnamed_put; pure tt)
      else print_help (get_or argv 0 [])

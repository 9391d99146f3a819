-- ===== src/SharedMemory/Sysv.antt =====
-- The System V half of shared_memory_example/main.c.
pub mod Recv
pub mod Send
use linux_programming_exampl.Prelude.{
  ℕ, suc, ◌+◌, ◌-◌, ◌%◌, ℤ, pos, minus_one, is_minus_one, is_zero, Bool, true, false, Option, none,
  some, List, [], ◌∷◌, if◌then◌else◌,
}
use linux_programming_exampl.Program.{
  Prog, World, Output, int, text, printf, perror, pure, ◌>>=◌, ◌>>◌, print, sys,
}
use linux_programming_exampl.CMemory.{codes, c_str, strcpy}
use linux_programming_exampl.Watch.{watch}
use linux_programming_exampl.SharedMemory.Kernel.{
  DataInfo, ShmOs, page_size, sizeof_data_info, zero_info, info_eq, store, monitoring_count,
  sizeof_message,
}

abbrev pub key_path : List ℕ
key_path = codes "/tmp"

abbrev pub proj_id : ℕ
proj_id = 123

-- `& ~(PAGE_SIZE - 1)` clears the bits below `PAGE_SIZE`.
unfoldable pub roundup : ℕ → ℕ
roundup x = (x + (page_size - 1)) - (x + (page_size - 1)) % page_size

abbrev pub sysv_line : DataInfo → Output
sysv_line d =
    printf "[Monitor - SYSV] size: %d, send Message: %s\n"
      (int d.size ∷ text (c_str d.message) ∷ [])

module _ (K : ShmOs) where
  unfoldable pub sysv_init : Prog K.State ℤ
  unfolding roundup
  sysv_init = do
    key ← sys (K.ftok key_path proj_id)
    if is_minus_one key then (do print (perror "ftok()"); pure minus_one) else (do
      shm_id ← sys (K.shmget key (roundup sizeof_data_info))
      if is_minus_one shm_id then (do print (perror "shmget()"); pure minus_one) else pure shm_id)

  pub sysv_gen_info : ℤ → Prog K.State ℤ
  sysv_gen_info shm_id = do
    info ← sys (K.shmat shm_id)
    if is_minus_one info
        then (do print (perror "shmat()"); pure (pos 0))
        else (do store K info (λ d. zero_info); pure info)

  pub sysv_finish : ℤ → Prog K.State ℤ
  sysv_finish info =
      if is_minus_one info then (do print (perror "shmdt()"); pure minus_one) else pure (pos 0)

  pub sysv_recv_message : ℕ → Prog K.State ℤ
  sysv_recv_message rounds = do
    shm_id ← sysv_init
    if is_minus_one shm_id then (do print (perror "sysv_init()"); pure minus_one) else (do
      info ← sysv_gen_info shm_id
      if is_zero info then (do print (perror "sysv_gen_info()"); pure minus_one) else (do
        watch (K.peek info) K.sleep info_eq sysv_line monitoring_count rounds zero_info 0
        sysv_finish info))

  pub sys_send_message : List ℕ → Prog K.State ℤ
  sys_send_message message = do
    shm_id ← sysv_init
    if is_minus_one shm_id then (do print (perror "sysv_init()"); pure minus_one) else (do
      info ← sysv_gen_info shm_id
      if is_zero info then (do print (perror "sysv_gen_info()"); pure minus_one) else (do
        store K info (λ d. record d { size = pos sizeof_message })
        store K info (λ d. record d { message = strcpy d.message message })
        sysv_finish info))

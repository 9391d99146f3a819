-- ===== src/SharedMemory/Posix.antt =====
-- The POSIX half of shared_memory_example/main.c.
pub mod Recv
pub mod Send
use linux_programming_exampl.Prelude.{
  ℕ, ◌+◌, ℤ, pos, minus_one, is_minus_one, Bool, true, false, Option, none, some, List, [], ◌∷◌,
  if◌then◌else◌,
}
use linux_programming_exampl.Program.{
  Prog, World, Output, int, text, printf, perror, pure, ◌>>=◌, ◌>>◌, print, sys,
}
use linux_programming_exampl.CMemory.{codes, c_str, strcpy}
use linux_programming_exampl.Watch.{read, watch}
use linux_programming_exampl.SharedMemory.Kernel.{
  DataInfo, ShmOs, sizeof_data_info, zero_info, info_eq, store, monitoring_count, sizeof_message,
}

abbrev pub shm_file_path : List ℕ
shm_file_path = codes "/posix_test"

abbrev pub prot_read : ℕ
prot_read = 1

abbrev pub prot_write : ℕ
prot_write = 2

abbrev pub posix_line : DataInfo → Output
posix_line d =
    printf "[Monitor - POSIX] size: %d, send Message: %s\n"
      (int d.size ∷ text (c_str d.message) ∷ [])

module _ (K : ShmOs) where
  unfoldable pub posix_init : Prog K.State ℤ
  posix_init = do
    fd ← sys (K.shm_open shm_file_path)
    if is_minus_one fd then (do print (perror "shm_open()"); pure minus_one) else (do
      ret ← sys (K.ftruncate fd sizeof_data_info)
      if is_minus_one ret then (do print (perror "ftruncate()"); pure minus_one) else pure fd)

  unfoldable pub posix_gen_info : ℤ → Prog K.State ℤ
  posix_gen_info fd = do
    info ← sys (K.mmap sizeof_data_info (prot_read + prot_write) fd)
    if is_minus_one info then (do print (perror "mmap()"); pure minus_one) else pure info

  pub posix_finish : ℤ → ℤ → Prog K.State ℤ
  posix_finish fd info = do sys (K.munmap info sizeof_data_info); sys (K.close fd); pure (pos 0)

  -- `rounds` bounds the rounds of the loop.
  pub posix_recv_message : ℕ → Prog K.State ℤ
  posix_recv_message rounds = do
    fd ← posix_init
    info ← posix_gen_info fd
    store K info (λ d. zero_info)
    watch (K.peek info) K.sleep info_eq posix_line monitoring_count rounds zero_info 0
    posix_finish fd info

  pub posix_send_message : List ℕ → Prog K.State ℤ
  posix_send_message message = do
    fd ← sys (K.shm_open shm_file_path)
    if is_minus_one fd then (do print (perror "shm_open()"); pure minus_one) else (do
      info ← sys (K.mmap sizeof_data_info prot_write fd)
      store K info (λ d. record d { size = pos sizeof_message })
      store K info (λ d. record d { message = strcpy d.message message })
      sys (K.munmap info sizeof_data_info)
      pure (pos 0))

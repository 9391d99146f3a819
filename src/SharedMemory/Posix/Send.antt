-- ===== src/SharedMemory/Posix/Send.antt =====
-- The sender of shared_memory_example/main.c for a POSIX object.
use linux_programming_exampl.Prelude.{
  ℕ, ◌<◌, ◌≡◌, refl, ap, ◌∙◌, ℤ, pos, is_minus_one, false, none, some, List, arith, length,
}
use linux_programming_exampl.Program.{World, moved, ◌>>=◌}
use linux_programming_exampl.CMemory.{c_str}
use linux_programming_exampl.SharedMemory.Kernel.{
  DataInfo, ShmOs, Shares, page_size, sizeof_data_info, sizeof_message,
}
use linux_programming_exampl.SharedMemory.Monitor.{stores_ok}
use linux_programming_exampl.SharedMemory.Posix.{posix_send_message, shm_file_path, prot_write}

module _ (K : ShmOs) (S : Shares K) where
  -- A message shorter than the page, stored in an object of the right size that can be opened and
  -- mapped, is the string in the object when `posix_send_message` returns, which it does with 0. The
  -- size there is 8, the size of a pointer, whatever the message is.
  pub posix_send_message_stores :
      (m : List ℕ) (w : World K.State)
      → length (c_str m) < page_size
      → S.Sized w.os
      → is_minus_one (K.shm_open shm_file_path w.os).0 ≡ false
      → is_minus_one
          (K.mmap sizeof_data_info prot_write
            (K.shm_open shm_file_path w.os).0
            (K.shm_open shm_file_path w.os).1).0
        ≡ false
      → (w' : World K.State) × (posix_send_message K m w ≡ some (pos 0, w'))
        × (w'.out ≡ w.out)
        × ((S.content w'.os).size ≡ pos sizeof_message)
        × (c_str (S.content w'.os).message ≡ c_str m)
  unfolding posix_send_message
  posix_send_message_stores m w short sized open_ok map_ok =
      let fd : ℤ = (K.shm_open shm_file_path w.os).0 in
      let s : K.State = (K.shm_open shm_file_path w.os).1 in
      let p : ℤ = (K.mmap sizeof_data_info prot_write fd s).0 in
      let s' : K.State = (K.mmap sizeof_data_info prot_write fd s).1 in
      let at : S.At p s' =
        (S.mapped prot_write fd s).1 ((S.opened shm_file_path w.os).1 sized) map_ok in
      let (s1, s2, run1, run2, size, text, _, _) = stores_ok K S p m (moved w s') at short in
      (
        moved w (K.munmap p sizeof_data_info s2).1,
        rw open_ok (rw (run1, ◌>>=◌) (rw (run2, ◌>>=◌) refl)),
        refl,
        ap (λ (d : DataInfo). d.size) (S.unmapped p s2) ∙ size,
        ap (λ (d : DataInfo). c_str d.message) (S.unmapped p s2) ∙ text,
      )

  -- Before any monitor has run, when the object is empty, `posix_send_message` faults: it creates
  -- the object, does not give it a size, and writes behind its end.
  pub posix_send_message_faults :
      (m : List ℕ) (w : World K.State)
      → S.Empty w.os
      → is_minus_one (K.shm_open shm_file_path w.os).0 ≡ false
      → posix_send_message K m w ≡ none
  unfolding posix_send_message
  posix_send_message_faults m w empty open_ok =
      let fd : ℤ = (K.shm_open shm_file_path w.os).0 in
      let s : K.State = (K.shm_open shm_file_path w.os).1 in
      let p : ℤ = (K.mmap sizeof_data_info prot_write fd s).0 in
      let s' : K.State = (K.mmap sizeof_data_info prot_write fd s).1 in
      let fault : K.peek p s' ≡ none =
        S.peek_short p s' ((S.mapped prot_write fd s).0 ((S.opened shm_file_path w.os).0 empty)) in
      ground (arith, open_ok, fault)

-- ===== src/SharedMemory/Posix/Recv.antt =====
-- The monitor of shared_memory_example/main.c for a POSIX object.
use linux_programming_exampl.Prelude.{
  ℕ, ◌+◌, ◌≤◌, ◌≡◌, refl, ℤ, pos, minus_one, is_minus_one, false, sym, ap, ◌∙◌, none, some, ◌++◌,
  map, arith, length, take, length-replicate,
}
use linux_programming_exampl.Program.{World, moved, ◌>>=◌}
use linux_programming_exampl.SharedMemory.Kernel.{
  ShmOs, Shares, page_size, sizeof_data_info, zero_info, monitoring_count,
}
use linux_programming_exampl.SharedMemory.Monitor.{arrivals, monitor_total, store_ok}
use linux_programming_exampl.SharedMemory.Posix.{
  posix_init, posix_gen_info, posix_finish, posix_recv_message, posix_line, prot_read, prot_write,
  shm_file_path,
}

module _ (K : ShmOs) (S : Shares K) where
  -- When `shm_open`, `ftruncate` and `mmap` succeed, and five changes come within the rounds from the
  -- state on in which `posix_recv_message` has cleared the object that it mapped, it prints the first
  -- five changes from this state on, each once and in order, unmaps the object, closes its descriptor
  -- and returns 0.
  pub posix_recv_message_total :
      (rounds : ℕ) (fd p : ℤ) (w : World K.State) (s1 s2 s3 s : K.State)
      → K.shm_open shm_file_path w.os ≡ (fd, s1)
      → is_minus_one fd ≡ false
      → K.ftruncate fd sizeof_data_info s1 ≡ (pos 0, s2)
      → K.mmap sizeof_data_info (prot_read + prot_write) fd s2 ≡ (p, s3)
      → is_minus_one p ≡ false
      → K.poke p zero_info s3 ≡ some s
      → monitoring_count ≤ length (arrivals K S rounds s)
      → (w' : World K.State) × (posix_recv_message K rounds w ≡ some (pos 0, w'))
        × (S.content s ≡ zero_info)
        × (w'.out ≡ w.out ++ map posix_line (take monitoring_count (arrivals K S rounds s)))
        × ((s' : K.State) × S.At p s' × (w'.os ≡ (K.close fd (K.munmap p sizeof_data_info s').1).1))
  unfolding posix_recv_message posix_finish
  posix_recv_message_total rounds fd p w s1 s2 s3 s open_ok fd_ok cut map_ok p_ok clear enough =
      let init : posix_init K w ≡ some (fd, moved w s2) =
        unfold posix_init in ground (arith, open_ok, fd_ok, cut) in
      let gen : posix_gen_info K fd (moved w s2) ≡ some (p, moved w s3) =
        unfold posix_gen_info in ground (arith, map_ok, p_ok) in
      let sized : S.Sized s2 = rw cut at (S.truncated fd s1 (rw cut refl)) in
      let at : S.At p s3 =
        rw map_ok at ((S.mapped (prot_read + prot_write) fd s2).1 sized (rw map_ok p_ok)) in
      let (s', cleared, e, at', poked) =
        store_ok K S p (λ d. zero_info) (moved w s3) at (length-replicate {A = ℕ} page_size 0) in
      let same : s' ≡ s = ground (arith, poked, clear) in
      let at_s : S.At p s = rw same at at' in
      let (w3, run, shown, at3) = monitor_total K S posix_line rounds p (moved w s) at_s enough in
      let s4 : K.State = (K.munmap p sizeof_data_info w3.os).1 in
      (
        moved w3 (K.close fd s4).1,
        rw (init, ◌>>=◌) (rw (gen, ◌>>=◌) (rw (cleared, ◌>>=◌) (rw (same, run, ◌>>=◌) refl))),
        ap S.content (sym same) ∙ e,
        shown,
        (w3.os, at3, refl),
      )

  -- When `mmap` fails, `posix_recv_message` does not return an error: it faults.
  pub posix_recv_message_faults :
      (rounds : ℕ) (fd : ℤ) (w w1 : World K.State)
      → posix_init K w ≡ some (fd, w1)
      → (K.mmap sizeof_data_info (prot_read + prot_write) fd w1.os).0 ≡ minus_one
      → posix_recv_message K rounds w ≡ none
  unfolding posix_recv_message posix_gen_info
  posix_recv_message_faults rounds fd w w1 init failed =
      let s : K.State = (K.mmap sizeof_data_info (prot_read + prot_write) fd w1.os).1 in
      rw (init, ◌>>=◌) (ground (arith, failed, S.peek_failed s))

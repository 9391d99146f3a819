-- ===== src/FileMap/File/Send.antt =====
-- The sender of mmap_example_2/main.c: what it leaves in the object.
use linux_programming_exampl.Prelude.{
  ℕ, ◌≡◌, refl, ap, ◌∙◌, ℤ, pos, is_minus_one, false, some, List, arith, length, take,
}
use linux_programming_exampl.Program.{World, moved}
use linux_programming_exampl.CMemory.{c_str, strncpy}
use linux_programming_exampl.CMemory.Laws.{c_str-strncpy, length-strncpy}
use linux_programming_exampl.FileMap.Kernel.{FileOs, Maps, Info, max_buf_len, sizeof_info}
use linux_programming_exampl.FileMap.File.{do_send_data, sizeof_pointer}
use linux_programming_exampl.FileMap.File.Monitor.{store_ok}

module _ (K : FileOs) (M : Maps K) where
  -- When the file can be opened and mapped, `do_send_data` returns 0 without printing and leaves in
  -- the object the first 4096 bytes of the message, and the size 8, whatever the message is.
  pub do_send_data_stores :
      (file_path message : List ℕ) (w : World K.State) (fd p : ℤ) (s1 s2 : K.State)
      → K.open_file file_path false w.os ≡ (fd, s1)
      → is_minus_one fd ≡ false
      → K.mmap sizeof_info fd s1 ≡ (p, s2)
      → is_minus_one p ≡ false
      → M.At p s2
      → (w' : World K.State) × (do_send_data K file_path message w ≡ some (pos 0, w'))
        × (w'.out ≡ w.out)
        × ((M.content w'.os).number ≡ pos sizeof_pointer)
        × (c_str (M.content w'.os).message ≡ take max_buf_len (c_str message))
  unfolding do_send_data
  do_send_data_stores file_path message w fd p s1 s2 opened fd_ok mapped p_ok at =
      let (s3, run3, e3, at3) =
        store_ok K M p (λ d. record d { number = pos sizeof_pointer }) (moved w s2) at
          (M.message_length p s2 at) in
      let len : length (M.content s3).message ≡ max_buf_len = M.message_length p s3 at3 in
      let (s4, run4, e4, at4) =
        store_ok K M p (λ d. record d { message = strncpy d.message message max_buf_len })
          (moved w s3) at3
          (length-strncpy (M.content s3).message message max_buf_len (omega arith) ∙ len) in
      let s5 : K.State = (K.munmap p sizeof_info s4).1 in
      let kept : M.content (K.close fd s5).1 ≡ M.content s4 =
        (M.closed fd s5).0 ∙ M.unmapped p s4 in
      (
        moved w (K.close fd s5).1,
        ground (arith, opened, fd_ok, mapped, p_ok, run3, run4),
        refl,
        ap (λ (d : Info). d.number) (kept ∙ e4) ∙ ap (λ (d : Info). d.number) e3,
        ap (λ (d : Info). c_str d.message) (kept ∙ e4)
            ∙ c_str-strncpy (M.content s3).message message max_buf_len (omega arith),
      )

-- ===== src/FileMap/Anon/Child.antt =====
-- A child in the anonymous mode of mmap_example_2/main.c.
use linux_programming_exampl.Prelude.{
  ℕ, suc, ◌+◌, ◌≡◌, ap, ◌∙◌, ℤ, pos, some, List, [], ◌∷◌, ◌++◌, append_assoc, arith, length, drop,
}
use linux_programming_exampl.Program.{World, moved}
use linux_programming_exampl.CMemory.{c_str, snprintf}
use linux_programming_exampl.CMemory.Laws.{c_str-append_zero, overwrite_zero, length-overwrite}
use linux_programming_exampl.FileMap.Kernel.{AnonOs, IsFamily, Info, max_buf_len, sizeof_info}
use linux_programming_exampl.FileMap.Anon.{anon_send_data, fork_loop, anonymous_test}

-- The text fits into the array.
c_str-snprintf :
    (dst : List ℕ) (i : ℕ) → c_str (snprintf dst max_buf_len (anonymous_test i)) ≡ anonymous_test i
unfolding snprintf
c_str-snprintf dst i =
    let bytes : List ℕ = anonymous_test i ++ (0 ∷ []) in
    ap c_str (overwrite_zero dst bytes)
    ∙ ap c_str (append_assoc (anonymous_test i) (0 ∷ []) (drop (length bytes) dst))
    ∙ c_str-append_zero (anonymous_test i) (drop (length bytes) dst) (ground arith)

length-snprintf :
    (dst : List ℕ) (i : ℕ)
    → length dst ≡ max_buf_len
    → length (snprintf dst max_buf_len (anonymous_test i)) ≡ max_buf_len
unfolding snprintf
length-snprintf dst i h = length-overwrite dst 0 (anonymous_test i ++ (0 ∷ [])) (omega arith) ∙ h

module _ (K : AnonOs) (F : IsFamily K) where
  -- The child that `fork` makes in round i of the loop writes its process and its text to the
  -- object, and returns 0 without making children or printing.
  pub fork_loop_child :
      (rounds left i : ℕ) (p : ℤ) (w : World K.State) (s : K.State)
      → F.At p w.os
      → K.fork w.os ≡ (pos 0, s)
      → (s1 : K.State) × (fork_loop K rounds p (suc left) i w
          ≡ some (pos 0, moved w (K.munmap p sizeof_info s1).1))
        × ((F.content s1).number ≡ K.getpid (K.sleep (i + 2) s))
        × (c_str (F.content s1).message ≡ anonymous_test i)
  unfolding fork_loop anon_send_data
  fork_loop_child rounds left i p w s at forked =
      let s1 : K.State = K.sleep (i + 2) s in
      let at1 : F.At p s1 = F.sleep_at p (i + 2) s (F.fork_child p w.os s forked at) in
      let d2 : Info = record (F.content s1) { number = K.getpid s1 } in
      let (s2, run2, e2, _, at2) = F.poke_at p d2 s1 at1 (F.message_length p s1 at1) in
      let text : List ℕ = snprintf (F.content s2).message max_buf_len (anonymous_test i) in
      let d3 : Info = record (F.content s2) { message = text } in
      let (s3, run3, e3, _, at3) =
        F.poke_at p d3 s2 at2
          (length-snprintf (F.content s2).message i (F.message_length p s2 at2)) in
      (
        s3,
        ground (arith, forked, F.peek_at p s1 at1, run2, F.peek_at p s2 at2, run3),
        ap (λ (d : Info). d.number) e3 ∙ ap (λ (d : Info). d.number) e2,
        ap (λ (d : Info). c_str d.message) e3 ∙ c_str-snprintf (F.content s2).message i,
      )

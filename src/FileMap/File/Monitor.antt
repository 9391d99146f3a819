-- ===== src/FileMap/File/Monitor.antt =====
-- The monitor of mmap_example_2/main.c: what it prints.
use linux_programming_exampl.Prelude.{
  ℕ, zero, suc, ◌≡◌, refl, sym, ap, ◌∙◌, inl, inr, ℤ, pos, is_minus_one, true, false, some, List,
  [], ◌∷◌, ◌++◌, map, append-nil, append_assoc, arith, Bool-cases, length, replicate,
}
use linux_programming_exampl.Program.{running, World, Output, moved, said}
use linux_programming_exampl.CMemory.{memset}
use linux_programming_exampl.CMemory.Laws.{length-memset, memset_all}
use linux_programming_exampl.Watch.{changes, snapshots}
use linux_programming_exampl.FileMap.Kernel.{FileOs, Maps, Info, max_buf_len, sizeof_info, info_eq}
use linux_programming_exampl.FileMap.File.{store, said_line, monitoring_loop, do_monitoring}

abbrev info : ℤ → List ℕ → Info
info n m = record { number = n; message = m }

module _ (K : FileOs) (M : Maps K) where
  pub store_ok :
      (p : ℤ) (f : Info → Info) (w : World K.State)
      → M.At p w.os
      → length (f (M.content w.os)).message ≡ max_buf_len
      → (s : K.State) × (store K p f w ≡ some (tt, moved w s))
        × (M.content s ≡ f (M.content w.os))
        × M.At p s
  store_ok p f w at len =
      let (s, run, e, at') = M.poke_at p (f (M.content w.os)) w.os at len in
      (s, ground (arith, M.peek_at p w.os at), e, at')

  -- The changes that the first `rounds` looks show.
  abbrev pub looks : ℕ → Info → K.State → List Info
  looks rounds tmp_buf s = changes info_eq tmp_buf (snapshots M.content K.usleep rounds s)

  loop_same :
      (p : ℤ) (rounds : ℕ) (tmp_buf : Info) (w : World K.State)
      → M.At p w.os
      → info_eq tmp_buf (M.content w.os) ≡ true
      → monitoring_loop K p (suc rounds) tmp_buf w
        ≡ monitoring_loop K p rounds tmp_buf (moved w (K.usleep w.os))
  unfolding monitoring_loop
  loop_same p rounds tmp_buf w at e = ground (arith, M.peek_at p w.os at)

  loop_other :
      (p : ℤ) (rounds : ℕ) (tmp_buf : Info) (w : World K.State)
      → M.At p w.os
      → info_eq tmp_buf (M.content w.os) ≡ false
      → monitoring_loop K p (suc rounds) tmp_buf w
        ≡ monitoring_loop K p rounds
            (M.content w.os)
            (moved (said w (said_line (M.content w.os))) (K.usleep w.os))
  unfolding monitoring_loop
  loop_other p rounds tmp_buf w at e = ground (arith, M.peek_at p w.os at)

  loop_lines :
      (p : ℤ) (rounds : ℕ) (tmp_buf : Info) (w : World K.State)
      → M.At p w.os
      → (w' : World K.State) × (monitoring_loop K p rounds tmp_buf w ≡ some (tt, w'))
        × (w'.out ≡ w.out ++ map said_line (looks rounds tmp_buf w.os))
  unfolding monitoring_loop changes snapshots
  loop_lines p zero tmp_buf w at = (w, refl, sym (append-nil w.out))
  loop_lines p (suc rounds) tmp_buf w at =
      let s : K.State = K.usleep w.os in
      let at' : M.At p s = M.usleep_at p w.os at in
      elim (Bool-cases (info_eq tmp_buf (M.content w.os))) [
        | inl same ↦
            let (w', run, shown) = loop_lines p rounds tmp_buf (moved w s) at' in
            (w', loop_same p rounds tmp_buf w at same ∙ run, rw same shown)
        | inr other ↦
            let line : Output = said_line (M.content w.os) in
            let (w', run, shown) =
              loop_lines p rounds (M.content w.os) (moved (said w line) s) at' in
            let shape : looks (suc rounds) tmp_buf w.os
                ≡ M.content w.os ∷ looks rounds (M.content w.os) s =
              rw other in
            (
              w',
              loop_other p rounds tmp_buf w at other ∙ run,
              shown
                  ∙ append_assoc w.out (line ∷ []) (map said_line (looks rounds (M.content w.os) s))
                  ∙ ap (λ (l : List Info). w.out ++ map said_line l) (sym shape),
            )
      ]

  -- When the file can be opened, sized and mapped, `do_monitoring` makes the object empty, prints
  -- that, and then, however long it is followed, it is still in its loop, and has printed each
  -- change that it saw once and in order.
  pub do_monitoring_lines :
      (file_path : List ℕ) (rounds : ℕ) (w : World K.State) (fd p : ℤ) (s1 s2 s3 : K.State)
      → K.open_file file_path true w.os ≡ (fd, s1)
      → is_minus_one fd ≡ false
      → K.ftruncate fd sizeof_info s1 ≡ (pos 0, s2)
      → K.mmap sizeof_info fd s2 ≡ (p, s3)
      → is_minus_one p ≡ false
      → M.At p s3
      → (s : K.State) × (w' : World K.State) × (do_monitoring K file_path rounds w
          ≡ some (running, w'))
        × (M.content s ≡ info (pos 0) (replicate max_buf_len 0))
        × (w'.out
            ≡ w.out ++ (said_line (M.content s) ∷ map said_line (looks rounds (M.content s) s)))
  unfolding do_monitoring
  do_monitoring_lines file_path rounds w fd p s1 s2 s3 opened fd_ok sized mapped p_ok at =
      let len : length (M.content s3).message ≡ max_buf_len = M.message_length p s3 at in
      let (s4, run4, e4, at4) = store_ok p (λ d. record d { number = pos 0 }) (moved w s3) at len in
      let len4 : length (M.content s4).message ≡ max_buf_len = M.message_length p s4 at4 in
      let (s5, run5, e5, at5) =
        store_ok p (λ d. record d { message = memset d.message 0 max_buf_len }) (moved w s4) at4
          (length-memset (M.content s4).message 0 max_buf_len (omega arith) ∙ len4) in
      let s : K.State = (K.close fd s5).1 in
      let (same, keeps) = M.closed fd s5 in
      let at6 : M.At p s = keeps p at5 in
      let line : Output = said_line (M.content s) in
      let (w', run, shown) = loop_lines p rounds (M.content s) (said (moved w s) line) at6 in
      (
        s,
        w',
        ground (arith, opened, fd_ok, sized, mapped, p_ok, run4, run5, M.peek_at p s at6, run),
        same
            ∙ e5
            ∙ ap (λ (n : ℤ). info n (memset (M.content s4).message 0 max_buf_len))
                (ap (λ (d : Info). d.number) e4)
            ∙ ap (info (pos 0)) (memset_all (M.content s4).message 0 max_buf_len (sym len4)),
        shown ∙ append_assoc w.out (line ∷ []) (map said_line (looks rounds (M.content s) s)),
      )

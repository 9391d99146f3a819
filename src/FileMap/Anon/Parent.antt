-- ===== src/FileMap/Anon/Parent.antt =====
-- The parent in the anonymous mode of mmap_example_2/main.c.
use linux_programming_exampl.Prelude.{
  ℕ, zero, suc, ◌+◌, ◌≤◌, ◌≡◌, refl, sym, ap, ◌∙◌, ℤ, pos, is_minus_one, false, some, List, [], ◌∷◌,
  ◌++◌, map, append-nil, append_assoc, arith, length, take, length-replicate,
}
use linux_programming_exampl.Program.{World, Output, printf, moved, said}
use linux_programming_exampl.Watch.{watch_total, changes, snapshots}
use linux_programming_exampl.FileMap.Kernel.{
  AnonOs, IsFamily, Info, max_buf_len, sizeof_info, info_eq,
}
use linux_programming_exampl.FileMap.Anon.{
  mmap_init, anon_monitor, wait_loop, parent_end, fork_loop, do_anon, zero_info, anon_line,
  terminate_line, fork_num,
}

module _ (K : AnonOs) (F : IsFamily K) where
  -- The changes that `rounds` looks of the parent show, from a state on.
  abbrev pub looks : ℕ → K.State → List Info
  looks rounds s = changes info_eq zero_info (snapshots F.content K.usleep rounds s)

  wait_loop_total :
      (n : ℕ) (w : World K.State)
      → F.children w.os ≡ n
      → (pids : List ℕ) × (w' : World K.State) × (wait_loop K n w ≡ some (pos 0, w'))
        × (length pids ≡ n)
        × (F.children w'.os ≡ 0)
        × (w'.out ≡ w.out ++ map terminate_line pids)
  unfolding wait_loop
  wait_loop_total zero w e = ([], w, refl, refl, e, sym (append-nil w.out))
  wait_loop_total (suc n) w e =
      let (pid, s, waited, left) = F.wait_child n w.os e in
      let (pids, w', run, len, none_left, shown) =
        wait_loop_total n (said (moved w s) (terminate_line pid)) left in
      (
        pid ∷ pids,
        w',
        ground (arith, waited, run),
        ap suc len,
        none_left,
        shown ∙ append_assoc w.out (terminate_line pid ∷ []) (map terminate_line pids),
      )

  -- The monitor leaves the children to be waited for.
  anon_monitor_total :
      (rounds n : ℕ) (p : ℤ) (w : World K.State)
      → F.At p w.os
      → F.children w.os ≡ n
      → fork_num ≤ length (looks rounds w.os)
      → (w' : World K.State) × (anon_monitor K rounds p w ≡ some (pos 0, w'))
        × (F.children w'.os ≡ n)
        × (w'.out ≡ w.out ++ map anon_line (take fork_num (looks rounds w.os)))
  unfolding anon_monitor
  anon_monitor_total rounds n p w at e enough =
      let (w', run, shown, (at', e')) =
        watch_total (K.peek p) K.usleep info_eq anon_line fork_num F.content
          (λ (s : K.State). F.At p s × (F.children s ≡ n))
          (λ s good. ((F.usleep_keeps p s good.0).0, (F.usleep_keeps p s good.0).1 ∙ good.1))
          (λ s good. F.peek_at p s good.0) rounds zero_info 0 4 w (at, e) refl enough in
      (
        moved w' (K.munmap p sizeof_info w'.os).1,
        ground (arith, run),
        F.unmap_children p w'.os ∙ e',
        shown,
      )

  -- Behind `left` calls of `fork`.
  abbrev pub forked : ℕ → K.State → K.State
  forked zero s = s
  forked (suc left) s = forked left (K.fork s).1

  -- Each of them succeeds, in the parent.
  abbrev pub AllFork : ℕ → K.State → Type 0
  AllFork zero s = Unit
  AllFork (suc left) s = ((pid : ℕ) × ((K.fork s).0 ≡ pos (suc pid))) × AllFork left (K.fork s).1

  fork_loop_parent :
      (rounds left i : ℕ) (p : ℤ) (w : World K.State)
      → F.At p w.os
      → AllFork left w.os
      → (fork_loop K rounds p left i w ≡ parent_end K rounds p (moved w (forked left w.os)))
        × F.At p (forked left w.os)
        × (F.children (forked left w.os) ≡ F.children w.os + left)
  unfolding fork_loop
  fork_loop_parent rounds zero i p w at all = (refl, at, omega arith)
  fork_loop_parent rounds (suc left) i p w at ((pid, one), all) =
      let s : K.State = (K.fork w.os).1 in
      let pair : K.fork w.os ≡ (pos (suc pid), s) = ap (λ (x : ℤ). (x, s)) one in
      let (at', more) = F.fork_parent p pid w.os s pair at in
      let (run, at'', count) = fork_loop_parent rounds left (i + 1) p (moved w s) at' all in
      (ground (arith, pair, run), at'', omega (arith, count, more))

  -- When `mmap` and the five calls of `fork` succeed, and five changes come within the rounds from the
  -- state on in which the parent has cleared the object and made its children, the parent prints the
  -- first five changes from this state on, each once and in order, waits for its five children, and
  -- returns 0 with no child left.
  pub do_anon_reaps :
      (rounds : ℕ) (p : ℤ) (w : World K.State) (s1 s2 : K.State)
      → F.children w.os ≡ 0
      → K.mmap_anonymous sizeof_info w.os ≡ (p, s1)
      → is_minus_one p ≡ false
      → K.poke p zero_info s1 ≡ some s2
      → AllFork fork_num s2
      → fork_num ≤ length (looks rounds (forked fork_num s2))
      → (pids : List ℕ) × (w' : World K.State) × (do_anon K rounds w ≡ some (pos 0, w'))
        × (length pids ≡ fork_num)
        × (F.children w'.os ≡ 0)
        × (w'.out
            ≡ (((w.out ++ (printf "* START ANONYMOUS MODE \n" [] ∷ []))
                  ++ map anon_line (take fork_num (looks rounds (forked fork_num s2))))
                ++ (printf "* END ANONYMOUS MODE\n" [] ∷ []))
              ++ map terminate_line pids)
  unfolding do_anon mmap_init parent_end
  do_anon_reaps rounds p w s1 s2 alone map_ok p_ok clear all enough =
      let w0 : World K.State = said w (printf "* START ANONYMOUS MODE \n" []) in
      let (at0, same0) = F.mapped w.os (rw map_ok p_ok) in
      let at : F.At p s1 = rw map_ok at at0 in
      let same : F.children s1 ≡ F.children w.os = rw map_ok at same0 in
      let (s', poked, _, count', at') =
        F.poke_at p zero_info s1 at (length-replicate {A = ℕ} max_buf_len 0) in
      let eq : s' ≡ s2 = ground (arith, poked, clear) in
      let at2 : F.At p s2 = rw eq at at' in
      let count2 : F.children s2 ≡ F.children s1 = rw eq at count' in
      let (made, at3, count3) = fork_loop_parent rounds fork_num 0 p (moved w0 s2) at2 all in
      let (w4, seen, count4, shown) =
        anon_monitor_total rounds fork_num p (moved w0 (forked fork_num s2)) at3
          (omega (arith, count3, count2, same, alone)) enough in
      let (pids, w', waited, len, none_left, shown') =
        wait_loop_total fork_num (said w4 (printf "* END ANONYMOUS MODE\n" [])) count4 in
      (
        pids,
        w',
        ground (arith, map_ok, p_ok, F.peek_at p s1 at, clear, made, seen, waited),
        len,
        none_left,
        shown'
            ∙ ap
                (λ (l : List Output).
                  (l ++ (printf "* END ANONYMOUS MODE\n" [] ∷ [])) ++ map terminate_line pids)
                shown,
      )

-- ===== src/SharedMemory/Monitor.antt =====
-- The loop of the monitors of shared_memory_example/main.c, and the stores of both programs.
use linux_programming_exampl.Prelude.{
  ℕ, ◌≤◌, ◌<◌, ◌≡◌, refl, ap, ◌∙◌, ℤ, pos, none, some, List, ◌++◌, map, arith, length, take,
}
use linux_programming_exampl.Program.{World, Output, moved}
use linux_programming_exampl.CMemory.{c_str, strcpy}
use linux_programming_exampl.CMemory.Laws.{c_str-strcpy, length-strcpy}
use linux_programming_exampl.Watch.{watch, watch_total, changes, snapshots}
use linux_programming_exampl.SharedMemory.Kernel.{
  DataInfo, ShmOs, Shares, page_size, zero_info, info_eq, store, monitoring_count, sizeof_message,
}

module _ (K : ShmOs) (S : Shares K) where
  -- The values that differ from the one before them, in the `rounds` looks that a monitor takes from
  -- a state on; the first of them differs from zero.
  abbrev pub arrivals : ℕ → K.State → List DataInfo
  arrivals rounds s = changes info_eq zero_info (snapshots S.content K.sleep rounds s)

  -- The loop of a monitor.
  pub monitor_total :
      (show : DataInfo → Output) (rounds : ℕ) (p : ℤ) (w : World K.State)
      → S.At p w.os
      → monitoring_count ≤ length (arrivals rounds w.os)
      → (w' : World K.State) × (watch
            (K.peek p)
            K.sleep
            info_eq
            show
            monitoring_count
            rounds
            zero_info
            0
            w
          ≡ some (tt, w'))
        × (w'.out ≡ w.out ++ map show (take monitoring_count (arrivals rounds w.os)))
        × S.At p w'.os
  monitor_total show rounds p w at enough =
      let (w', run, shown, at') =
        watch_total (K.peek p) K.sleep info_eq show monitoring_count S.content (S.At p)
          (S.sleep_at p) (S.peek_at p) rounds zero_info 0 4 w at refl enough in
      (w', run, shown, at')

  pub store_ok :
      (p : ℤ) (f : DataInfo → DataInfo) (w : World K.State)
      → S.At p w.os
      → length (f (S.content w.os)).message ≡ page_size
      → (s : K.State) × (store K p f w ≡ some (tt, moved w s))
        × (S.content s ≡ f (S.content w.os))
        × S.At p s
        × (K.poke p (f (S.content w.os)) w.os ≡ some s)
  store_ok p f w at len =
      let (s, run, e, at') = S.poke_at p (f (S.content w.os)) w.os at len in
      (s, ground (arith, S.peek_at p w.os at), e, at', run)

  pub store_faults :
      (p : ℤ) (f : DataInfo → DataInfo) (w : World K.State)
      → K.peek p w.os ≡ none
      → store K p f w ≡ none
  store_faults p f w e = ground arith

  -- The two stores of a sender.
  pub stores_ok :
      (p : ℤ) (m : List ℕ) (w : World K.State)
      → S.At p w.os
      → length (c_str m) < page_size
      → (s1 : K.State) × (s2 : K.State) × (store K p (λ d. record d { size = pos sizeof_message }) w
          ≡ some (tt, moved w s1))
        × (store K p (λ d. record d { message = strcpy d.message m }) (moved w s1)
            ≡ some (tt, moved w s2))
        × ((S.content s2).size ≡ pos sizeof_message)
        × (c_str (S.content s2).message ≡ c_str m)
        × S.At p s2
        × ((d1 d2 : DataInfo) × (K.poke p d1 w.os ≡ some s1) × (K.poke p d2 s1 ≡ some s2))
  stores_ok p m w at short =
      let len : length (S.content w.os).message ≡ page_size = S.message_length p w.os at in
      let (s1, run1, e1, at1, poked1) =
        store_ok p (λ d. record d { size = pos sizeof_message }) w at len in
      let len1 : length (S.content s1).message ≡ page_size = S.message_length p s1 at1 in
      let (s2, run2, e2, at2, poked2) =
        store_ok p (λ d. record d { message = strcpy d.message m }) (moved w s1) at1
          (length-strcpy (S.content s1).message m (omega arith) ∙ len1) in
      (
        s1,
        s2,
        run1,
        run2,
        ap (λ (d : DataInfo). d.size) e2 ∙ ap (λ (d : DataInfo). d.size) e1,
        ap (λ (d : DataInfo). c_str d.message) e2 ∙ c_str-strcpy (S.content s1).message m,
        at2,
        (_, _, poked1, poked2),
      )

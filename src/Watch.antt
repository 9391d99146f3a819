-- ===== src/Watch.antt =====
-- The loop by which the monitors of shared_memory_example/main.c and mmap_example_2/main.c wait for
-- changes of an object in shared memory: `while(1){ if(memcmp(...)){ ... if(n == limit) break; } sleep }`.
use linux_programming_exampl.Prelude.{
  ℕ, zero, suc, ◌+◌, ◌-◌, ◌≤◌, ◌<◌, ◌≡◌, ◌≢◌, refl, sym, ap, ◌∙◌, inl, inr, Bool, true, false,
  Option, none, some, List, [], ◌∷◌, ◌++◌, map, append_assoc, arith, ◌==◌, if◌then◌else◌,
  Bool-cases, length, take,
}
use linux_programming_exampl.Program.{
  Prog, World, Output, pure, stuck, ◌>>=◌, ◌>>◌, print, said, moved,
}

-- Reads the shared object; `none` is a fault.
abbrev pub read : {S D : Type 0} → (S → Option D) → Prog S D
read f w = elim (f w.os) [ none ↦ none | some d ↦ some (d, w) ]

-- Sleeps while the other processes work.
abbrev pub nap : {S : Type 0} → (S → S) → Prog S (Unit {0})
nap sleep w = some (tt, moved w (sleep w.os))

-- The specification: the values that differ from the one before them.
unfoldable pub changes : {D : Type 0} → (D → D → Bool) → D → List D → List D
changes same last [] = []
changes same last (x ∷ xs) =
    let rest = changes same x xs in if same last x then changes same last xs else x ∷ rest

-- What the monitor can see in its next `k` rounds.
unfoldable pub snapshots : {S D : Type 0} → (S → D) → (S → S) → ℕ → S → List D
snapshots content sleep zero s = []
snapshots content sleep (suc k) s = content s ∷ snapshots content sleep k (sleep s)

module _ {S D : Type 0} (peek : S → Option D) (sleep : S → S) (same : D → D → Bool)
    (show : D → Output) (limit : ℕ) where
  -- `n` changes have been seen, and `last` is the local copy.
  unfoldable pub watch : ℕ → D → ℕ → Prog S (Unit {0})
  watch zero last n = stuck
  watch (suc rounds) last n = do
    seen ← read peek
    elim (same last seen) [
      | true ↦ do nap sleep; watch rounds last n
      | false ↦ do
        shown ← read peek
        print (show shown)
        copied ← read peek
        elim (n + 1 == limit) [ true ↦ pure tt | false ↦ do nap sleep; watch rounds copied (n + 1) ]
    ]

  -- `Good`: the object is mapped, and stays so while the others work.
  module _ (content : S → D) (Good : S → Type 0) (stays : (s : S) → Good s → Good (sleep s))
      (mapped : (s : S) → Good s → peek s ≡ some (content s)) where
    abbrev seen : ℕ → D → S → List D
    seen rounds last s = changes same last (snapshots content sleep rounds s)

    watch_same :
        (rounds : ℕ) (last : D) (n : ℕ) (w : World S)
        → Good w.os
        → same last (content w.os) ≡ true
        → watch (suc rounds) last n w ≡ watch rounds last n (moved w (sleep w.os))
    unfolding watch
    watch_same rounds last n w good e = ground (arith, mapped w.os good)

    watch_last :
        (rounds : ℕ) (last : D) (n : ℕ) (w : World S)
        → Good w.os
        → same last (content w.os) ≡ false
        → n + 1 ≡ limit
        → watch (suc rounds) last n w ≡ some (tt, said w (show (content w.os)))
    unfolding watch
    watch_last rounds last n w good e f = ground (arith, mapped w.os good)

    watch_more :
        (rounds : ℕ) (last : D) (n : ℕ) (w : World S)
        → Good w.os
        → same last (content w.os) ≡ false
        → n + 1 ≢ limit
        → watch (suc rounds) last n w
          ≡ watch rounds (content w.os) (n + 1) (moved (said w (show (content w.os))) (sleep w.os))
    unfolding watch
    watch_more rounds last n w good e f = ground (arith, mapped w.os good)

    -- With enough changes in sight the loop ends. It has printed each of them once, in order, up to
    -- the one with which their number reaches the limit.
    pub watch_total :
        (rounds : ℕ) (last : D) (n left : ℕ) (w : World S)
        → Good w.os
        → n + suc left ≡ limit
        → suc left ≤ length (seen rounds last w.os)
        → (w' : World S) × (watch rounds last n w ≡ some (tt, w'))
          × (w'.out ≡ w.out ++ map show (take (suc left) (seen rounds last w.os)))
          × Good w'.os
    unfolding changes snapshots
    watch_total zero last n left w good e enough = absurd (omega arith)
    watch_total (suc rounds) last n zero w good e enough =
        elim (Bool-cases (same last (content w.os))) [
          | inl unchanged ↦
              let (w', run, shown, end) =
                watch_total rounds last n zero (moved w (sleep w.os)) (stays w.os good) e
                  (rw unchanged at enough) in
              (w', watch_same rounds last n w good unchanged ∙ run, rw unchanged shown, end)
          | inr changed ↦ (
            said w (show (content w.os)),
            watch_last rounds last n w good changed (omega arith),
            rw changed,
            good,
          )
        ]
    watch_total (suc rounds) last n (suc left) w good e enough =
        elim (Bool-cases (same last (content w.os))) [
          | inl unchanged ↦
              let (w', run, shown, end) =
                watch_total rounds last n (suc left) (moved w (sleep w.os)) (stays w.os good) e
                  (rw unchanged at enough) in
              (w', watch_same rounds last n w good unchanged ∙ run, rw unchanged shown, end)
          | inr changed ↦
              let w1 : World S = moved (said w (show (content w.os))) (sleep w.os) in
              let shape : seen (suc rounds) last w.os
                  ≡ content w.os ∷ seen rounds (content w.os) w1.os =
                rw changed in
              let enough' : suc (suc left) ≤ suc (length (seen rounds (content w.os) w1.os)) =
                rw changed at enough in
              let (w', run, shown, end) =
                watch_total rounds (content w.os) (n + 1) left w1 (stays w.os good) (omega arith)
                  (omega arith) in
              (
                w',
                watch_more rounds last n w good changed (omega arith) ∙ run,
                shown
                    ∙ append_assoc w.out (show (content w.os) ∷ [])
                        (map show (take (suc left) (seen rounds (content w.os) w1.os)))
                    ∙ ap (λ (l : List D). w.out ++ map show (take (suc (suc left)) l)) (sym shape),
                end,
              )
        ]

    -- With fewer changes in sight the loop is still waiting when its rounds are over.
    pub watch_waits :
        (rounds : ℕ) (last : D) (n left : ℕ) (w : World S)
        → Good w.os
        → n + left ≡ limit
        → length (seen rounds last w.os) < left
        → watch rounds last n w ≡ none
    unfolding changes snapshots
    watch_waits zero last n left w good e few = unfold watch in refl
    watch_waits (suc rounds) last n left w good e few =
        elim (Bool-cases (same last (content w.os))) [
          | inl unchanged ↦
              watch_same rounds last n w good unchanged
              ∙ watch_waits rounds last n left (moved w (sleep w.os)) (stays w.os good) e
                  (rw unchanged at few)
          | inr changed ↦
              let few' : suc (length (seen rounds (content w.os) (sleep w.os))) < left =
                rw changed at few in
              watch_more rounds last n w good changed (omega arith)
              ∙ watch_waits rounds (content w.os) (n + 1) (left - 1)
                  (moved (said w (show (content w.os))) (sleep w.os)) (stays w.os good)
                  (omega arith) (omega arith)
        ]

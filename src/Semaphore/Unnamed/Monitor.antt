-- ===== src/Semaphore/Unnamed/Monitor.antt =====
-- The monitor of semaphore_example/main.c: the value of the semaphore that it prints.
use linux_programming_exampl.Prelude.{
  ℕ, zero, suc, ◌+◌, ◌≤◌, ◌≡◌, ◌≢◌, sym, ap, ◌∙◌, inl, inr, ℤ, pos, true, false, some, List, [],
  ◌∷◌, ◌++◌, append_assoc, arith, if◌then◌else◌, Bool-cases, length, take,
}
use linux_programming_exampl.Program.{World, Output, moved, said}
use linux_programming_exampl.Semaphore.Unnamed.{monitor_loop, monitor_line}
use linux_programming_exampl.Semaphore.Unnamed.Kernel.{UnnamedOs, DataInfo, info_eq}

-- The kernel under the monitor: the object stays mapped at `p`, and reading the semaphore's value
-- changes nothing.
pub record Visible (K : UnnamedOs) (p : ℤ) : Type 1 where
  pub content : K.State → DataInfo
  pub value : K.State → ℤ
  pub At : K.State → Type 0
  pub peek_at : (s : K.State) → At s → K.peek p s ≡ some (content s)
  pub getvalue : (s : K.State) → At s → K.sem_getvalue p s ≡ ((pos 0, value s), s)
  pub usleep_at : (s : K.State) → At s → At (K.usleep s)

-- The specification: the states that a monitor sees to differ from the one before them.
module _ (K : UnnamedOs) (p : ℤ) (V : Visible K p) where
  unfoldable pub changed_states : ℕ → DataInfo → K.State → List K.State
  changed_states zero last s = []
  changed_states (suc k) last s =
      let s' = K.usleep s in
      let rest = changed_states k (V.content s') s' in
      if info_eq last (V.content s') then changed_states k last s' else s' ∷ rest

  -- The lines of the monitor: each with the value of the semaphore at the change before it, and
  -- the first with the value `sval`.
  pub late_lines : ℤ → List K.State → List Output
  late_lines sval [] = []
  late_lines sval (s ∷ l) = monitor_line (V.content s) sval ∷ late_lines (V.value s) l

  loop_same :
      (rounds : ℕ) (last : DataInfo) (n : ℕ) (sval : ℤ) (w : World K.State)
      → V.At w.os
      → info_eq last (V.content (K.usleep w.os)) ≡ true
      → monitor_loop K p (suc rounds) last n sval w
        ≡ monitor_loop K p rounds last n sval (moved w (K.usleep w.os))
  unfolding monitor_loop
  loop_same rounds last n sval w at e =
      ground (arith, V.peek_at (K.usleep w.os) (V.usleep_at w.os at))

  loop_last :
      (rounds : ℕ) (last : DataInfo) (n : ℕ) (sval : ℤ) (w : World K.State)
      → V.At w.os
      → info_eq last (V.content (K.usleep w.os)) ≡ false
      → n + 1 ≡ 5
      → monitor_loop K p (suc rounds) last n sval w
        ≡ some (tt, said (moved w (K.usleep w.os)) (monitor_line (V.content (K.usleep w.os)) sval))
  unfolding monitor_loop
  loop_last rounds last n sval w at e f =
      let at' : V.At (K.usleep w.os) = V.usleep_at w.os at in
      ground (arith, V.peek_at (K.usleep w.os) at', V.getvalue (K.usleep w.os) at')

  loop_more :
      (rounds : ℕ) (last : DataInfo) (n : ℕ) (sval : ℤ) (w : World K.State)
      → V.At w.os
      → info_eq last (V.content (K.usleep w.os)) ≡ false
      → n + 1 ≢ 5
      → monitor_loop K p (suc rounds) last n sval w
        ≡ monitor_loop K p rounds
            (V.content (K.usleep w.os))
            (n + 1)
            (V.value (K.usleep w.os))
            (said (moved w (K.usleep w.os)) (monitor_line (V.content (K.usleep w.os)) sval))
  unfolding monitor_loop
  loop_more rounds last n sval w at e f =
      let at' : V.At (K.usleep w.os) = V.usleep_at w.os at in
      ground (arith, V.peek_at (K.usleep w.os) at', V.getvalue (K.usleep w.os) at')

  -- When five changes come within the rounds, the monitor's loop returns, and has printed the first
  -- five with the contents of the object. The value of the semaphore in a line is not the one at
  -- that time: it is the value at the change before, and in the first line the initial `sval`.
  pub monitor_loop_late :
      (rounds : ℕ) (last : DataInfo) (n left : ℕ) (sval : ℤ) (w : World K.State)
      → V.At w.os
      → n + suc left ≡ 5
      → suc left ≤ length (changed_states rounds last w.os)
      → (w' : World K.State) × (monitor_loop K p rounds last n sval w ≡ some (tt, w'))
        × (w'.out ≡ w.out ++ late_lines sval (take (suc left) (changed_states rounds last w.os)))
  unfolding changed_states late_lines
  monitor_loop_late zero last n left sval w at e enough = absurd (omega arith)
  monitor_loop_late (suc rounds) last n zero sval w at e enough =
      let s : K.State = K.usleep w.os in
      elim (Bool-cases (info_eq last (V.content s))) [
        | inl same ↦
            let (w', run, shown) =
              monitor_loop_late rounds last n zero sval (moved w s) (V.usleep_at w.os at) e
                (rw same at enough) in
            (w', loop_same rounds last n sval w at same ∙ run, rw same shown)
        | inr other ↦ (
          said (moved w s) (monitor_line (V.content s) sval),
          loop_last rounds last n sval w at other (omega arith),
          rw other,
        )
      ]
  monitor_loop_late (suc rounds) last n (suc left) sval w at e enough =
      let s : K.State = K.usleep w.os in
      elim (Bool-cases (info_eq last (V.content s))) [
        | inl same ↦
            let (w', run, shown) =
              monitor_loop_late rounds last n (suc left) sval (moved w s) (V.usleep_at w.os at) e
                (rw same at enough) in
            (w', loop_same rounds last n sval w at same ∙ run, rw same shown)
        | inr other ↦
            let line : Output = monitor_line (V.content s) sval in
            let later : List K.State = changed_states rounds (V.content s) s in
            let shape : changed_states (suc rounds) last w.os ≡ s ∷ later = rw other in
            let enough' : suc (suc left) ≤ suc (length later) = rw other at enough in
            let (w', run, shown) =
              monitor_loop_late rounds (V.content s) (n + 1) left (V.value s)
                (said (moved w s) line) (V.usleep_at w.os at) (omega arith) (omega arith) in
            (
              w',
              loop_more rounds last n sval w at other (omega arith) ∙ run,
              shown
                  ∙ append_assoc w.out (line ∷ []) (late_lines (V.value s) (take (suc left) later))
                  ∙ ap (λ (l : List K.State). w.out ++ late_lines sval (take (suc (suc left)) l))
                      (sym shape),
            )
      ]

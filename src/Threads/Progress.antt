-- ===== src/Threads/Progress.antt =====
-- The threads of multi_thread_example/main.c come to an end: no run is longer than 773 steps, and
-- one that has not ended can go on.
use linux_programming_exampl.Prelude.{
  ℕ, suc, ◌+◌, ◌-◌, ◌*◌, ◌≤◌, ◌<◌, ◌≡◌, ◌≢◌, refl, ◌⊎◌, inl, inr, false, none, arith, ltb,
  if◌then◌else◌, Bool-cases, ltb→lt, ltb→le,
}
use linux_programming_exampl.Threads.{
  Shared, Pc, ready, locked, opened, printed, closed, loaded, stored, returned, CountMove,
  count_lock, count_open, count_print, count_close, count_load, count_store, count_unlock,
  count_return, PlusMove, plus_lock, plus_open, plus_print, plus_load, plus_store, plus_close,
  plus_unlock, plus_return, System, Step, count_moves, plus_moves, count_exits, plus_exits, start,
  Reach, max_num, plus_rounds,
}
use linux_programming_exampl.Threads.Invariant.{critical, Inv, Reach-Inv}

-- A thread outside its critical section can move when the mutex is free, any other at any time.
count_can :
    (m : Shared) (c : Pc)
    → (critical c ≡ false → m.holder ≡ none)
    → c ≢ returned
    → (m' : Shared) × (c' : Pc) × CountMove m c m' c'
count_can m (ready i) free h = elim (Bool-cases (ltb i max_num)) [
  | inl more ↦ (_, _, count_lock (ltb→lt i max_num more) (free refl))
  | inr last ↦ (_, _, count_return (ltb→le i max_num last))
]
count_can m (locked i) free h = (_, _, count_open)
count_can m (opened i) free h = (_, _, count_print)
count_can m (printed i) free h = (_, _, count_close)
count_can m (closed i) free h = (_, _, count_load)
count_can m (loaded i v) free h = (_, _, count_store)
count_can m (stored i) free h = (_, _, count_unlock)
count_can m returned free h = absurd (h refl)

plus_can :
    (m : Shared) (p : Pc)
    → (critical p ≡ false → m.holder ≡ none)
    → p ≢ returned
    → (m' : Shared) × (p' : Pc) × PlusMove m p m' p'
plus_can m (ready i) free h = elim (Bool-cases (ltb i plus_rounds)) [
  | inl more ↦ (_, _, plus_lock (ltb→lt i plus_rounds more) (free refl))
  | inr last ↦ (_, _, plus_return (ltb→le i plus_rounds last))
]
plus_can m (locked i) free h = (_, _, plus_open)
plus_can m (opened i) free h = (_, _, plus_print)
plus_can m (printed i) free h = (_, _, plus_load)
plus_can m (loaded i v) free h = (_, _, plus_store)
plus_can m (stored i) free h = (_, _, plus_close)
plus_can m (closed i) free h = (_, _, plus_unlock)
plus_can m returned free h = absurd (h refl)

-- While the process has not exited and a thread has not returned, some thread can move.
pub no_deadlock :
    (m : Shared) (c p : Pc)
    → Reach (record { mem = m; count = c; plus = p; exited = false })
    → (c ≢ returned) ⊎ (p ≢ returned)
    → (t : System) × Step (record { mem = m; count = c; plus = p; exited = false }) t
no_deadlock m c p r unfinished =
    let i : Inv m c p = Reach-Inv r in
    elim (Bool-cases (critical p)) [
      | inl busy ↦
          let (m', p', mv) = plus_can m p (λ e. ground arith) (λ e. ground arith) in
          (_, plus_moves mv)
      | inr quiet ↦ elim unfinished [
        | inl h ↦
            let (m', c', mv) = count_can m c (λ e. ground (arith, i.held)) h in (_, count_moves mv)
        | inr h ↦ elim (Bool-cases (critical c)) [
          | inl busy ↦
              let (m', c', mv) = count_can m c (λ e. ground arith) (λ e. ground arith) in
              (_, count_moves mv)
          | inr idle ↦
              let (m', p', mv) = plus_can m p (λ e. ground (arith, i.held)) h in (_, plus_moves mv)
        ]
      ]
    ]

-- The steps that a thread still has to make, at most.
abbrev pub count_left : Pc → ℕ
count_left (ready i) = 7 * (max_num - i) + 1
count_left (locked i) = 7 * (max_num - 1 - i) + 7
count_left (opened i) = 7 * (max_num - 1 - i) + 6
count_left (printed i) = 7 * (max_num - 1 - i) + 5
count_left (closed i) = 7 * (max_num - 1 - i) + 4
count_left (loaded i v) = 7 * (max_num - 1 - i) + 3
count_left (stored i) = 7 * (max_num - 1 - i) + 2
count_left returned = 0

abbrev pub plus_left : Pc → ℕ
plus_left (ready i) = 7 * (plus_rounds - i) + 1
plus_left (locked i) = 7 * (plus_rounds - 1 - i) + 7
plus_left (opened i) = 7 * (plus_rounds - 1 - i) + 6
plus_left (printed i) = 7 * (plus_rounds - 1 - i) + 5
plus_left (loaded i v) = 7 * (plus_rounds - 1 - i) + 4
plus_left (stored i) = 7 * (plus_rounds - 1 - i) + 3
plus_left (closed i) = 7 * (plus_rounds - 1 - i) + 2
plus_left returned = 0

abbrev pub left : System → ℕ
left s = count_left s.count + plus_left s.plus + (if s.exited then 0 else 1)

count_left-lt : {m m' : Shared} {c c' : Pc} → CountMove m c m' c' → count_left c' < count_left c
count_left-lt (count_lock r f) = omega arith
count_left-lt (count_return r) = omega arith
count_left-lt mv = omega arith

plus_left-lt : {m m' : Shared} {p p' : Pc} → PlusMove m p m' p' → plus_left p' < plus_left p
plus_left-lt (plus_lock r f) = omega arith
plus_left-lt (plus_return r) = omega arith
plus_left-lt mv = omega arith

left-lt : {s t : System} → Step s t → left t < left s
left-lt (count_moves mv) = omega (arith, count_left-lt mv)
left-lt (plus_moves mv) = omega (arith, plus_left-lt mv)
left-lt count_exits = omega arith
left-lt plus_exits = omega arith

-- A run of `n` steps.
pub data Run (s : System) : ℕ → System → Type 0 where
  here : Run s 0 s
  after : {n : ℕ} {t u : System} → Run s n t → Step t u → Run s (suc n) u

Run-left : {s t : System} {n : ℕ} → Run s n t → n + left t ≤ left s
Run-left here = omega arith
Run-left (after r st) = omega (arith, Run-left r, left-lt st)

-- No run from the start of the threads is longer than 773 steps.
pub runs_end : {n : ℕ} {t : System} → Run start n t → n ≤ 773
runs_end r = omega (arith, Run-left r)

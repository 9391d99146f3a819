-- ===== src/Threads/Invariant.antt =====
-- What holds of the two threads of multi_thread_example/main.c in every reachable state.
use linux_programming_exampl.Prelude.{
  ℕ, ◌+◌, ◌*◌, ◌≤◌, ◌<◌, ◌≡◌, Bool, true, false, ◌&&◌, Option, none, some, List, [], ◌∷◌, arith,
  length, if◌then◌else◌,
}
use linux_programming_exampl.Threads.{
  Shared, Pc, ready, locked, opened, printed, closed, loaded, stored, returned, CountMove,
  count_lock, count_open, count_print, count_close, count_load, count_store, count_unlock,
  count_return, PlusMove, plus_lock, plus_open, plus_print, plus_load, plus_store, plus_close,
  plus_unlock, plus_return, System, Step, count_moves, plus_moves, count_exits, plus_exits, Reach,
  begin, next, max_num, plus_rounds, plus_num, count_id, plus_id,
}

-- Between the return of `pthread_mutex_lock` and the call of `pthread_mutex_unlock`.
abbrev pub critical : Pc → Bool
critical (ready i) = false
critical returned = false
critical _ = true

abbrev pub owner : Pc → Pc → Option ℕ
owner c p = if critical c then some count_id else if critical p then some plus_id else none

-- The additions that a thread has made, and the lines that it has written.
abbrev pub count_added : Pc → ℕ
count_added (ready i) = i
count_added (locked i) = i
count_added (opened i) = i
count_added (printed i) = i
count_added (closed i) = i
count_added (loaded i v) = i
count_added (stored i) = i + 1
count_added returned = max_num

abbrev pub plus_added : Pc → ℕ
plus_added (ready i) = i
plus_added (locked i) = i
plus_added (opened i) = i
plus_added (printed i) = i
plus_added (loaded i v) = i
plus_added (stored i) = i + 1
plus_added (closed i) = i + 1
plus_added returned = plus_rounds

-- A line that is written and whose addition is still to come.
abbrev pub count_noted : Pc → ℕ
count_noted (printed i) = 1
count_noted (closed i) = 1
count_noted (loaded i v) = 1
count_noted _ = 0

abbrev pub plus_noted : Pc → ℕ
plus_noted (printed i) = 1
plus_noted (loaded i v) = 1
plus_noted _ = 0

-- What a thread has read is what stands there.
abbrev pub IsFresh : Shared → Pc → Type 0
IsFresh m (loaded i v) = v ≡ m.share_memory
IsFresh m _ = Unit

-- The loop's counter stays in range.
abbrev pub InRange : ℕ → Pc → Type 0
InRange n (ready i) = i ≤ n
InRange n (locked i) = i < n
InRange n (opened i) = i < n
InRange n (printed i) = i < n
InRange n (closed i) = i < n
InRange n (loaded i v) = i < n
InRange n (stored i) = i < n
InRange n returned = Unit

-- The values in the file, the last line first, fall from below `bound`.
abbrev pub Below : ℕ → List (ℕ × ℕ) → Type 0
Below bound [] = Unit
Below bound ((thread, value) ∷ rest) = (value < bound) × Below value rest

pub Below-mono : (a b : ℕ) (l : List (ℕ × ℕ)) → a ≤ b → Below a l → Below b l
Below-mono a b [] h l = tt
Below-mono a b ((t, v) ∷ rest) h (lt, l) = (omega arith, l)

pub record Inv (m : Shared) (c p : Pc) : Type 0 where
  pub held : m.holder ≡ owner c p
  pub apart : (critical c && critical p) ≡ false
  pub total : m.share_memory ≡ count_added c + plus_num * plus_added p
  pub count_fresh : IsFresh m c
  pub plus_fresh : IsFresh m p
  pub count_range : InRange max_num c
  pub plus_range : InRange plus_rounds p
  pub written : length m.lines ≡ count_added c + count_noted c + plus_added p + plus_noted p
  pub rising : Below (m.share_memory + count_noted c + plus_noted p) m.lines

CountMove-Inv : {m m' : Shared} {c c' p : Pc} → CountMove m c m' c' → Inv m c p → Inv m' c' p
CountMove-Inv (count_lock r f) i = ground arith
CountMove-Inv count_open i = ground arith
CountMove-Inv count_print i = ground arith
CountMove-Inv count_close i = ground arith
CountMove-Inv count_load i = ground arith
CountMove-Inv count_store i = ground arith
CountMove-Inv count_unlock i = ground arith
CountMove-Inv (count_return r) i = ground arith

PlusMove-Inv : {m m' : Shared} {c p p' : Pc} → PlusMove m p m' p' → Inv m c p → Inv m' c p'
PlusMove-Inv (plus_lock r f) i = ground arith
PlusMove-Inv plus_open i = ground arith
PlusMove-Inv plus_print i = ground arith
PlusMove-Inv plus_load i = ground arith
PlusMove-Inv {m} {c} (plus_store {value}) i = ground (
  arith,
  Below-mono (m.share_memory + count_noted c + 1) (value + plus_num + count_noted c + 0) m.lines,
)
PlusMove-Inv plus_close i = ground arith
PlusMove-Inv plus_unlock i = ground arith
PlusMove-Inv (plus_return r) i = ground arith

Step-Inv : {s t : System} → Step s t → Inv s.mem s.count s.plus → Inv t.mem t.count t.plus
Step-Inv (count_moves mv) i = CountMove-Inv mv i
Step-Inv (plus_moves mv) i = PlusMove-Inv mv i
Step-Inv count_exits i = i
Step-Inv plus_exits i = i

-- Every reachable state satisfies the invariant.
pub Reach-Inv : {s : System} → Reach s → Inv s.mem s.count s.plus
Reach-Inv begin = ground arith
Reach-Inv (next r st) = Step-Inv st (Reach-Inv r)

-- ===== src/Threads/Safety.antt =====
-- What the mutex of multi_thread_example/main.c buys: exclusion, no lost addition, lines in order.
use linux_programming_exampl.Prelude.{◌+◌, ◌*◌, ◌≤◌, ◌≡◌, false, ◌&&◌, arith, length}
use linux_programming_exampl.Threads.{System, Pc, returned, Reach, max_num, plus_rounds, plus_num}
use linux_programming_exampl.Threads.Invariant.{
  critical, count_noted, plus_noted, count_added, plus_added, Below, Inv, Reach-Inv, Below-mono,
  InRange,
}

-- The two threads are never both between their calls of lock and unlock.
pub mutual_exclusion : {s : System} → Reach s → (critical s.count && critical s.plus) ≡ false
mutual_exclusion r = (Reach-Inv r).apart

-- When both threads have returned, `share_memory` holds 100 additions of 1 and 10 of 10, and the
-- file has one line for each of them.
pub final_value :
    {s : System}
    → Reach s
    → s.count ≡ returned
    → s.plus ≡ returned
    → (s.mem.share_memory ≡ 200) × (length s.mem.lines ≡ 110)
final_value r c p = ground (arith, Reach-Inv r)

InRange-count : (c : Pc) → InRange max_num c → count_added c ≤ max_num
InRange-count c h = ground arith

InRange-plus : (p : Pc) → InRange plus_rounds p → plus_added p ≤ plus_rounds
InRange-plus p h = ground arith

-- In every reachable state, also once the process has exited, `share_memory` is what the additions
-- made so far add up to, and it is at most 200.
pub no_lost_addition :
    {s : System}
    → Reach s
    → (s.mem.share_memory ≡ count_added s.count + plus_num * plus_added s.plus)
      × (s.mem.share_memory ≤ 200)
no_lost_addition {s} r =
    let i : Inv s.mem s.count s.plus = Reach-Inv r in
    (
      i.total,
      omega (arith, i.total, InRange-count s.count i.count_range, InRange-plus s.plus i.plus_range),
    )

noted-le : (c p : Pc) → (critical c && critical p) ≡ false → count_noted c + plus_noted p ≤ 1
noted-le c p h = ground arith

-- The values in the file rise strictly from line to line, and none is above `share_memory`.
pub lines_rise : {s : System} → Reach s → Below (s.mem.share_memory + 1) s.mem.lines
lines_rise {s} r =
    let i : Inv s.mem s.count s.plus = Reach-Inv r in
    let few : count_noted s.count + plus_noted s.plus ≤ 1 = noted-le s.count s.plus i.apart in
    Below-mono (s.mem.share_memory + count_noted s.count + plus_noted s.plus)
      (s.mem.share_memory + 1) s.mem.lines (omega arith) i.rising

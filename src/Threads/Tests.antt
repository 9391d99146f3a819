-- ===== src/Threads/Tests.antt =====
-- A whole run of the two threads of multi_thread_example/main.c, and a pthread library for `main`.
use linux_programming_exampl.Prelude.{
  ℕ, zero, suc, ◌+◌, ◌*◌, ◌≤◌, ◌<◌, ◌≡◌, refl, inl, pos, minus_one, Bool, true, false, ◌&&◌, ◌||◌,
  not, none, some, List, [], ◌∷◌, arith, ◌==◌, if◌then◌else◌,
}
use linux_programming_exampl.Program.{World}
use linux_programming_exampl.Threads.{
  Pc, ready, returned, count_lock, count_open, count_print, count_close, count_load, count_store,
  count_unlock, count_return, plus_lock, plus_open, plus_print, plus_load, plus_store, plus_close,
  plus_unlock, plus_return, System, Step, count_moves, plus_moves, start, Reach, begin, next,
  max_num, plus_rounds, plus_num, count_id, plus_id,
}
use linux_programming_exampl.Threads.Invariant.{critical}
use linux_programming_exampl.Threads.Safety.{mutual_exclusion, no_lost_addition}
use linux_programming_exampl.Threads.Progress.{no_deadlock, runs_end, here, after}
use linux_programming_exampl.Threads.Main.{PthreadOs, JoinedIsGone, main, main_fails}

-- The state with a free mutex.
abbrev free : ℕ → List (ℕ × ℕ) → Pc → Pc → System
free value lines c p = record {
  mem = record { share_memory = value; holder = none; lines = lines };
  count = c;
  plus = p;
  exited = false;
}

-- A round of each thread.
count_round :
    {value i : ℕ} {lines : List (ℕ × ℕ)} {p : Pc}
    → i < max_num
    → Reach (free value lines (ready i) p)
    → Reach (free (value + 1) ((count_id, value) ∷ lines) (ready (i + 1)) p)
count_round h r =
    next
      (next
        (next
          (next
            (next (next (next r (count_moves (count_lock h refl))) (count_moves count_open))
              (count_moves count_print))
            (count_moves count_close))
          (count_moves count_load))
        (count_moves count_store))
      (count_moves count_unlock)

plus_round :
    {value i : ℕ} {lines : List (ℕ × ℕ)} {c : Pc}
    → i < plus_rounds
    → Reach (free value lines c (ready i))
    → Reach (free (value + plus_num) ((plus_id, value) ∷ lines) c (ready (i + 1)))
plus_round h r =
    next
      (next
        (next
          (next
            (next (next (next r (plus_moves (plus_lock h refl))) (plus_moves plus_open))
              (plus_moves plus_print))
            (plus_moves plus_load))
          (plus_moves plus_store))
        (plus_moves plus_close))
      (plus_moves plus_unlock)

record Ended (c p : Pc) : Type 0 where
  value : ℕ
  lines : List (ℕ × ℕ)
  reach : Reach (free value lines c p)

count_rest :
    (k : ℕ) {value i : ℕ} {lines : List (ℕ × ℕ)} {p : Pc}
    → i + k ≡ max_num
    → Reach (free value lines (ready i) p)
    → Ended returned p
count_rest zero h r = record {
  value = _;
  lines = _;
  reach = next r (count_moves (count_return (omega arith)));
}
count_rest (suc k) h r = count_rest k (omega arith) (count_round (omega arith) r)

plus_rest :
    (k : ℕ) {value i : ℕ} {lines : List (ℕ × ℕ)} {c : Pc}
    → i + k ≡ plus_rounds
    → Reach (free value lines c (ready i))
    → Ended c returned
plus_rest zero h r = record {
  value = _;
  lines = _;
  reach = next r (plus_moves (plus_return (omega arith)));
}
plus_rest (suc k) h r = plus_rest k (omega arith) (plus_round (omega arith) r)

-- First one thread, then the other.
both : Ended returned returned
both = plus_rest 10 refl (count_rest 100 refl begin).reach

abbrev last : System
last = free both.value both.lines returned returned

mutual_exclusion_example : (critical last.count && critical last.plus) ≡ false
mutual_exclusion_example = mutual_exclusion both.reach

no_lost_addition_example : (both.value ≡ 100 + plus_num * 10) × (both.value ≤ 200)
no_lost_addition_example = no_lost_addition both.reach

no_deadlock_example : (t : System) × Step start t
no_deadlock_example = no_deadlock start.mem (ready 0) (ready 0) begin (inl (λ e. cc))

runs_end_example : 1 ≤ 773
runs_end_example = runs_end (after here (count_moves (count_lock (omega arith) refl)))

-- A library whose state says which threads are gone. A thread is named by its function.
abbrev library : PthreadOs
library = record {
  State = ℕ → Bool;
  self = λ s. 7;
  strerror = λ s. [];
  mutex_init = λ s. (pos 0, s);
  create = λ f s. ((pos 0, f), λ u. not (u == f) && s u);
  join = λ t s. (if s t then pos 3 else pos 0, λ u. u == t || s u);
  detach = λ t s. (if s t then pos 3 else pos 0, s);
  mutex_destroy = λ s. (pos 0, s);
}

library-JoinedIsGone : JoinedIsGone library
library-JoinedIsGone = record {
  gone = λ s t. s t;
  create_live = λ f s h. ground arith;
  create_keeps = λ f u s h. ground arith;
  join_live = λ t s h. rw h;
  join_gone = λ t s h. ground arith;
  join_keeps = λ t u s h. ground arith;
  detach_keeps = λ t u s h. h;
  detach_gone = λ t s h. rw h;
}

main_fails_example :
    (w' : World (ℕ → Bool)) × (main library (record { os = λ t. true; out = [] })
      ≡ some (minus_one, w'))
main_fails_example = main_fails library library-JoinedIsGone (record { os = λ t. true; out = [] })

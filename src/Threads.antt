-- ===== src/Threads.antt =====
-- multi_thread_example/main.c: two threads add to one variable under one mutex.
-- A thread moves from one access to shared memory to the next, in any order with the other.
pub mod Invariant
pub mod Safety
pub mod Progress
pub mod Main
mod Tests
use linux_programming_exampl.Prelude.{
  ℕ, ◌+◌, ◌≤◌, ◌<◌, ◌≡◌, Bool, true, false, Option, none, some, List, [], ◌∷◌,
}

-- `MAX_NUM`, the bound of the loop in `plus_share_memory`, and `PLUS_NUM`.
abbrev pub max_num : ℕ
max_num = 100

abbrev pub plus_rounds : ℕ
plus_rounds = 10

abbrev pub plus_num : ℕ
plus_num = 10

-- The names by which the mutex and the log tell the two threads apart.
abbrev pub count_id : ℕ
count_id = 0

abbrev pub plus_id : ℕ
plus_id = 1

-- `share_memory`, the owner of `share_memory_control`, and the lines of the file: the thread and the
-- value that it printed, the last line first.
pub record Shared : Type 0 where
  pub share_memory : ℕ
  pub holder : Option ℕ
  pub lines : List (ℕ × ℕ)

-- Where a thread stands in round `i` of its loop.
pub data Pc : Type 0 where
  ready : (i : ℕ) → Pc  -- at the head of the loop
  locked : (i : ℕ) → Pc  -- before `open`
  opened : (i : ℕ) → Pc  -- before `dprintf`
  printed : (i : ℕ) → Pc
  closed : (i : ℕ) → Pc
  loaded : (i value : ℕ) → Pc  -- between the read and the write of `share_memory`
  stored : (i : ℕ) → Pc
  returned : Pc

-- `count_share_memory`
pub data CountMove (m : Shared) : Pc → Shared → Pc → Type 0 where
  count_lock :
      {i : ℕ}
      → i < max_num
      → m.holder ≡ none
      → CountMove m (ready i) (record m { holder = some count_id }) (locked i)
  count_open : {i : ℕ} → CountMove m (locked i) m (opened i)
  count_print :
      {i : ℕ}
      → CountMove m
          (opened i)
          (record m { lines = (count_id, m.share_memory) ∷ m.lines })
          (printed i)
  count_close : {i : ℕ} → CountMove m (printed i) m (closed i)
  count_load : {i : ℕ} → CountMove m (closed i) m (loaded i m.share_memory)
  count_store :
      {i value : ℕ}
      → CountMove m (loaded i value) (record m { share_memory = value + 1 }) (stored i)
  count_unlock : {i : ℕ} → CountMove m (stored i) (record m { holder = none }) (ready (i + 1))
  count_return : {i : ℕ} → max_num ≤ i → CountMove m (ready i) m returned

-- `plus_share_memory`, which closes the file behind the addition
pub data PlusMove (m : Shared) : Pc → Shared → Pc → Type 0 where
  plus_lock :
      {i : ℕ}
      → i < plus_rounds
      → m.holder ≡ none
      → PlusMove m (ready i) (record m { holder = some plus_id }) (locked i)
  plus_open : {i : ℕ} → PlusMove m (locked i) m (opened i)
  plus_print :
      {i : ℕ}
      → PlusMove m (opened i) (record m { lines = (plus_id, m.share_memory) ∷ m.lines }) (printed i)
  plus_load : {i : ℕ} → PlusMove m (printed i) m (loaded i m.share_memory)
  plus_store :
      {i value : ℕ}
      → PlusMove m (loaded i value) (record m { share_memory = value + plus_num }) (stored i)
  plus_close : {i : ℕ} → PlusMove m (stored i) m (closed i)
  plus_unlock : {i : ℕ} → PlusMove m (closed i) (record m { holder = none }) (ready (i + 1))
  plus_return : {i : ℕ} → plus_rounds ≤ i → PlusMove m (ready i) m returned

-- `exited`: a call of `open` has failed, and `exit(0)` has ended the process.
pub record System : Type 0 where
  pub mem : Shared
  pub count : Pc
  pub plus : Pc
  pub exited : Bool

pub data Step : System → System → Type 0 where
  count_moves :
      {m m' : Shared} {c c' p : Pc}
      → CountMove m c m' c'
      → Step
          (record { mem = m; count = c; plus = p; exited = false })
          (record { mem = m'; count = c'; plus = p; exited = false })
  plus_moves :
      {m m' : Shared} {c p p' : Pc}
      → PlusMove m p m' p'
      → Step
          (record { mem = m; count = c; plus = p; exited = false })
          (record { mem = m'; count = c; plus = p'; exited = false })
  count_exits :
      {m : Shared} {i : ℕ} {p : Pc}
      → Step
          (record { mem = m; count = locked i; plus = p; exited = false })
          (record { mem = m; count = locked i; plus = p; exited = true })
  plus_exits :
      {m : Shared} {c : Pc} {i : ℕ}
      → Step
          (record { mem = m; count = c; plus = locked i; exited = false })
          (record { mem = m; count = c; plus = locked i; exited = true })

-- When `main` has created both threads.
abbrev pub start : System
start = record {
  mem = record { share_memory = 0; holder = none; lines = [] };
  count = ready 0;
  plus = ready 0;
  exited = false;
}

pub data Reach : System → Type 0 where
  begin : Reach start
  next : {s t : System} → Reach s → Step s t → Reach t

-- ===== src/MessageQueue/Kernel.antt =====
-- The calls of the operating system that sysv_example/main.c makes.
use linux_programming_exampl.Prelude.{
  ℕ, ◌+◌, ◌≡◌, ℤ, pos, is_minus_one, false, int_eq, Option, none, some, List, [], ◌∷◌, ◌++◌,
  if◌then◌else◌,
}

abbrev pub max_buf_len : ℕ
max_buf_len = 1024

-- `SYSV_BUF`
pub record SysvBuf : Type 0 where
  pub mtype : ℤ
  pub mtext : List ℕ

-- `msgsnd` and `msgrcv` have the outer `none` for a process that waits for good; `msgrcv` gives its
-- result and the buffer.
pub record QueueOs : Type 1 where
  pub State : Type 0
  pub open_file : List ℕ → State → ℤ × State
  pub close : ℤ → State → ℤ × State
  pub ftok : List ℕ → ℕ → State → ℤ × State
  pub msgget : ℤ → State → ℤ × State
  pub msgsnd : ℤ → SysvBuf → ℕ → State → Option (ℤ × State)
  pub msgrcv : ℤ → ℕ → ℤ → State → Option ((ℤ × SysvBuf) × State)

-- The first message of a type, and the messages that are left without it.
unfoldable pub take_first : ℤ → List SysvBuf → Option (SysvBuf × List SysvBuf)
take_first t [] = none
take_first t (m ∷ ms) =
    if int_eq m.mtype t
    then some (m, ms)
    else elim (take_first t ms) [ none ↦ none | some (x, rest) ↦ some (x, m ∷ rest) ]

-- msgget(2) and msgop(2), for whole messages and a queue with room, and positive types. `found` is the
-- identifier of the queue of a key, and `queue` the messages in the queue of an identifier, none if
-- there is no such queue: `msgget` gives the queue of the key, or makes one that is empty. In the queue
-- of a key, messages are appended, and the first of the wanted type is taken out.
pub record IsQueue (K : QueueOs) : Type 1 where
  pub found : K.State → ℤ → Option ℤ
  pub queue : K.State → ℤ → List SysvBuf
  pub ftok_keeps :
      (path : List ℕ) (n : ℕ) (s : K.State)
      → ((key : ℤ) → found (K.ftok path n s).1 key ≡ found s key)
        × ((i : ℤ) → queue (K.ftok path n s).1 i ≡ queue s i)
  pub msgget_id :
      (key : ℤ) (s : K.State)
      → is_minus_one (K.msgget key s).0 ≡ false
      → (found (K.msgget key s).1 key ≡ some (K.msgget key s).0)
        × ((i : ℤ) → queue (K.msgget key s).1 i ≡ queue s i)
        × ((id : ℤ) → found s key ≡ some id → (K.msgget key s).0 ≡ id)
        × (found s key ≡ none → queue s (K.msgget key s).0 ≡ [])
  pub send :
      (key id : ℤ) (t : ℕ) (text : List ℕ) (s : K.State)
      → found s key ≡ some id
      → (s' : K.State) × (K.msgsnd id (record { mtype = pos (t + 1); mtext = text }) max_buf_len s
          ≡ some (pos 0, s'))
        × ((k : ℤ) → found s' k ≡ found s k)
        × ((i : ℤ)
            → queue s' i ≡ (
                if int_eq i id
                then queue s i ++ (record { mtype = pos (t + 1); mtext = text } ∷ [])
                else queue s i))
  pub receive :
      (key id : ℤ) (t : ℕ) (s : K.State) (m : SysvBuf) (rest : List SysvBuf)
      → found s key ≡ some id
      → take_first (pos (t + 1)) (queue s id) ≡ some (m, rest)
      → (s' : K.State) × (K.msgrcv id max_buf_len (pos (t + 1)) s ≡ some ((pos max_buf_len, m), s'))
        × ((i : ℤ) → queue s' i ≡ (if int_eq i id then rest else queue s i))
  pub receive_waits :
      (key id : ℤ) (t : ℕ) (s : K.State)
      → found s key ≡ some id
      → take_first (pos (t + 1)) (queue s id) ≡ none
      → K.msgrcv id max_buf_len (pos (t + 1)) s ≡ none

-- The messages that the queue of a key holds.
abbrev pub held : (K : QueueOs) → IsQueue K → ℤ → K.State → List SysvBuf
held K Q key s = elim (Q.found s key) [ none ↦ [] | some id ↦ Q.queue s id ]

-- ===== src/MessageQueue/Tests.antt =====
-- A kernel with one message queue, and the theorems about sysv_example/main.c on it.
use linux_programming_exampl.Prelude.{
  ◌+◌, refl, ℤ, pos, minus_one, int_eq, if◌then◌else◌, Option, none, some, List, [], ◌∷◌, ◌++◌,
  arith,
}
use linux_programming_exampl.Program.{World}
use linux_programming_exampl.MessageQueue.Kernel.{
  QueueOs, IsQueue, SysvBuf, take_first, max_buf_len,
}

abbrev receive : ℤ → List SysvBuf → Option ((ℤ × SysvBuf) × List SysvBuf)
receive t q = elim (take_first t q) [
  | none ↦ none
  | some (m, rest) ↦ some ((pos max_buf_len, m), rest)
]

-- The state is the queue 4. `key` is what `ftok` gives.
abbrev toy : ℤ → QueueOs
toy key = record {
  State = List SysvBuf;
  open_file = λ path s. (pos 3, s);
  close = λ fd s. (pos 0, s);
  ftok = λ path n s. (key, s);
  msgget = λ k s. (pos 4, s);
  msgsnd =
      λ id m n s. if int_eq id (pos 4) then some (pos 0, s ++ (m ∷ [])) else some (minus_one, s);
  msgrcv = λ id n t s.
      if int_eq id (pos 4)
      then receive t s
      else some ((minus_one, record { mtype = pos 0; mtext = [] }), s);
}

toy-IsQueue : (key : ℤ) → IsQueue (toy key)
toy-IsQueue key = record {
  found = λ s k. some (pos 4);
  queue = λ s i. if int_eq i (pos 4) then s else [];
  ftok_keeps = λ path n s. (λ k. refl, λ i. refl);
  msgget_id = λ k s h. (refl, λ i. refl, λ id e. ground (arith, e), λ e. absurd (cc));
  send = λ k id t m s e. (
    s ++ (record { mtype = pos (t + 1); mtext = m } ∷ []),
    ground (arith, e),
    λ k'. refl,
    λ i. ground (arith, e),
  );
  receive = λ k id t s m rest e f. (rest, ground (arith, e, f), λ i. ground (arith, e));
  receive_waits = λ k id t s e f. ground (arith, e, f);
}

abbrev other : SysvBuf
other = record { mtype = pos 1; mtext = [] }

abbrev world : World (List SysvBuf)
world = record { os = other ∷ []; out = [] }

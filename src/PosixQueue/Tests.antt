-- ===== src/PosixQueue/Tests.antt =====
-- A kernel with one POSIX queue, and the theorem about posix_mq_example/main.c on it.
use linux_programming_exampl.Prelude.{
  ℕ, ◌≡◌, refl, ℤ, pos, int_eq, int_eq_refl, ◌==◌, if◌then◌else◌, Option, none, some, List, [], ◌∷◌,
  ◌++◌, arith, replicate, length-replicate,
}
use linux_programming_exampl.Program.{World, text, printf}
use linux_programming_exampl.PosixQueue.{file_path, send_data, recv_data}
use linux_programming_exampl.PosixQueue.Kernel.{MqOs, IsMq, Account}
use linux_programming_exampl.PosixQueue.RoundTrip.{recv_data-send_data, hello}

abbrev receive : Account → Option (Option (List ℕ) × Account)
receive s = elim s.queue [ [] ↦ none | m ∷ rest ↦ some (some m, record s { queue = rest }) ]

-- An open queue has the descriptor 3, or 4 while that is open. Only what was opened or allocated last
-- can be closed or freed.
abbrev fresh_fd : List ℤ → ℤ
fresh_fd fds = elim fds [ [] ↦ pos 3 | fd ∷ rest ↦ pos 4 ]

abbrev without_fd : ℤ → List ℤ → List ℤ
without_fd x fds = elim fds [ [] ↦ [] | fd ∷ rest ↦ if int_eq fd x then rest else fd ∷ rest ]

abbrev without_block : ℕ → List ℕ → List ℕ
without_block x bs = elim bs [ [] ↦ [] | b ∷ rest ↦ if b == x then rest else b ∷ rest ]

-- Fresh memory holds the number 7.
abbrev toy : MqOs
toy = record {
  State = Account;
  mq_open =
      λ path create s. (fresh_fd s.opened, record s { opened = fresh_fd s.opened ∷ s.opened });
  mq_getattr = λ fd s. (64, s);
  mq_send = λ fd m priority s. some (pos 0, record s { queue = s.queue ++ (m ∷ []) });
  mq_receive = λ fd n s. receive s;
  mq_close = λ fd s. (pos 0, record s { opened = without_fd fd s.opened });
  close = λ fd s. (pos 0, record s { opened = without_fd fd s.opened });
  malloc = λ n s. ((1, replicate n 7), record s { blocks = 1 ∷ s.blocks });
  free = λ buf s. record s { blocks = without_block buf s.blocks };
}

toy-IsMq : IsMq toy file_path
toy-IsMq = record {
  account = λ s. s;
  msgsize = 64;
  opens = λ create s. (ground arith, refl);
  attributes = λ fd fds s o. (refl, refl);
  allocates = λ n s. (length-replicate {A = ℕ} n 7, refl);
  sends =
      λ fd fds m s o short e. (record s { queue = s.queue ++ (m ∷ []) }, refl, ground (arith, e));
  receives = λ fd fds n m rest s o big e. (record s { queue = rest }, ground (arith, e), refl);
  frees = λ buf bs s e. ground (arith, e);
  closes = λ fd fds s e. ground (arith, e, int_eq_refl fd);
}

abbrev world : World Account
world = record { os = record { queue = []; opened = []; blocks = [] }; out = [] }

recv_data-send_data_example :
    (w1 w2 : World Account) × (send_data toy world ≡ some (tt, w1))
    × (recv_data toy w1 ≡ some (tt, w2))
    × (w2.out ≡ w1.out ++ (printf "[RECV] data: %s\n" (text hello ∷ []) ∷ []))
    × (w2.os ≡ world.os)
unfolding toy-IsMq
recv_data-send_data_example = recv_data-send_data toy toy-IsMq world (omega arith) refl

-- ===== src/PosixQueue/Kernel.antt =====
-- The calls of mqueue.h and of the allocator that posix_mq_example/main.c makes.
use linux_programming_exampl.Prelude.{
  ℕ, ◌≤◌, ◌≡◌, ℤ, pos, is_minus_one, Bool, false, Option, some, List, [], ◌∷◌, length,
}

-- `mq_open` takes whether the queue is to be made, and `mq_getattr` gives the size of a message.
-- `malloc` gives a pointer and what the memory holds. `mq_send` takes the message and its priority;
-- `mq_receive` gives the message, or `none` for an error. Both have the outer `none` for a process
-- that waits for good.
pub record MqOs : Type 1 where
  pub State : Type 0
  pub mq_open : List ℕ → Bool → State → ℤ × State
  pub mq_getattr : ℤ → State → ℕ × State
  pub mq_send : ℤ → List ℕ → ℕ → State → Option (ℤ × State)
  pub mq_receive : ℤ → ℕ → State → Option (Option (List ℕ) × State)
  pub mq_close : ℤ → State → ℤ × State
  pub close : ℤ → State → ℤ × State
  pub malloc : ℕ → State → (ℕ × List ℕ) × State
  pub free : ℕ → State → State

-- What a call does to the process: the messages in the queue, the descriptors of the queue that are open
-- and the blocks that are allocated, the latest first.
pub record Account : Type 0 where
  pub queue : List (List ℕ)
  pub opened : List ℤ
  pub blocks : List ℕ

-- mq_overview(7), for messages of one priority and the queue of a path, which can be opened, and
-- malloc(3) when memory is left. Messages pass through the descriptor that was opened last, and what is
-- closed and freed is what was opened and allocated last.
pub record IsMq (K : MqOs) (path : List ℕ) : Type 1 where
  pub account : K.State → Account
  pub msgsize : ℕ
  pub opens :
      (create : Bool) (s : K.State)
      → (is_minus_one (K.mq_open path create s).0 ≡ false)
        × (account (K.mq_open path create s).1
            ≡ record (account s) { opened = (K.mq_open path create s).0 ∷ (account s).opened })
  pub attributes :
      (fd : ℤ) (others : List ℤ) (s : K.State)
      → (account s).opened ≡ fd ∷ others
      → ((K.mq_getattr fd s).0 ≡ msgsize) × (account (K.mq_getattr fd s).1 ≡ account s)
  pub allocates :
      (n : ℕ) (s : K.State)
      → (length (K.malloc n s).0.1 ≡ n)
        × (account (K.malloc n s).1
            ≡ record (account s) { blocks = (K.malloc n s).0.0 ∷ (account s).blocks })
  pub sends :
      (fd : ℤ) (others : List ℤ) (m : List ℕ) (s : K.State)
      → (account s).opened ≡ fd ∷ others
      → length m ≤ msgsize
      → (account s).queue ≡ []
      → (s' : K.State) × (K.mq_send fd m 1 s ≡ some (pos 0, s'))
        × (account s' ≡ record (account s) { queue = m ∷ [] })
  pub receives :
      (fd : ℤ) (others : List ℤ) (n : ℕ) (m : List ℕ) (rest : List (List ℕ)) (s : K.State)
      → (account s).opened ≡ fd ∷ others
      → msgsize ≤ n
      → (account s).queue ≡ m ∷ rest
      → (s' : K.State) × (K.mq_receive fd n s ≡ some (some m, s'))
        × (account s' ≡ record (account s) { queue = rest })
  pub frees :
      (buf : ℕ) (others : List ℕ) (s : K.State)
      → (account s).blocks ≡ buf ∷ others
      → account (K.free buf s) ≡ record (account s) { blocks = others }
  pub closes :
      (fd : ℤ) (others : List ℤ) (s : K.State)
      → (account s).opened ≡ fd ∷ others
      → account (K.mq_close fd s).1 ≡ record (account s) { opened = others }

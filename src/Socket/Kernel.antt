-- ===== src/Socket/Kernel.antt =====
-- The socket calls that socket_example/main.c makes, over an unknown kernel, and what their manual
-- pages promise. A call that waits is described by its return.
use linux_programming_exampl.Prelude.{
  ℕ, ◌≤◌, ◌<◌, ◌≡◌, ◌⊎◌, ℤ, Option, none, some, Bool, false, not, ◌&&◌, ◌||◌, is_minus_one, int_eq,
  if◌then◌else◌, List, [], ◌++◌, length, take,
}

-- `socket`, `bind`, `listen`, `accept`, `connect` and `close` give their `int`. `send` and `sendto`
-- give the number of bytes taken, `recv` and `recvfrom` the bytes stored in the caller's buffer,
-- and `none` stands for -1. The calls' arguments are in the order of C.
pub record SocketOs : Type 1 where
  pub State : Type 0
  pub socket : ℕ → ℕ → ℕ → State → ℤ × State
  pub bind : ℤ → List ℕ → State → ℤ × State
  pub listen : ℤ → ℕ → State → ℤ × State
  pub accept : ℤ → State → ℤ × State
  pub connect : ℤ → List ℕ → State → ℤ × State
  pub send : ℤ → List ℕ → ℕ → State → Option ℕ × State
  pub recv : ℤ → ℕ → ℕ → State → Option (List ℕ) × State
  pub sendto : ℤ → List ℕ → ℕ → List ℕ → State → Option ℕ × State
  pub recvfrom : ℤ → ℕ → ℕ → State → Option (List ℕ) × State
  pub close : ℤ → State → ℤ × State

-- A connected stream socket, seen from its two ends. `sent s fd` is what was accepted for sending
-- on `fd`; `pending s fd` is what `recv` has still to deliver on `fd` before the end of the stream.
pub record IsStream (K : SocketOs) : Type 1 where
  pub sent : K.State → ℤ → List ℕ
  pub pending : K.State → ℤ → List ℕ
  -- send(2): some bytes are taken, from the front; on an error none is.
  pub send_taken :
      (fd : ℤ) (bytes : List ℕ) (flags : ℕ) (s : K.State) (n : ℕ)
      → (K.send fd bytes flags s).0 ≡ some n
      → 0 < length bytes
      → (0 < n)
        × (n ≤ length bytes)
        × (sent (K.send fd bytes flags s).1 fd ≡ sent s fd ++ take n bytes)
  pub send_failed :
      (fd : ℤ) (bytes : List ℕ) (flags : ℕ) (s : K.State)
      → (K.send fd bytes flags s).0 ≡ none
      → sent (K.send fd bytes flags s).1 fd ≡ sent s fd
  -- recv(2): at most `n` bytes, in order; none of them only at the end of the stream, or if `n` is 0.
  pub recv_stored :
      (fd : ℤ) (n flags : ℕ) (s : K.State) (bytes : List ℕ)
      → (K.recv fd n flags s).0 ≡ some bytes
      → (length bytes ≤ n)
        × (pending s fd ≡ bytes ++ pending (K.recv fd n flags s).1 fd)
        × (length bytes ≡ 0 → (n ≡ 0) ⊎ (pending s fd ≡ []))
  pub recv_failed :
      (fd : ℤ) (n flags : ℕ) (s : K.State)
      → (K.recv fd n flags s).0 ≡ none
      → pending (K.recv fd n flags s).1 fd ≡ pending s fd
  -- What was accepted for sending stays so when the descriptor is closed.
  pub close_sent : (fd : ℤ) (s : K.State) → sent (K.close fd s).1 fd ≡ sent s fd

-- The descriptors that are open once `fd` is, and once it is closed.
abbrev pub opened : ℤ → (ℤ → Bool) → ℤ → Bool
opened fd open_fds j = int_eq fd j || open_fds j

abbrev pub closed : ℤ → (ℤ → Bool) → ℤ → Bool
closed fd open_fds j = not (int_eq fd j) && open_fds j

-- A call that makes a descriptor: -1 and nothing is opened, or one that was not open before.
pub record Opens (before : ℤ → Bool) (fd : ℤ) (after : ℤ → Bool) : Type 0 where
  pub was_closed : before fd ≡ false
  pub is_opened : (j : ℤ) → after j ≡ (if is_minus_one fd then before j else opened fd before j)

-- Which descriptors of the process are open. `socket` and `accept` open one, `close` closes one, and
-- the other calls do neither.
pub record TracksFds (K : SocketOs) : Type 1 where
  pub open_fds : K.State → ℤ → Bool
  pub socket_opens :
      (domain type protocol : ℕ) (s : K.State)
      → Opens
          (open_fds s)
          (K.socket domain type protocol s).0
          (open_fds (K.socket domain type protocol s).1)
  pub accept_opens :
      (fd : ℤ) (s : K.State) → Opens (open_fds s) (K.accept fd s).0 (open_fds (K.accept fd s).1)
  pub close_closes :
      (fd : ℤ) (s : K.State) (j : ℤ) → open_fds (K.close fd s).1 j ≡ closed fd (open_fds s) j
  pub bind_keeps :
      (fd : ℤ) (path : List ℕ) (s : K.State) (j : ℤ)
      → open_fds (K.bind fd path s).1 j ≡ open_fds s j
  pub listen_keeps :
      (fd : ℤ) (n : ℕ) (s : K.State) (j : ℤ) → open_fds (K.listen fd n s).1 j ≡ open_fds s j
  pub connect_keeps :
      (fd : ℤ) (path : List ℕ) (s : K.State) (j : ℤ)
      → open_fds (K.connect fd path s).1 j ≡ open_fds s j
  pub send_keeps :
      (fd : ℤ) (bytes : List ℕ) (flags : ℕ) (s : K.State) (j : ℤ)
      → open_fds (K.send fd bytes flags s).1 j ≡ open_fds s j
  pub recv_keeps :
      (fd : ℤ) (n flags : ℕ) (s : K.State) (j : ℤ)
      → open_fds (K.recv fd n flags s).1 j ≡ open_fds s j
  pub sendto_keeps :
      (fd : ℤ) (bytes : List ℕ) (flags : ℕ) (path : List ℕ) (s : K.State) (j : ℤ)
      → open_fds (K.sendto fd bytes flags path s).1 j ≡ open_fds s j
  pub recvfrom_keeps :
      (fd : ℤ) (n flags : ℕ) (s : K.State) (j : ℤ)
      → open_fds (K.recvfrom fd n flags s).1 j ≡ open_fds s j

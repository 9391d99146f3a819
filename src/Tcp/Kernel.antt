-- ===== src/Tcp/Kernel.antt =====
-- The calls that the programs of tcp_ip_programming/just_study make on TCP sockets.
use linux_programming_exampl.Prelude.{
  ℕ, suc, ◌≤◌, ◌≡◌, ℤ, Option, none, some, List, [], ◌∷◌, ◌++◌, length, take,
}

-- `BUFSIZ` of the GNU C library.
abbrev pub bufsiz : ℕ
bufsiz = 8192

-- A static array of `BUFSIZ` bytes.
abbrev pub IsBuffer : List ℕ → Type 0
IsBuffer buf = length buf ≡ bufsiz

-- `bind` takes the port (for the address INADDR_ANY), `connect` the address as a text and the port.
-- `read` gives the bytes, or `none` for -1; `write` takes the buffer and the number of bytes.
-- `accept` has the outer `none` for a process that waits for good. `scanf` is the word that the
-- user types, and `readdir` the names in the directory, or `none` when it cannot be opened.
pub record TcpOs : Type 1 where
  pub State : Type 0
  pub socket : State → ℤ × State
  pub bind : ℤ → ℕ → State → ℤ × State
  pub listen : ℤ → ℕ → State → ℤ × State
  pub accept : ℤ → State → Option (ℤ × State)
  pub connect : ℤ → List ℕ → ℕ → State → ℤ × State
  pub read : ℤ → ℕ → State → Option (List ℕ) × State
  pub write : ℤ → List ℕ → ℕ → State → ℤ × State
  pub close : ℤ → State → ℤ × State
  pub fork : State → ℤ × State
  pub scanf : State → List ℕ × State
  pub readdir : State → Option (List (ℕ × List ℕ)) × State

-- A connection: its descriptor, what its peer has still to send before it closes its side, and what
-- it was sent.
pub record Connection : Type 0 where
  pub fd : ℤ
  pub input : List ℕ
  pub output : List ℕ

-- The world around a server: the peers that will connect, each with what it sends; the connection
-- that the server has accepted; and what was sent on the closed ones.
pub record View : Type 0 where
  pub pending : List (List ℕ)
  pub current : Option Connection
  pub answered : List (List ℕ)

abbrev pub connected : ℤ → List ℕ → List ℕ → Option Connection
connected fd i o = some (record { fd = fd; input = i; output = o })

-- Between two connections.
abbrev pub idle : List (List ℕ) → List (List ℕ) → View
idle p a = record { pending = p; current = none; answered = a }

-- tcp(7), for a server that serves one peer after the other, and peers that take all that is sent.
-- `read` may give less than there is, but not nothing before the end.
pub record Serves (K : TcpOs) : Type 1 where
  pub view : K.State → View
  pub accepts :
      (s_socket : ℤ) (s : K.State) (i : List ℕ) (rest : List (List ℕ))
      → (view s).pending ≡ i ∷ rest
      → (view s).current ≡ none
      → (fd : ℤ) × (s' : K.State) × (K.accept s_socket s ≡ some (fd, s'))
        × (view s'
            ≡ record { pending = rest; current = connected fd i []; answered = (view s).answered })
  pub reads :
      (fd : ℤ) (n : ℕ) (s : K.State) (i o : List ℕ)
      → (view s).current ≡ connected fd i o
      → (bytes : List ℕ) × (rest : List ℕ) × ((K.read fd (suc n) s).0 ≡ some bytes)
        × (length bytes ≤ suc n)
        × (i ≡ bytes ++ rest)
        × (length bytes ≡ 0 → i ≡ [])
        × (view (K.read fd (suc n) s).1 ≡ record (view s) { current = connected fd rest o })
  pub writes :
      (fd : ℤ) (buf : List ℕ) (n : ℕ) (s : K.State) (i o : List ℕ)
      → (view s).current ≡ connected fd i o
      → n ≤ length buf
      → view (K.write fd buf n s).1 ≡ record (view s) { current = connected fd i (o ++ take n buf) }
  pub closes :
      (fd : ℤ) (s : K.State) (i o : List ℕ)
      → (view s).current ≡ connected fd i o
      → view (K.close fd s).1 ≡ idle (view s).pending ((view s).answered ++ (o ∷ []))
  pub lists : (s : K.State) → view (K.readdir s).1 ≡ view s

-- ===== src/Chat/Server/Hosts.antt =====
-- The machine that the chatting server runs on, and what is to be seen of it.
use linux_programming_exampl.Prelude.{
  ℕ, suc, ◌+◌, ◌≤◌, ◌≡◌, ℤ, pos, true, Option, none, some, List, [], ◌∷◌, ◌++◌, length, take,
}
use linux_programming_exampl.Program.{Output, int, text, printf}
use linux_programming_exampl.Chat.Kernel.{ChatOs, id_len}
use linux_programming_exampl.Chat.Id.Create.{AllIdChars}

-- The connection that is open, with its descriptor and what was written to it.
abbrev pub Connection : Type 0
Connection = Option (ℤ × List ℕ)

-- What the user will type, how many peers are waiting, the open connection, what was sent on those
-- that were closed, and the lines of the file.
pub record Rooms : Type 0 where
  pub typed : List ℤ
  pub peers : ℕ
  pub current : Connection
  pub sent : List (List ℕ)
  pub book : List Output

abbrev pub rooms : List ℤ → ℕ → Connection → List (List ℕ) → List Output → Rooms
rooms t p c a b = record { typed = t; peers = p; current = c; sent = a; book = b }

-- A machine where all calls succeed, the process that it runs the server in, and the listening socket.
-- A connection is one from `accept` to the `close` of its descriptor, and takes what is written to this
-- descriptor.
pub record Hosts (K : ChatOs) (pid s_socket : ℤ) : Type 1 where
  pub view : K.tcp.State → Rooms
  pub scans :
      (s : K.tcp.State) (m : ℤ) (t : List ℤ) (p : ℕ) (c : Connection) (a : List (List ℕ))
      (b : List Output)
      → view s ≡ rooms (m ∷ t) p c a b
      → ((K.scanf s).0 ≡ some m) × (view (K.scanf s).1 ≡ rooms t p c a b)
  pub accepts :
      (s : K.tcp.State) (t : List ℤ) (p : ℕ) (a : List (List ℕ)) (b : List Output)
      → view s ≡ rooms t (suc p) none a b
      → (fd : ℤ) × (s' : K.tcp.State) × (K.tcp.accept s_socket s ≡ some (fd, s'))
        × (view s' ≡ rooms t p (some (fd, [])) a b)
  pub pipes : (n : ℕ) (s : K.tcp.State) → view (K.pipe n s).1 ≡ view s
  pub forks :
      (s : K.tcp.State)
      → (child : ℕ) × ((K.tcp.fork s).0 ≡ pos (suc child)) × (view (K.tcp.fork s).1 ≡ view s)
  pub seeds : (s : K.tcp.State) → view (K.srand s) ≡ view s
  pub draws : (s : K.tcp.State) → view (K.rand s).1 ≡ view s
  pub writes :
      (fd : ℤ) (o buf : List ℕ) (n : ℕ) (s : K.tcp.State) (t : List ℤ) (p : ℕ) (a : List (List ℕ))
      (b : List Output)
      → view s ≡ rooms t p (some (fd, o)) a b
      → n ≤ length buf
      → view (K.tcp.write fd buf n s).1 ≡ rooms t p (some (fd, o ++ take n buf)) a b
  pub opens :
      (s : K.tcp.State) → ((K.fopen_append s).0 ≡ true) × (view (K.fopen_append s).1 ≡ view s)
  pub prints :
      (o : Output) (s : K.tcp.State) (t : List ℤ) (p : ℕ) (c : Connection) (a : List (List ℕ))
      (b : List Output)
      → view s ≡ rooms t p c a b
      → view (K.fprintf o s) ≡ rooms t p c a (b ++ (o ∷ []))
  pub fcloses : (s : K.tcp.State) → view (K.fclose s) ≡ view s
  pub closes :
      (fd : ℤ) (o : List ℕ) (s : K.tcp.State) (t : List ℤ) (p : ℕ) (a : List (List ℕ))
      (b : List Output)
      → view s ≡ rooms t p (some (fd, o)) a b
      → view (K.tcp.close fd s).1 ≡ rooms t p none (a ++ (o ∷ [])) b
  pub same_pid : (s : K.tcp.State) → K.getpid s ≡ pid

abbrev pub IsId : List ℕ → Type 0
IsId id = (length id ≡ id_len) × AllIdChars id

abbrev pub AllIds : List (List ℕ) → Type 0
AllIds [] = Unit
AllIds (id ∷ l) = IsId id × AllIds l

abbrev pub line : ℕ → List ℕ → ℤ → Output
line count id pid = printf "%d %s %d\n" (int (pos count) ∷ text id ∷ int pid ∷ [])

-- The lines of the rooms behind the first `count` ones.
abbrev pub lines : ℕ → ℤ → List (List ℕ) → List Output
lines count pid [] = []
lines count pid (id ∷ l) = line (count + 1) id pid ∷ lines (count + 1) pid l

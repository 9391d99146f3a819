-- ===== src/Tcp/Tests.antt =====
-- A machine whose peers are lists of bytes, of which it gives one at a time, and the theorems on it.
use linux_programming_exampl.Prelude.{
  ℕ, suc, ◌≤◌, ◌≡◌, refl, ℤ, pos, minus_one, Option, none, some, List, [], ◌∷◌, ◌++◌, map, arith,
  length, take, replicate, length-replicate,
}
use linux_programming_exampl.Program.{World, running}
use linux_programming_exampl.CMemory.{codes, strcmp_eq}
use linux_programming_exampl.Tcp.Kernel.{TcpOs, Serves, View, connected, idle, bufsiz}
use linux_programming_exampl.Tcp.Basic.Service.{hello, server_main_answers}
use linux_programming_exampl.Tcp.Hello.Service.{reply, hello_server_refines}
use linux_programming_exampl.Tcp.Hello.Request.{IsWord}
use linux_programming_exampl.Tcp.Basic
use linux_programming_exampl.Tcp.Hello
use linux_programming_exampl.Tcp.EchoServer
use linux_programming_exampl.Tcp.Ls
use linux_programming_exampl.Tcp.EchoServer.Service.{echo_server_refines}
use linux_programming_exampl.Tcp.Ls.Service.{ls_server_lists}

abbrev get_byte : View → Option (List ℕ) × View
get_byte s = elim s.current [
  | none ↦ (none, s)
  | some c ↦ elim c.input [
    | [] ↦ (some [], s)
    | b ∷ rest ↦ (some (b ∷ []), record s { current = connected c.fd rest c.output })
  ]
]

abbrev put : List ℕ → ℕ → View → View
put buf n s = elim s.current [
  | none ↦ s
  | some c ↦ record s { current = connected c.fd c.input (c.output ++ take n buf) }
]

abbrev take_peer : View → Option (ℤ × View)
take_peer s = elim s.pending [
  | [] ↦ none
  | i ∷ l ↦
      some (pos 4, record { pending = l; current = connected (pos 4) i []; answered = s.answered })
]

abbrev hang_up : View → View
hang_up s = elim s.current [ none ↦ s | some c ↦ idle s.pending (s.answered ++ (c.output ∷ [])) ]

abbrev dir : List (ℕ × List ℕ)
dir = (7, codes "." ++ (0 ∷ [])) ∷ (0, codes "old" ++ (0 ∷ [])) ∷ (9, codes "ls.c" ++ (0 ∷ [])) ∷ []

abbrev toy : TcpOs
toy = record {
  State = View;
  socket = λ s. (pos 3, s);
  bind = λ fd port s. (pos 0, s);
  listen = λ fd n s. (pos 0, s);
  accept = λ fd s. take_peer s;
  connect = λ fd a p s. (minus_one, s);
  read = λ fd n s. get_byte s;
  write = λ fd buf n s. (pos n, put buf n s);
  close = λ fd s. (pos 0, hang_up s);
  fork = λ s. (minus_one, s);
  scanf = λ s. ([], s);
  readdir = λ s. (some dir, s);
}

toy_accepts :
    (s : View) (i : List ℕ) (rest : List (List ℕ))
    → s.pending ≡ i ∷ rest
    → (fd : ℤ) × (s' : View) × (take_peer s ≡ some (fd, s'))
      × (s' ≡ record { pending = rest; current = connected fd i []; answered = s.answered })
toy_accepts s i rest p = (
  pos 4,
  record { pending = rest; current = connected (pos 4) i []; answered = s.answered },
  rw p refl,
  refl,
)

toy_reads :
    (fd : ℤ) (n : ℕ) (s : View) (i o : List ℕ)
    → s.current ≡ connected fd i o
    → (bytes : List ℕ) × (rest : List ℕ) × ((get_byte s).0 ≡ some bytes)
      × (length bytes ≤ suc n)
      × (i ≡ bytes ++ rest)
      × (length bytes ≡ 0 → i ≡ [])
      × ((get_byte s).1 ≡ record s { current = connected fd rest o })
toy_reads fd n s [] o c = ([], [], rw c refl, omega arith, refl, λ e. refl, rw c refl)
toy_reads fd n s (b ∷ rest) o c =
    (b ∷ [], rest, rw c refl, omega arith, refl, λ e. absurd (omega arith), rw c refl)

toy-Serves : Serves toy
toy-Serves = record {
  view = λ s. s;
  accepts = λ s_socket s i rest p c. toy_accepts s i rest p;
  reads = λ fd n s i o c. toy_reads fd n s i o c;
  writes = λ fd buf n s i o c h. rw c refl;
  closes = λ fd s i o c. rw c refl;
  lists = λ s. refl;
}

abbrev peers : List (List ℕ)
peers = codes "hi" ∷ codes "you" ∷ []

abbrev start : List (List ℕ) → World View
start l = record { os = idle l []; out = [] }

abbrev zeros : List ℕ
zeros = replicate bufsiz 0

server_main_answers_example :
    (w' : World View) × (Basic.server_main toy 2 (start peers) ≡ some (running, w'))
    × (w'.os ≡ idle [] (map hello peers))
unfolding toy-Serves
server_main_answers_example =
    server_main_answers toy toy-Serves peers (start peers) (pos 3) (idle peers []) (idle peers [])
      (idle peers []) refl refl refl refl

echo_server_refines_example :
    (w' : World View) × (EchoServer.server_main toy 4 zeros 2 (start peers) ≡ some (running, w'))
    × (w'.os ≡ idle [] peers)
unfolding toy-Serves
echo_server_refines_example =
    echo_server_refines toy toy-Serves 4 zeros peers (start peers) (pos 3) (idle peers [])
      (idle peers []) (idle peers []) refl refl refl refl (length-replicate {A = ℕ} bufsiz 0)
      (omega arith, (omega arith, tt))

-- The requests of 2.hello_world: the word, and another one.
abbrev requests : List (List ℕ)
requests = (codes "print" ++ (0 ∷ [])) ∷ (codes "no" ++ (0 ∷ [])) ∷ []

print-IsWord : IsWord (codes "print")
print-IsWord = grind arith

no-IsWord : IsWord (codes "no")
no-IsWord = grind arith

hello_server_refines_example :
    (w' : World View) × (Hello.server_main toy 9 zeros 2 (start requests) ≡ some (running, w'))
    × (w'.os ≡ idle [] (map reply requests))
unfolding toy-Serves
hello_server_refines_example =
    hello_server_refines toy toy-Serves 9 zeros requests (start requests) (pos 3) (idle requests [])
      (idle requests []) (idle requests []) refl refl refl refl (length-replicate {A = ℕ} bufsiz 0)
      (
        (codes "print", [], refl, print-IsWord, omega arith, omega arith),
        ((codes "no", [], refl, no-IsWord, omega arith, omega arith), tt),
      )

ls_server_lists_example :
    (w' : World View) × (Ls.server_main toy zeros 2 (start peers) ≡ some (running, w'))
    × (w'.os ≡ idle [] (map (λ (i : List ℕ). codes ". ls.c ") peers))
unfolding toy-Serves strcmp_eq
ls_server_lists_example =
    ls_server_lists toy toy-Serves dir (λ s. refl) zeros peers (start peers) (pos 3) (idle peers [])
      (idle peers []) (idle peers []) refl refl refl refl refl

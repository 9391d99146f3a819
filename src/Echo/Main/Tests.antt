-- ===== src/Echo/Main/Tests.antt =====
-- A machine for the parent, one for a child, and the theorems on them.
use linux_programming_exampl.Prelude.{
  ℕ, zero, suc, ◌≤◌, ◌≡◌, refl, ap, ℤ, pos, minus_one, int_eq, if◌then◌else◌, Bool, Option, none,
  some, List, [], ◌∷◌, ◌++◌, arith, length, take, drop, true, false,
}
use linux_programming_exampl.Program.{World, running}
use linux_programming_exampl.CMemory.{codes}
use linux_programming_exampl.Tcp.Kernel.{TcpOs, bufsiz}
use linux_programming_exampl.Echo.Kernel.{IsConnection}
use linux_programming_exampl.Echo.Main.{server_main, echo_os}
use linux_programming_exampl.Echo.Main.Parent.{Parent, parent, IsParent, server_main_parent}
use linux_programming_exampl.Echo.Main.Child.{IsChild}

abbrev take_peer : Parent → Option (ℤ × Parent)
take_peer s = elim s.waiting [
  | zero ↦ none
  | suc n ↦ some (pos 4, parent n (pos 4 ∷ s.open_fds) s.children)
]

abbrev machine : TcpOs
machine = record {
  State = Parent;
  socket = λ s. (pos 3, s);
  bind = λ fd port s. (pos 0, s);
  listen = λ fd n s. (pos 0, s);
  accept = λ fd s. take_peer s;
  connect = λ fd a p s. (minus_one, s);
  read = λ fd n s. (none, s);
  write = λ fd buf n s. (minus_one, s);
  close = λ fd s. (pos 0, parent s.waiting (drop 1 s.open_fds) s.children);
  fork = λ s. (pos 100, parent s.waiting s.open_fds (suc s.children));
  scanf = λ s. ([], s);
  readdir = λ s. (none, s);
}

machine-IsParent : IsParent machine
machine-IsParent = record {
  view = λ s. s;
  accepts = λ s_socket s n k l v. (pos 4, parent n (pos 4 ∷ l) k, rw v refl, refl);
  forks = λ s n k l v. (99, refl, rw v refl);
  closes = λ fd s n k l v. rw v refl;
}

abbrev five : World Parent
five = record { os = parent 5 (pos 3 ∷ []) 0; out = [] }

server_main_parent_example :
    (s : Parent) × (server_main machine 1 [] 4 five ≡ some (running, record { os = s; out = [] }))
    × (s ≡ parent 1 (pos 3 ∷ []) 4)
unfolding machine-IsParent
server_main_parent_example =
    server_main_parent machine machine-IsParent 1 [] 4 1 0 (pos 3 ∷ []) five (pos 3) five.os five.os
      five.os refl refl refl refl

record Process : Type 0 where
  input : List ℕ
  output : List ℕ
  listens : Bool
  children : ℕ

-- The connection gives a byte at a time.
abbrev get_byte : Process → Option (List ℕ) × Process
get_byte s = elim s.input [ [] ↦ (some [], s) | b ∷ l ↦ (some (b ∷ []), record s { input = l }) ]

-- The listening socket is 3 and the connection is 4.
abbrev read_from : ℤ → Process → Option (List ℕ) × Process
read_from fd s = if int_eq fd (pos 4) then get_byte s else (none, s)

abbrev write_to : ℤ → List ℕ → ℕ → Process → ℤ × Process
write_to fd buf n s =
    if int_eq fd (pos 4)
    then (pos n, record s { output = s.output ++ take n buf })
    else (minus_one, s)

abbrev accepted : Bool → ℤ
accepted true = pos 4
accepted false = minus_one

abbrev child_os : TcpOs
child_os = record {
  State = Process;
  socket = λ s. (pos 3, s);
  bind = λ fd port s. (pos 0, s);
  listen = λ fd n s. (pos 0, s);
  accept = λ fd s. some (accepted s.listens, s);
  connect = λ fd a p s. (minus_one, s);
  read = λ fd n s. read_from fd s;
  write = λ fd buf n s. write_to fd buf n s;
  close = λ fd s. elim (int_eq fd (pos 3)) [
    | true ↦ (pos 0, record s { listens = false })
    | false ↦ (pos 0, s)
  ];
  fork = λ s. elim s.listens [
    | true ↦ (pos 0, s)
    | false ↦ (pos 100, record s { children = suc s.children })
  ];
  scanf = λ s. ([], s);
  readdir = λ s. (none, s);
}

child_reads :
    (l o : List ℕ) (b : Bool) (k : ℕ)
    → let s : Process = record { input = l; output = o; listens = b; children = k } in
      (bytes : List ℕ) × ((get_byte s).0 ≡ some bytes)
      × (length bytes ≤ bufsiz)
      × (l ≡ bytes ++ (get_byte s).1.input)
      × ((get_byte s).1.output ≡ o)
      × (length bytes ≡ 0 → l ≡ [])
child_reads [] o b k = ([], refl, omega arith, refl, refl, λ e. refl)
child_reads (x ∷ l) o b k = (x ∷ [], refl, omega arith, refl, refl, λ e. absurd (omega arith))

child_keeps :
    (l o : List ℕ) (b : Bool) (k : ℕ)
    → let s : Process = record { input = l; output = o; listens = b; children = k } in
      b ≡ false → ((get_byte s).1.listens ≡ false) × ((get_byte s).1.children ≡ k)
child_keeps [] o b k h = (h, refl)
child_keeps (x ∷ l) o b k h = (h, refl)

child-IsConnection : IsConnection (echo_os child_os) (pos 4)
child-IsConnection = record {
  input = λ s. s.input;
  output = λ s. s.output;
  reads = λ s. child_reads s.input s.output s.listens s.children;
  writes = λ buf n s h. (refl, refl);
}

child-IsChild : IsChild child_os (pos 3) (pos 4)
unfolding child-IsConnection
child-IsChild = record {
  distinct = refl;
  connection = child-IsConnection;
  Closed = λ s. s.listens ≡ false;
  children = λ s. s.children;
  closes = λ s. (refl, refl, refl, refl);
  reads = λ n s h. child_keeps s.input s.output s.listens s.children h;
  read_closed = λ n s h. refl;
  writes = λ buf n s h. (h, refl);
  accept_closed = λ s h. (s, ap (λ b. some (accepted b, s)) h, h, refl, refl);
  forks = λ s h. (99, rw h refl, rw h h, rw h refl, rw h refl);
  close_none = λ s h. (h, refl, refl);
}

abbrev newborn : World Process
newborn = record {
  os = record { input = codes "hi"; output = []; listens = true; children = 0 };
  out = [];
}

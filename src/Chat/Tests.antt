-- ===== src/Chat/Tests.antt =====
-- A machine with a clock that stands still, and the theorems on it.
use linux_programming_exampl.Prelude.{
  ℕ, zero, suc, ◌+◌, ◌*◌, ◌%◌, ◌≡◌, refl, ap, ℤ, pos, minus_one, int_eq, int_eq_refl, if◌then◌else◌,
  true, Option, none, some, List, [], ◌∷◌, ◌++◌, arith, length, take, drop, replicate, get_elem?,
}
use linux_programming_exampl.Program.{World, Output}
use linux_programming_exampl.CMemory.{codes}
use linux_programming_exampl.Tcp.Kernel.{TcpOs}
use linux_programming_exampl.Chat.Kernel.{ChatOs, success}
use linux_programming_exampl.Chat.Id.{create_id, store_id}
use linux_programming_exampl.Chat.Id.Create.{
  IsGenerator, AllIdChars, create_id_overflows, create_id_repeats,
}
use linux_programming_exampl.Chat.Id.Table.{pid_field, store_id-store_id}
use linux_programming_exampl.Chat.Server.{Locals}
use linux_programming_exampl.Chat.Server.Hosts.{Connection, Rooms, rooms, Hosts}

record Machine : Type 0 where
  typed : List ℤ
  peers : ℕ
  current : Connection
  sent : List (List ℕ)
  book : List Output
  seed : ℕ
  clock : ℕ

abbrev take_peer : ℕ → Machine → Option (ℤ × Machine)
take_peer zero s = none
take_peer (suc n) s = some (pos 4, record s { peers = n; current = some (pos 4, []) })

-- Only the open connection can be written to and closed.
abbrev current_of : Connection → ℤ → Option (List ℕ)
current_of c fd = elim c [ none ↦ none | some (x, o) ↦ if int_eq x fd then some o else none ]

abbrev write_to : ℤ → List ℕ → ℕ → Machine → ℤ × Machine
write_to fd buf n s = elim (current_of s.current fd) [
  | none ↦ (minus_one, s)
  | some o ↦ (pos n, record s { current = some (fd, o ++ take n buf) })
]

abbrev close_it : ℤ → Machine → ℤ × Machine
close_it fd s = elim (current_of s.current fd) [
  | none ↦ (minus_one, s)
  | some o ↦ (pos 0, record s { current = none; sent = s.sent ++ (o ∷ []) })
]

abbrev machine_tcp : TcpOs
machine_tcp = record {
  State = Machine;
  socket = λ s. (pos 3, s);
  bind = λ fd port s. (pos 0, s);
  listen = λ fd n s. (pos 0, s);
  accept = λ fd s. take_peer s.peers s;
  connect = λ fd a p s. (minus_one, s);
  read = λ fd n s. (none, s);
  write = λ fd buf n s. write_to fd buf n s;
  close = λ fd s. close_it fd s;
  fork = λ s. (pos 100, s);
  scanf = λ s. ([], s);
  readdir = λ s. (none, s);
}

abbrev machine : ChatOs
machine = record {
  tcp = machine_tcp;
  srand = λ s. record s { seed = s.clock };
  rand = λ s. (s.seed, record s { seed = (s.seed * 7 + 3) % 101 });
  fopen_append = λ s. (true, s);
  fopen_write = λ s. (true, s);
  fprintf = λ o s. record s { book = s.book ++ (o ∷ []) };
  fclose = λ s. s;
  system_rm = λ s. record s { book = [] };
  getpid = λ s. pos 42;
  scanf = λ s. (get_elem? s.typed 0, record s { typed = drop 1 s.typed });
  pipe = λ n s. (pos 0, s);
}

abbrev view_of : Machine → Rooms
view_of s = rooms s.typed s.peers s.current s.sent s.book

machine_accepts :
    (s : Machine) (t : List ℤ) (p : ℕ) (a : List (List ℕ)) (b : List Output)
    → view_of s ≡ rooms t (suc p) none a b
    → (fd : ℤ) × (s' : Machine) × (take_peer s.peers s ≡ some (fd, s'))
      × (view_of s' ≡ rooms t p (some (fd, [])) a b)
machine_accepts s t p a b v = (
  pos 4,
  record s { peers = p; current = some (pos 4, []) },
  ap (λ (r : Rooms). take_peer r.peers s) v,
  ap (λ (r : Rooms). rooms r.typed p (some (pos 4, [])) r.sent r.book) v,
)

machine-Hosts : Hosts machine (pos 42) (pos 3)
machine-Hosts = record {
  view = view_of;
  scans = λ s m t p c a b v. (
    ap (λ (r : Rooms). get_elem? r.typed 0) v,
    ap (λ (r : Rooms). rooms (drop 1 r.typed) r.peers r.current r.sent r.book) v,
  );
  accepts = λ s t p a b v. machine_accepts s t p a b v;
  pipes = λ n s. refl;
  forks = λ s. (99, refl, refl);
  seeds = λ s. refl;
  draws = λ s. refl;
  writes = λ fd o buf n s t p a b v h. ground (arith, v, int_eq_refl fd);
  opens = λ s. (refl, refl);
  prints = λ o s t p c a b v.
      ap (λ (r : Rooms). rooms r.typed r.peers r.current r.sent (r.book ++ (o ∷ []))) v;
  fcloses = λ s. refl;
  closes = λ fd o s t p a b v. ground (arith, v, int_eq_refl fd);
  same_pid = λ s. refl;
}

machine-IsGenerator : IsGenerator machine
machine-IsGenerator = record {
  Gen = ℕ;
  gen = λ s. s.seed;
  clock = λ s. s.clock;
  seeded = λ s t e. e;
  settled = λ s t e. (e, ap (λ (k : ℕ). (k * 7 + 3) % 101) e);
}

abbrev world : World Machine
world = record {
  os = record {
    typed = pos 1 ∷ pos 1 ∷ pos 2 ∷ [];
    peers = 3;
    current = none;
    sent = [];
    book = [];
    seed = 0;
    clock = 1646000000;
  };
  out = [];
}

abbrev locals : Locals
locals = record {
  menu = pos 0;
  chatting_room_count = 0;
  random_id = replicate 8 0;
  chatting_room = replicate 32 0;
}

create_id_overflows_example :
    (ids : List ℕ) × (w' : World Machine) × (create_id machine (replicate 8 0) 8 world
      ≡ some ((success, ids ++ (0 ∷ [])), w'))
    × (length ids ≡ 8)
    × AllIdChars ids
    × (length (ids ++ (0 ∷ [])) ≡ 9)
create_id_overflows_example = create_id_overflows machine 7 (replicate 8 0) world refl

create_id_repeats_example :
    (id : List ℕ) × (w' : World Machine) × (v' : World Machine) × (create_id machine
        (replicate 8 0)
        8
        world
      ≡ some ((success, id), w'))
    × (create_id machine (replicate 9 7) 8 (record world { os = record world.os { seed = 5 } })
        ≡ some ((success, id), v'))
unfolding machine-IsGenerator
create_id_repeats_example =
    create_id_repeats machine machine-IsGenerator 7 (replicate 8 0) (replicate 9 7) world
      (record world { os = record world.os { seed = 5 } }) (omega arith) (omega arith) refl

store_id-store_id_example :
    (id1 : List ℕ) × (w1 : World Machine) × (id2 : List ℕ) × (w2 : World Machine) × (store_id
        machine
        (replicate 32 0)
        (codes "ABCDEFGH" ++ (0 ∷ []))
        1
        world
      ≡ some (id1, w1))
    × (store_id machine id1 (codes "01234567" ++ (0 ∷ [])) 2 w1 ≡ some (id2, w2))
    × (store_id machine (replicate 32 0) (codes "01234567" ++ (0 ∷ [])) 2 w1 ≡ some (id2, w2))
    × (pid_field id2 ≡ codes "4567")
store_id-store_id_example =
    store_id-store_id machine (replicate 32 0) (codes "ABCDEFGH" ++ (0 ∷ []))
      (codes "01234567" ++ (0 ∷ [])) 1 world world.os _ (omega arith) (omega arith) refl refl

-- ===== src/Socket/Tests.antt =====
-- A kernel that meets what Socket.Kernel assumes, and the theorems about socket_example/main.c on it.
use linux_programming_exampl.Prelude.{
  ℕ, ◌≡◌, refl, sym, ap, ◌⊎◌, inl, inr, ℤ, pos, minus_one, int_eq, Bool, true, false, not, ◌&&◌,
  ◌||◌, some, List, [], ◌∷◌, ◌++◌, arith, if◌then◌else◌, length, take, drop, replicate, length-take,
  take-append-drop, min,
}
use linux_programming_exampl.Program.{World, text, printf}
use linux_programming_exampl.CMemory.{codes, c_str, overwrite}
use linux_programming_exampl.Socket.{
  partial_message_recv, partial_message_send, recv_stream, recv_datagram, send_stream, do_recv_data,
  sock_dgram, buf_max_len, sizeof_pointer,
}
use linux_programming_exampl.Socket.Kernel.{SocketOs, IsStream, TracksFds, Opens}
use linux_programming_exampl.Socket.Recv.{Received, partial_message_recv_total}
use linux_programming_exampl.Socket.Send.{Sent, partial_message_send_total}
use linux_programming_exampl.Socket.Session.{conversation, said_message}
use linux_programming_exampl.Socket.Descriptors.{do_recv_data_closes}

-- A process with two descriptors at most, 3 and 4, and one connection that moves three bytes at a time.
record Toy : Type 0 where
  three : Bool
  four : Bool
  out : List ℕ
  in_ : List ℕ

abbrev open_one : Toy → ℤ × Toy
open_one t =
    if not t.three
    then (pos 3, record t { three = true })
    else if not t.four
    then (pos 4, record t { four = true })
    else (minus_one, t)

abbrev toy : SocketOs
toy = record {
  State = Toy;
  socket = λ d t p s. open_one s;
  bind = λ fd path s. (pos 0, s);
  listen = λ fd n s. (pos 0, s);
  accept = λ fd s. open_one s;
  connect = λ fd path s. (pos 0, s);
  send = λ fd bytes flags s.
      (some (min 3 (length bytes)), record s { out = s.out ++ take (min 3 (length bytes)) bytes });
  recv = λ fd n flags s. (some (take (min 3 n) s.in_), record s { in_ = drop (min 3 n) s.in_ });
  sendto = λ fd bytes flags path s. (some (length bytes), s);
  recvfrom = λ fd n flags s. (some (take n s.in_), record s { in_ = [] });
  close = λ fd s. (
    pos 0,
    record s {
      three = not (int_eq fd (pos 3)) && s.three;
      four = not (int_eq fd (pos 4)) && s.four;
    },
  );
}

toy_recv : (n : ℕ) (stream : List ℕ) → length (take (min 3 n) stream) ≡ 0 → (n ≡ 0) ⊎ (stream ≡ [])
toy_recv n [] h = inr refl
toy_recv n (x ∷ xs) h = inl (omega (arith, length-take (min 3 n) (x ∷ xs)))

toy-IsStream : IsStream toy
toy-IsStream = record {
  sent = λ s fd. s.out;
  pending = λ s fd. s.in_;
  send_taken = λ fd bytes flags s n e h.
      let k : min 3 (length bytes) ≡ n = cc in
      (omega arith, omega arith, ap (λ m. s.out ++ take m bytes) k);
  send_failed = λ fd bytes flags s e. absurd (cc);
  recv_stored = λ fd n flags s bytes e.
      let k : take (min 3 n) s.in_ ≡ bytes = cc in
      (
        rw (sym k) (omega (arith, length-take (min 3 n) s.in_)),
        rw (sym k) (sym (take-append-drop (min 3 n) s.in_)),
        λ z. toy_recv n s.in_ (rw (sym k) at z),
      );
  recv_failed = λ fd n flags s e. absurd (cc);
  close_sent = λ fd s. refl;
}

abbrev fds : Toy → ℤ → Bool
fds t j = (int_eq (pos 3) j && t.three) || (int_eq (pos 4) j && t.four)

open_one-Opens : (t : Toy) → Opens (fds t) (open_one t).0 (fds (open_one t).1)
open_one-Opens t = record { was_closed = ground arith; is_opened = λ j. ground arith }

toy-TracksFds : TracksFds toy
toy-TracksFds = record {
  open_fds = fds;
  socket_opens = λ d t p s. open_one-Opens s;
  accept_opens = λ fd s. open_one-Opens s;
  close_closes = λ fd s j. ground arith;
  bind_keeps = λ fd path s j. refl;
  listen_keeps = λ fd n s j. refl;
  connect_keeps = λ fd path s j. refl;
  send_keeps = λ fd bytes flags s j. refl;
  recv_keeps = λ fd n flags s j. refl;
  sendto_keeps = λ fd bytes flags path s j. refl;
  recvfrom_keeps = λ fd n flags s j. refl;
}

-- A stream of ten bytes to come.
abbrev world : List ℕ → World Toy
world stream = record {
  os = record { three = false; four = false; out = []; in_ = stream };
  out = [];
}

abbrev ten : List ℕ
ten = codes "0123456789"

partial_message_recv_total_example :
    (status : ℤ) × (buf' : List ℕ) × (w' : World Toy) × (partial_message_recv toy 6
        (pos 4)
        (replicate 5 0)
        5
        0
        (world ten)
      ≡ some ((status, buf'), w'))
    × Received (replicate 5 0) ten 5 [] status buf' w'.os.in_ w'.out
unfolding toy-IsStream
partial_message_recv_total_example =
    partial_message_recv_total toy 6 toy-IsStream (pos 4) (replicate 5 0) 5 0 (world ten)
      (omega arith)

recv_five :
    partial_message_recv toy 6 (pos 4) (replicate 5 0) 5 0 (world ten)
    ≡ some (
      (pos 0, codes "01234"),
      record { os = record (world ten).os { in_ = codes "56789" }; out = [] },
    )
unfolding partial_message_recv overwrite
recv_five = refl

partial_message_send_total_example :
    (status : ℤ) × (w' : World Toy) × (partial_message_send toy 20 (pos 3) ten 8 0 (world [])
      ≡ some (status, w'))
    × Sent ten 8 [] status w'.os.out
unfolding toy-IsStream
partial_message_send_total_example =
    partial_message_send_total toy 20 toy-IsStream (pos 3) ten 8 0 (world []) (omega arith)
      (omega arith)

-- A client's message of ten bytes, with its zero byte, and the world when it has been sent.
abbrev message : List ℕ
message = ten ++ (0 ∷ [])

abbrev after_send : World Toy
after_send = record {
  os = record { three = false; four = false; out = codes "01234567"; in_ = [] };
  out = printf "send data: %s\n" (text ten ∷ []) ∷ [];
}

client_run : send_stream toy 5000 (pos 3) [] message (world []) ≡ some (pos 0, after_send)
unfolding send_stream partial_message_send c_str
client_run = refl

abbrev after_recv : World Toy
after_recv = record {
  os = record { three = false; four = false; out = []; in_ = [] };
  out = said_message (codes "01234567") ∷ [];
}

server_run :
    recv_stream toy 5000 (pos 3) (replicate buf_max_len 0) (world (codes "01234567"))
    ≡ some (pos 0, after_recv)
unfolding recv_stream partial_message_recv c_str overwrite
server_run = refl

conversation_example : after_recv.out ≡ said_message (take sizeof_pointer (c_str message)) ∷ []
unfolding toy-IsStream
conversation_example =
    conversation toy 5000 toy-IsStream (pos 3) (pos 3) [] message (world []) after_send
      (world (codes "01234567")) after_recv refl refl (omega arith) (omega arith) client_run refl
      server_run

abbrev argv : List (List ℕ)
argv = codes "sock" ∷ codes "x" ∷ codes "stream" ∷ codes "/tmp/s" ∷ []

do_recv_data_run :
    (w' : World Toy) × (do_recv_data toy 9 sock_dgram (codes "/tmp/s") (world ten)
      ≡ some (pos 0, w'))
unfolding do_recv_data recv_datagram
do_recv_data_run = (_, refl)

do_recv_data_closes_example : fds do_recv_data_run.0.os (pos 3) ≡ false
unfolding do_recv_data_run toy-TracksFds
do_recv_data_closes_example =
    do_recv_data_closes toy 9 toy-TracksFds (pos 3) sock_dgram (codes "/tmp/s") (world ten)
      do_recv_data_run.0 (pos 0) (inr refl) do_recv_data_run.1

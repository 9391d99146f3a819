-- ===== src/Udp/Tests.antt =====
-- A post office, a desk, and the theorems on them.
use linux_programming_exampl.Prelude.{
  ℕ, ◌+◌, ◌-◌, ◌≡◌, refl, ap, ℤ, pos, minus_one, int_eq, true, false, Option, none, some, List, [],
  ◌∷◌, ◌++◌, arith, take, drop, replicate, length-replicate, get_or,
}
use linux_programming_exampl.Program.{World, running, returned, text, printf}
use linux_programming_exampl.CMemory.{codes, bytes_eq}
use linux_programming_exampl.Tcp.Kernel.{bufsiz}
use linux_programming_exampl.Udp.Kernel.{UdpOs, SockaddrIn}
use linux_programming_exampl.Udp.EchoServer.{server_main}
use linux_programming_exampl.Udp.EchoServer.Replies.{
  Post, post, Datagrams, IsPost, replies, server_main-replies, server_main_discloses,
}
use linux_programming_exampl.Udp.Broadcast.{reader_main}
use linux_programming_exampl.Udp.Broadcast.Reader.{reader_main_until_quit}
use linux_programming_exampl.Udp.EchoClient.{client_main}
use linux_programming_exampl.Udp.EchoClient.Lines.{
  Desk, desk, IsDesk, IsTerminated, AllEnd, transcript, client_main_shows,
}

abbrev collect : Datagrams → Datagrams → Option (Option (List ℕ × SockaddrIn) × Post)
collect [] o = none
collect ((a, d) ∷ q) o = some (some (d, a), post q o)

abbrev office : UdpOs
office = record {
  State = Post;
  socket = λ s. (pos 3, s);
  bind = λ fd a s. (pos 0, s);
  connect = λ fd a s. (minus_one, s);
  read = λ fd n s. (none, s);
  write = λ fd buf n s. (minus_one, s);
  recvfrom = λ fd n s. collect s.queue s.sent;
  sendto = λ fd buf n a s. (pos n, post s.queue (s.sent ++ ((a, take n buf) ∷ [])));
  htons = λ n. n;
  ntohs = λ n. n;
  htonl = λ n. n;
  inet_ntoa = λ n. codes "0.0.0.0";
  inet_addr = λ l. 0;
  setsockopt_broadcast = λ fd s. (pos 0, s);
  close = λ fd s. (pos 0, s);
}

office-IsPost : IsPost office
office-IsPost = record {
  view = λ s. s;
  receives = λ sd s a d q o v h. (post q o, ap (λ (r : Post). collect r.queue r.sent) v, refl);
  sends = λ sd buf n a s q o v h.
      (n, refl, ap (λ (r : Post). post r.queue (r.sent ++ ((a, take n buf) ∷ []))) v);
}

abbrev peer : ℕ → SockaddrIn
peer n = record { sin_family = 2; s_addr = n; sin_port = 5000 }

abbrev zeros : List ℕ
zeros = replicate bufsiz 0

abbrev mail : Datagrams
mail = (peer 1, codes "secret") ∷ (peer 2, codes "hi") ∷ []

abbrev monday : World Post
monday = record { os = post mail []; out = [] }

server_main-replies_example :
    (w' : World Post) × (server_main office 2 zeros monday ≡ some (running, w'))
    × (w'.os ≡ post [] (replies zeros mail))
unfolding office-IsPost
server_main-replies_example =
    server_main-replies office office-IsPost mail [] zeros monday (pos 3) 0 monday.os monday.os refl
      refl refl (omega arith, (omega arith, tt)) (length-replicate {A = ℕ} bufsiz 0)

server_main_discloses_example :
    (w' : World Post) × (first : List ℕ) × (second : List ℕ) × (server_main office 2 zeros monday
      ≡ some (running, w'))
    × (w'.os ≡ post [] ((peer 1, first) ∷ (peer 2, second) ∷ []))
    × (take 6 second ≡ codes "hicret")
unfolding office-IsPost
server_main_discloses_example =
    server_main_discloses office office-IsPost (peer 1) (peer 2) (codes "secret") (codes "hi") []
      zeros monday (pos 3) 0 monday.os monday.os refl refl refl (omega arith) (omega arith)
      (length-replicate {A = ℕ} bufsiz 0)

abbrev read_from : ℤ → ℕ → Desk → Option (List ℕ) × Desk
read_from fd n s = elim (int_eq fd (pos 0)) [
  | true ↦ (some (get_or s.typed 0 []), desk (drop 1 s.typed) s.reply)
  | false ↦ (some (take n s.reply), desk s.typed [])
]

-- The peer answers with what it was sent and three bytes more.
abbrev counter : UdpOs
counter = record {
  State = Desk;
  socket = λ s. (pos 3, s);
  bind = λ fd a s. (minus_one, s);
  connect = λ fd a s. (pos 0, s);
  read = λ fd n s. read_from fd n s;
  write = λ fd buf n s. (pos n, desk s.typed (take n buf ++ (0 ∷ 0 ∷ 7 ∷ [])));
  recvfrom = λ fd n s. none;
  sendto = λ fd buf n a s. (minus_one, s);
  htons = λ n. n;
  ntohs = λ n. n;
  htonl = λ n. n;
  inet_ntoa = λ n. [];
  inet_addr = λ l. 0;
  setsockopt_broadcast = λ fd s. (pos 0, s);
  close = λ fd s. (pos 0, s);
}

counter-IsDesk : IsDesk counter (pos 3)
counter-IsDesk = record {
  view = λ s. s;
  types = λ s line t r v h. (
    ap (λ (d : Desk). some (get_or d.typed 0 [])) v,
    ap (λ (d : Desk). desk (drop 1 d.typed) d.reply) v,
  );
  sends = λ buf n s t r v h.
      (n, 0 ∷ 0 ∷ 7 ∷ [], refl, ap (λ (d : Desk). desk d.typed (take n buf ++ (0 ∷ 0 ∷ 7 ∷ []))) v);
  receives = λ n s t r v.
      (ap (λ (d : Desk). some (take n d.reply)) v, ap (λ (d : Desk). desk d.typed []) v);
}

abbrev typed_lines : List (List ℕ)
typed_lines = codes "hello\n" ∷ codes "hi\n" ∷ []

abbrev tuesday : World Desk
tuesday = record { os = desk typed_lines []; out = [] }

zeros-IsTerminated : IsTerminated zeros
zeros-IsTerminated = (
  replicate (bufsiz - 1) 0,
  refl,
  ap (λ (n : ℕ). n + 1) (length-replicate {A = ℕ} (bufsiz - 1) 0),
)

client_main_shows_example :
    (s : Desk) × (r : List ℕ) × (client_main counter 2 zeros tuesday
      ≡ some (running, record { os = s; out = transcript zeros typed_lines }))
    × (s ≡ desk [] r)
    × AllEnd zeros typed_lines
unfolding counter-IsDesk
client_main_shows_example =
    client_main_shows counter (pos 3) counter-IsDesk typed_lines [] zeros [] tuesday tuesday.os refl
      refl (omega arith, (omega arith, tt)) zeros-IsTerminated

abbrev news : Datagrams
news = (peer 1, codes "hello") ∷ []

abbrev wednesday : World Post
wednesday = record { os = post (news ++ ((peer 2, codes "quit now") ∷ mail)) []; out = [] }

reader_main_until_quit_example :
    (s : Post) × (reader_main office 0 (codes "reader" ∷ codes "9000" ∷ []) 3 zeros wednesday
      ≡ some (
        returned (pos 0),
        record {
          os = s;
          out =
              printf "Broadcast from %s [%s] \n"
                (text (codes "0.0.0.0") ∷ text (codes "hello") ∷ [])
              ∷ [];
        },
      ))
    × (s ≡ post mail [])
unfolding office-IsPost bytes_eq
reader_main_until_quit_example =
    reader_main_until_quit office office-IsPost (codes "reader") (codes "9000") 3 news mail (peer 2)
      (codes "quit now") zeros wednesday (pos 3) wednesday.os wednesday.os refl refl refl
      (omega arith) ((grind arith, omega arith), refl, tt) (grind arith, omega arith) refl
      (length-replicate {A = ℕ} bufsiz 0)

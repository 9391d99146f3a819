-- ===== src/Udp/Broadcast/Reader.antt =====
-- What the reader of 10.broadcasting_udp shows, and when it ends.
use linux_programming_exampl.Prelude.{
  ℕ, zero, suc, ◌<◌, ◌≡◌, ap, ◌∙◌, ℤ, pos, Bool, true, false, some, List, [], ◌∷◌, ◌++◌, map,
  length, take, arith, append-nil, append_assoc,
}
use linux_programming_exampl.Program.{World, Output, returned, text, printf, moved, said}
use linux_programming_exampl.CMemory.{codes, c_str, bytes_eq, overwrite, atoi}
use linux_programming_exampl.CMemory.Laws.{NoZero, length-overwrite, take-overwrite}
use linux_programming_exampl.CMemory.Buffers.{c_str-overwrite_zero}
use linux_programming_exampl.Tcp.Kernel.{bufsiz, IsBuffer}
use linux_programming_exampl.Semaphore.Sysv.{to_u16}
use linux_programming_exampl.Udp.Kernel.{UdpOs, SockaddrIn, af_inet}
use linux_programming_exampl.Udp.EchoServer.{inaddr_any}
use linux_programming_exampl.Udp.EchoServer.Replies.{post, Datagrams, IsPost}
use linux_programming_exampl.Udp.Broadcast.{strncmp_eq, received, reader_loop, reader_main}

-- A text that fits into the array with its zero byte.
abbrev pub IsText : List ℕ → Type 0
IsText d = NoZero d × (length d < bufsiz)

abbrev pub begins_quit : List ℕ → Bool
begins_quit d = bytes_eq (take 4 d) (codes "quit")

abbrev pub AllTexts : Datagrams → Type 0
AllTexts [] = Unit
AllTexts ((a, d) ∷ q) = IsText d × (begins_quit d ≡ false) × AllTexts q

-- The address that the reader binds for the text of a port.
abbrev pub reader_address : UdpOs → List ℕ → SockaddrIn
reader_address K arg = record {
  sin_family = af_inet;
  s_addr = K.htonl inaddr_any;
  sin_port = K.htons (to_u16 (atoi arg));
}

module _ (K : UdpOs) where
  abbrev pub line : SockaddrIn × List ℕ → Output
  line (a, d) = printf "Broadcast from %s [%s] \n" (text (K.inet_ntoa a.s_addr) ∷ text d ∷ [])

  c_str-received : (buf d : List ℕ) → NoZero d → c_str (received K 0 buf d) ≡ d
  unfolding received
  c_str-received buf d h =
      let front : take (length d) (overwrite buf 0 d) ≡ d = take-overwrite buf d in
      c_str-overwrite_zero (overwrite buf 0 d) (length d) (rw front h) ∙ front

  length-received :
      (buf d : List ℕ) → length d < bufsiz → IsBuffer buf → IsBuffer (received K 0 buf d)
  unfolding received
  length-received buf d h len =
      let len1 : length (overwrite buf 0 d) ≡ bufsiz =
        length-overwrite buf 0 d (omega arith) ∙ len in
      length-overwrite (overwrite buf 0 d) (length d) (0 ∷ []) (omega arith) ∙ len1

  strncmp_eq-received :
      (buf d : List ℕ) → NoZero d → strncmp_eq (received K 0 buf d) (codes "quit") 4 ≡ begins_quit d
  unfolding strncmp_eq c_str
  strncmp_eq-received buf d h =
      ap (λ (l : List ℕ). bytes_eq (take 4 l) (codes "quit")) (c_str-received buf d h)

  module _ (C : IsPost K) where
    reader_loop_total :
        (sd : ℤ) (rounds : ℕ) (q rest o : Datagrams) (a : SockaddrIn) (d buf : List ℕ)
        (w : World K.State)
        → length q < rounds
        → AllTexts q
        → IsText d
        → begins_quit d ≡ true
        → IsBuffer buf
        → C.view w.os ≡ post (q ++ ((a, d) ∷ rest)) o
        → (s : K.State) × (reader_loop K 0 sd rounds buf w
            ≡ some (returned (pos 0), record { os = s; out = w.out ++ map line q }))
          × (C.view s ≡ post rest o)
    unfolding reader_loop
    reader_loop_total sd zero q rest o a d buf w few texts last quits len v = absurd (omega arith)
    reader_loop_total sd (suc rounds) [] rest o a d buf w few texts (no_zero, fits) quits len v =
        let (s1, got, v1) = C.receives sd w.os a d rest o v (omega arith) in
        let stop : strncmp_eq (received K 0 buf d) (codes "quit") 4 ≡ true =
          strncmp_eq-received buf d no_zero ∙ quits in
        (s1, ground (arith, got, stop, append-nil w.out), v1)
    reader_loop_total sd (suc rounds) ((b, e) ∷ q) rest o a d buf w few
          ((no_zero, fits), goes_on, texts) last quits len v =
        let (s1, got, v1) = C.receives sd w.os b e (q ++ ((a, d) ∷ rest)) o v (omega arith) in
        let more : strncmp_eq (received K 0 buf e) (codes "quit") 4 ≡ false =
          strncmp_eq-received buf e no_zero ∙ goes_on in
        let shown : c_str (received K 0 buf e) ≡ e = c_str-received buf e no_zero in
        let w1 : World K.State = said (moved w s1) (line (b, e)) in
        let (s2, run, v2) =
          reader_loop_total sd rounds q rest o a d (received K 0 buf e) w1 (omega arith) texts last
            quits (length-received buf e fits len) v1 in
        (
          s2,
          ground (arith, got, more, shown, run, append_assoc w.out (line (b, e) ∷ []) (map line q)),
          v2,
        )

    -- When the low byte of the address of the literal happens to be 0, the port can be bound, and the
    -- datagrams are texts without zero bytes that fit into the array: the reader shows each text, in
    -- order and with its sender, up to the first one that begins with "quit", which it does not
    -- show. It then closes the socket and returns 0, and has received no further datagram.
    pub reader_main_until_quit :
        (name arg : List ℕ) (rounds : ℕ) (q rest : Datagrams) (a : SockaddrIn) (d buf : List ℕ)
        (w : World K.State) (sd : ℤ) (s1 s2 : K.State)
        → K.socket w.os ≡ (sd, s1)
        → K.bind sd (reader_address K arg) s1 ≡ (pos 0, s2)
        → C.view s2 ≡ post (q ++ ((a, d) ∷ rest)) []
        → length q < rounds
        → AllTexts q
        → IsText d
        → begins_quit d ≡ true
        → IsBuffer buf
        → (s : K.State) × (reader_main K 0 (name ∷ arg ∷ []) rounds buf w
            ≡ some (returned (pos 0), record { os = (K.close sd s).1; out = w.out ++ map line q }))
          × (C.view s ≡ post rest [])
    unfolding reader_main
    reader_main_until_quit name arg rounds q rest a d buf w sd s1 s2 made bound v few texts last
          quits len =
        let (s, run, v') =
          reader_loop_total sd rounds q rest [] a d buf (moved w s2) few texts last quits len v in
        (s, ground (arith, made, bound, run), v')

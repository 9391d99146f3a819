-- ===== src/Udp/EchoServer/Replies.antt =====
-- What the server of 9.echo_service_udp sends to whom.
use linux_programming_exampl.Prelude.{
  ℕ, zero, suc, ◌≤◌, ◌≡◌, refl, sym, ap, ◌∙◌, ℤ, pos, some, List, [], ◌∷◌, ◌++◌, length, take, drop,
  arith, append-nil, append_assoc, take_all,
}
use linux_programming_exampl.Program.{World, running, printf, moved, said}
use linux_programming_exampl.CMemory.{overwrite}
use linux_programming_exampl.CMemory.Laws.{length-overwrite}
use linux_programming_exampl.CMemory.Buffers.{take-overwrite-overwrite}
use linux_programming_exampl.Tcp.Kernel.{bufsiz, IsBuffer}
use linux_programming_exampl.Udp.Kernel.{UdpOs, SockaddrIn}
use linux_programming_exampl.Udp.EchoServer.{address, print_sockaddr_in, server_loop, server_main}

abbrev pub Datagrams : Type 0
Datagrams = List (SockaddrIn × List ℕ)

-- What has arrived and is not yet received, and what was sent, each with the peer's address.
pub record Post : Type 0 where
  pub queue : Datagrams
  pub sent : Datagrams

abbrev pub post : Datagrams → Datagrams → Post
post q o = record { queue = q; sent = o }

-- udp(7), on a machine where the calls succeed.
pub record IsPost (K : UdpOs) : Type 1 where
  pub view : K.State → Post
  pub receives :
      (sd : ℤ) (s : K.State) (a : SockaddrIn) (d : List ℕ) (q o : Datagrams)
      → view s ≡ post ((a, d) ∷ q) o
      → length d ≤ bufsiz
      → (s' : K.State) × (K.recvfrom sd bufsiz s ≡ some (some (d, a), s')) × (view s' ≡ post q o)
  pub sends :
      (sd : ℤ) (buf : List ℕ) (n : ℕ) (a : SockaddrIn) (s : K.State) (q o : Datagrams)
      → view s ≡ post q o
      → n ≤ length buf
      → (k : ℕ) × ((K.sendto sd buf n a s).0 ≡ pos k)
        × (view (K.sendto sd buf n a s).1 ≡ post q (o ++ ((a, take n buf) ∷ [])))

-- The specification: the answer to each datagram is the array, with the datagram over its front.
abbrev pub replies : List ℕ → Datagrams → Datagrams
replies buf [] = []
replies buf ((a, d) ∷ q) = (a, overwrite buf 0 d) ∷ replies (overwrite buf 0 d) q

abbrev pub AllFit : Datagrams → Type 0
AllFit [] = Unit
AllFit ((a, d) ∷ q) = (length d ≤ bufsiz) × AllFit q

module _ (K : UdpOs) (C : IsPost K) where
  server_loop_total :
      (sd : ℤ) (rounds : ℕ) (q rest o : Datagrams) (buf : List ℕ) (w : World K.State)
      → C.view w.os ≡ post (q ++ rest) o
      → rounds ≡ length q
      → AllFit q
      → IsBuffer buf
      → (w' : World K.State) × (server_loop K sd rounds buf w ≡ some (running, w'))
        × (C.view w'.os ≡ post rest (o ++ replies buf q))
  unfolding server_loop
  server_loop_total sd zero [] rest o buf w v e fit len =
      (w, refl, v ∙ ap (post rest) (sym (append-nil o)))
  server_loop_total sd (suc rounds) [] rest o buf w v e fit len = absurd (omega arith)
  server_loop_total sd zero (x ∷ q) rest o buf w v e fit len = absurd (omega arith)
  server_loop_total sd (suc rounds) ((a, d) ∷ q) rest o buf w v e (small, fit) len =
      let (s1, got, v1) = C.receives sd w.os a d (q ++ rest) o v small in
      let buf1 : List ℕ = overwrite buf 0 d in
      let len1 : length buf1 ≡ bufsiz = length-overwrite buf 0 d (omega arith) ∙ len in
      let (k, sent, v2) = C.sends sd buf1 bufsiz a s1 (q ++ rest) o v1 (omega arith) in
      let s2 : K.State = (K.sendto sd buf1 bufsiz a s1).1 in
      let whole : take bufsiz buf1 ≡ buf1 = take_all bufsiz buf1 (omega arith) in
      let (w3, run, v3) =
        server_loop_total sd rounds q rest (o ++ ((a, buf1) ∷ [])) buf1
          (moved (said w (printf "waiting\n" [])) s2)
          (v2 ∙ ap (λ (x : List ℕ). post (q ++ rest) (o ++ ((a, x) ∷ []))) whole) (omega arith) fit
          len1 in
      (
        w3,
        ground (arith, got, sent, run),
        v3 ∙ ap (post rest) (append_assoc o ((a, buf1) ∷ []) (replies buf1 q)),
      )

  address_shown :
      (addr : SockaddrIn) (w : World K.State)
      → (w' : World K.State) × (print_sockaddr_in K addr w ≡ some (tt, w')) × (w'.os ≡ w.os)
  unfolding print_sockaddr_in
  address_shown addr w = (_, refl, refl)

  -- When the port can be bound and the datagrams fit into the array, the server answers each of them,
  -- in order and to its sender, and is running after the last: the answer is the whole array,
  -- which is the datagram over what earlier datagrams left.
  pub server_main-replies :
      (q rest : Datagrams) (buf : List ℕ) (w : World K.State) (sd : ℤ) (k : ℕ) (s1 s2 : K.State)
      → K.socket w.os ≡ (sd, s1)
      → K.bind sd (address K) s1 ≡ (pos k, s2)
      → C.view s2 ≡ post (q ++ rest) []
      → AllFit q
      → IsBuffer buf
      → (w' : World K.State) × (server_main K (length q) buf w ≡ some (running, w'))
        × (C.view w'.os ≡ post rest (replies buf q))
  unfolding server_main
  server_main-replies q rest buf w sd k s1 s2 made bound v fit len =
      let (w0, shown, same) = address_shown (address K) (moved w s1) in
      let w1 : World K.State = moved w0 s2 in
      let (w', run, v') = server_loop_total sd (length q) q rest [] buf w1 v refl fit len in
      (w', ground (arith, made, shown, same, bound, run), v')

  -- When a peer's datagram is followed by a shorter one, or one of the same length, of another peer,
  -- the second peer is sent its own datagram and then the end of the first one's.
  pub server_main_discloses :
      (a b : SockaddrIn) (d e : List ℕ) (rest : Datagrams) (buf : List ℕ) (w : World K.State)
      (sd : ℤ) (k : ℕ) (s1 s2 : K.State)
      → K.socket w.os ≡ (sd, s1)
      → K.bind sd (address K) s1 ≡ (pos k, s2)
      → C.view s2 ≡ post ((a, d) ∷ (b, e) ∷ rest) []
      → length d ≤ bufsiz
      → length e ≤ length d
      → IsBuffer buf
      → (w' : World K.State) × (first : List ℕ) × (second : List ℕ) × (server_main K 2 buf w
          ≡ some (running, w'))
        × (C.view w'.os ≡ post rest ((a, first) ∷ (b, second) ∷ []))
        × (take (length d) second ≡ e ++ drop (length e) d)
  server_main_discloses a b d e rest buf w sd k s1 s2 made bound v fits less len =
      let (w', run, v') =
        server_main-replies ((a, d) ∷ (b, e) ∷ []) rest buf w sd k s1 s2 made bound v
          (fits, (omega arith, tt)) len in
      (
        w',
        overwrite buf 0 d,
        overwrite (overwrite buf 0 d) 0 e,
        run,
        v',
        take-overwrite-overwrite buf d e less,
      )

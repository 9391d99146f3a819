-- ===== src/Udp/EchoClient/Lines.antt =====
-- What the client of 9.echo_service_udp shows of the lines that are typed.
use linux_programming_exampl.Prelude.{
  ℕ, zero, suc, ◌≤◌, ◌<◌, ◌+◌, ◌≡◌, refl, sym, ap, ◌∙◌, ℤ, pos, some, List, [], ◌∷◌, ◌++◌, length,
  take, drop, arith, append-nil, length-append, append_assoc, drop-append_left, take-append_self,
}
use linux_programming_exampl.Program.{three_more, World, Output, running, text, printf, moved, said}
use linux_programming_exampl.CMemory.{c_str, strlen, overwrite}
use linux_programming_exampl.CMemory.Laws.{NoZero, length-overwrite, overwrite_zero}
use linux_programming_exampl.CMemory.Buffers.{
  overwrite-c_str, c_str-overwrite_older, take-strlen, strlen-length,
}
use linux_programming_exampl.Tcp.Kernel.{bufsiz}
use linux_programming_exampl.Udp.Kernel.{UdpOs}
use linux_programming_exampl.Udp.EchoServer.{address}
use linux_programming_exampl.Udp.EchoClient.{client_loop, client_main}

-- What the user will type, and the datagram that the peer has sent and the client has not read.
pub record Desk : Type 0 where
  pub typed : List (List ℕ)
  pub reply : List ℕ

abbrev pub desk : List (List ℕ) → List ℕ → Desk
desk t r = record { typed = t; reply = r }

-- A terminal that gives a line to each `read`, and a peer whose answer to a datagram begins with it,
-- and may be longer. `read` gives the front of a datagram and drops its end.
pub record IsDesk (K : UdpOs) (sd : ℤ) : Type 1 where
  pub view : K.State → Desk
  pub types :
      (s : K.State) (line : List ℕ) (t : List (List ℕ)) (r : List ℕ)
      → view s ≡ desk (line ∷ t) r
      → length line ≤ bufsiz
      → ((K.read (pos 0) bufsiz s).0 ≡ some line) × (view (K.read (pos 0) bufsiz s).1 ≡ desk t r)
  pub sends :
      (buf : List ℕ) (n : ℕ) (s : K.State) (t : List (List ℕ)) (r : List ℕ)
      → view s ≡ desk t r
      → n ≤ length buf
      → (k : ℕ) × (more : List ℕ) × ((K.write sd buf n s).0 ≡ pos k)
        × (view (K.write sd buf n s).1 ≡ desk t (take n buf ++ more))
  pub receives :
      (n : ℕ) (s : K.State) (t : List (List ℕ)) (r : List ℕ)
      → view s ≡ desk t r
      → ((K.read sd n s).0 ≡ some (take n r)) × (view (K.read sd n s).1 ≡ desk t [])

-- What is shown: the string in the array, once as it was typed and once as it came back.
abbrev pub transcript : List ℕ → List (List ℕ) → List Output
transcript snd [] = []
transcript snd (line ∷ l) =
    let shown : List ℕ = c_str (overwrite snd 0 line) in
    printf "waiting\n" []
    ∷ printf "Original Data: %s\n" (text shown ∷ [])
    ∷ printf "echoed Data: %s\n" (text shown ∷ [])
    ∷ transcript (overwrite snd 0 line) l

abbrev pub AllShort : List (List ℕ) → Type 0
AllShort [] = Unit
AllShort (line ∷ l) = (length line < bufsiz) × AllShort l

-- The array as it is in each round has a zero byte, so that `strlen` and `printf` stay within it.
abbrev pub AllEnd : List ℕ → List (List ℕ) → Type 0
AllEnd snd [] = Unit
AllEnd snd (line ∷ l) =
    (strlen (overwrite snd 0 line) < length snd) × AllEnd (overwrite snd 0 line) l

-- An array of `BUFSIZ` bytes, with a zero byte at its end.
abbrev pub IsTerminated : List ℕ → Type 0
IsTerminated snd = (front : List ℕ) × (snd ≡ front ++ (0 ∷ [])) × (length front + 1 ≡ bufsiz)

-- A shorter line leaves the zero byte at the end.
IsTerminated-overwrite :
    (snd line : List ℕ)
    → IsTerminated snd
    → length line < bufsiz
    → IsTerminated (overwrite snd 0 line)
IsTerminated-overwrite snd line (front, e, len) short = (
  overwrite front 0 line,
  ap (λ (b : List ℕ). overwrite b 0 line) e
      ∙ overwrite_zero (front ++ (0 ∷ [])) line
      ∙ ap (λ (b : List ℕ). line ++ b) (drop-append_left (length line) front (0 ∷ []) (omega arith))
      ∙ sym (append_assoc line (drop (length line) front) (0 ∷ []))
      ∙ ap (λ (b : List ℕ). b ++ (0 ∷ [])) (sym (overwrite_zero front line)),
  ap (λ (n : ℕ). n + 1) (length-overwrite front 0 line (omega arith)) ∙ len,
)

strlen_zero : (front : List ℕ) → strlen (front ++ (0 ∷ [])) < length front + 1
unfolding strlen c_str
strlen_zero [] = omega arith
strlen_zero (b ∷ front) = ground (arith, strlen_zero front)

length-IsTerminated : (snd : List ℕ) → IsTerminated snd → length snd ≡ bufsiz
length-IsTerminated snd (front, e, len) = ap length e ∙ length-append front (0 ∷ []) ∙ len

strlen-IsTerminated : (snd : List ℕ) → IsTerminated snd → strlen snd < bufsiz
strlen-IsTerminated snd (front, e, len) = ground (arith, e, len, strlen_zero front)

-- An answer that begins with the string in the array leaves the array as it is.
echo_same :
    (buf more : List ℕ) → overwrite buf 0 (take (strlen buf) (take (strlen buf) buf ++ more)) ≡ buf
unfolding strlen
echo_same buf more =
    ap (λ (l : List ℕ). overwrite buf 0 (take (length (c_str buf)) (l ++ more))) (take-strlen buf)
    ∙ ap (overwrite buf 0) (take-append_self (c_str buf) more)
    ∙ overwrite-c_str buf

module _ (K : UdpOs) (sd : ℤ) (C : IsDesk K sd) where
  client_loop_total :
      (l rest : List (List ℕ)) (rounds : ℕ) (snd r : List ℕ) (w : World K.State)
      → rounds ≡ length l
      → AllShort l
      → IsTerminated snd
      → C.view w.os ≡ desk (l ++ rest) r
      → (s : K.State) × (r' : List ℕ) × (client_loop K sd rounds snd w
          ≡ some (running, record { os = s; out = w.out ++ transcript snd l }))
        × (C.view s ≡ desk rest r')
        × AllEnd snd l
  unfolding client_loop
  client_loop_total [] rest zero snd r w e short ends v = (
    w.os,
    r,
    ap (λ (o : List Output). some (running, record { os = w.os; out = o }))
        (sym (append-nil w.out)),
    v,
    tt,
  )
  client_loop_total [] rest (suc rounds) snd r w e short ends v = absurd (omega arith)
  client_loop_total (line ∷ l) rest zero snd r w e short ends v = absurd (omega arith)
  client_loop_total (line ∷ l) rest (suc rounds) snd r w e (fits, short) ends v =
      let snd1 : List ℕ = overwrite snd 0 line in
      let n : ℕ = strlen snd1 in
      let ends1 : IsTerminated snd1 = IsTerminated-overwrite snd line ends fits in
      let (got, v1) = C.types w.os line (l ++ rest) r v (omega arith) in
      let s1 : K.State = (K.read (pos 0) bufsiz w.os).1 in
      let (k, more, sent, v2) = C.sends snd1 n s1 (l ++ rest) r v1 (strlen-length snd1) in
      let s2 : K.State = (K.write sd snd1 n s1).1 in
      let (back, v3) = C.receives n s2 (l ++ rest) (take n snd1 ++ more) v2 in
      let s3 : K.State = (K.read sd n s2).1 in
      let same : overwrite snd1 0 (take n (take n snd1 ++ more)) ≡ snd1 = echo_same snd1 more in
      let original : Output = printf "Original Data: %s\n" (text (c_str snd1) ∷ []) in
      let echoed : Output = printf "echoed Data: %s\n" (text (c_str snd1) ∷ []) in
      let w3 : World K.State =
        moved (said (said (said w (printf "waiting\n" [])) original) echoed) s3 in
      let (s4, r4, run, v4, end4) =
        client_loop_total l rest rounds snd1 [] w3 (omega arith) short ends1 v3 in
      (
        s4,
        r4,
        ground (
          arith,
          got,
          sent,
          back,
          same,
          run,
          three_more w.out (printf "waiting\n" []) original echoed (transcript snd1 l),
        ),
        v4,
        (ground (arith, strlen-IsTerminated snd1 ends1, length-IsTerminated snd ends), end4),
      )

  -- With a peer whose answers begin with what it was sent, an array whose last byte is zero, and
  -- lines shorter than the array, the client shows for each line, in order, the same text twice: as
  -- it was typed and as it came back. The text is the string that the array holds, which is the
  -- line and, where an earlier line was longer, the end of that one; in each round it ends within
  -- the array.
  pub client_main_shows :
      (l rest : List (List ℕ)) (snd r : List ℕ) (w : World K.State) (s1 : K.State)
      → K.socket w.os ≡ (sd, s1)
      → C.view (K.connect sd (address K) s1).1 ≡ desk (l ++ rest) r
      → AllShort l
      → IsTerminated snd
      → (s : K.State) × (r' : List ℕ) × (client_main K (length l) snd w
          ≡ some (running, record { os = s; out = w.out ++ transcript snd l }))
        × (C.view s ≡ desk rest r')
        × AllEnd snd l
  unfolding client_main
  client_main_shows l rest snd r w s1 made v short ends =
      let w1 : World K.State = moved w (K.connect sd (address K) s1).1 in
      let (s, r', run, v', ends') =
        client_loop_total l rest (length l) snd r w1 refl short ends v in
      (s, r', ground (arith, made, run), v', ends')

-- Behind a longer string, what is shown of a line is the line and the end of that string.
transcript_older :
    (snd older line r : List ℕ)
    → snd ≡ older ++ (0 ∷ r)
    → NoZero older
    → NoZero line
    → length line ≤ length older
    → let shown : List ℕ = line ++ drop (length line) older in
      transcript snd (line ∷ [])
      ≡ printf "waiting\n" []
        ∷ printf "Original Data: %s\n" (text shown ∷ [])
        ∷ printf "echoed Data: %s\n" (text shown ∷ [])
        ∷ []
transcript_older snd older line r e h k less =
    ap
      (λ (x : List ℕ).
        printf "waiting\n" []
        ∷ printf "Original Data: %s\n" (text x ∷ [])
        ∷ printf "echoed Data: %s\n" (text x ∷ [])
        ∷ [])
      (c_str-overwrite_older snd older line r e h k less)

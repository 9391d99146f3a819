-- ===== src/Tcp/EchoClient/Session.antt =====
-- A session of the client of 8.echo_service_tcp with a peer that sends back what it is sent.
use linux_programming_exampl.Prelude.{
  ℕ, zero, suc, ◌+◌, ◌-◌, ◌≤◌, ◌<◌, ◌≡◌, refl, sym, ap, ◌∙◌, ℤ, pos, false, some, List, [], ◌∷◌,
  ◌++◌, append-nil, append_assoc, arith, length, take, length-append,
}
use linux_programming_exampl.Program.{World, Output, text, printf, moved}
use linux_programming_exampl.CMemory.{codes, c_str, bytes_eq, overwrite}
use linux_programming_exampl.CMemory.Laws.{NoZero, length-overwrite, take-overwrite}
use linux_programming_exampl.CMemory.Buffers.{
  c_str-overwrite_zero, take-overwrite_more, take-overwrite_before,
}
use linux_programming_exampl.Tcp.Kernel.{TcpOs, bufsiz, IsBuffer}
use linux_programming_exampl.Tcp.EchoClient.{read_back, terminated}

-- The world around the client: the lines that the user will type, and the bytes that the peer has
-- sent back and the client has not read.
pub record Session : Type 0 where
  pub typed : List (List ℕ)
  pub echoed : List ℕ

abbrev pub session : List (List ℕ) → List ℕ → Session
session t e = record { typed = t; echoed = e }

-- A terminal gives a line to each `read`, and the socket gives what is there or a part of it.
pub record Echoes (K : TcpOs) (c_socket : ℤ) : Type 1 where
  pub view : K.State → Session
  pub types :
      (s : K.State) (line : List ℕ) (rest : List (List ℕ)) (e : List ℕ)
      → view s ≡ session (line ∷ rest) e
      → length line ≤ bufsiz
      → ((K.read (pos 0) bufsiz s).0 ≡ some line)
        × (view (K.read (pos 0) bufsiz s).1 ≡ session rest e)
  pub echoes :
      (s : K.State) (t : List (List ℕ)) (e buf : List ℕ) (n : ℕ)
      → view s ≡ session t e
      → n ≤ length buf
      → ((K.write c_socket buf n s).0 ≡ pos n)
        × (view (K.write c_socket buf n s).1 ≡ session t (e ++ take n buf))
  pub reads :
      (s : K.State) (t : List (List ℕ)) (e : List ℕ) (n : ℕ)
      → view s ≡ session t e
      → 0 < length e
      → (bytes : List ℕ) × (rest : List ℕ) × ((K.read c_socket (suc n) s).0 ≡ some bytes)
        × (e ≡ bytes ++ rest)
        × (0 < length bytes)
        × (length bytes ≤ suc n)
        × (view (K.read c_socket (suc n) s).1 ≡ session t rest)

-- A line that fits into the buffers with its zero byte, and does not end the session.
abbrev pub IsLine : ℕ → List ℕ → Type 0
IsLine fuel line =
    (0 < length line)
    × NoZero line
    × (length line < bufsiz)
    × (length line < fuel)
    × (bytes_eq line (codes "quit\n") ≡ false)

abbrev pub AllLines : ℕ → List (List ℕ) → Type 0
AllLines fuel [] = Unit
AllLines fuel (line ∷ l) = IsLine fuel line × AllLines fuel l

-- What the user sees.
abbrev pub transcript : List (List ℕ) → List Output
transcript [] = []
transcript (line ∷ l) =
    printf "original data: %s" (text line ∷ [])
    ∷ printf "echoed Data: %s" (text line ∷ [])
    ∷ transcript l

module _ (snd : List ℕ) (line : List ℕ) where
  front : take (length line) (overwrite snd 0 line) ≡ line
  front = take-overwrite snd line

  pub c_str-terminated : NoZero line → c_str (terminated snd line) ≡ line
  unfolding terminated
  c_str-terminated h =
      c_str-overwrite_zero (overwrite snd 0 line) (length line) (rw front h) ∙ front

  pub take-terminated :
      IsBuffer snd → length line < bufsiz → take (length line) (terminated snd line) ≡ line
  unfolding terminated
  take-terminated h k =
      let len : length (overwrite snd 0 line) ≡ bufsiz =
        length-overwrite snd 0 line (omega arith) ∙ h in
      take-overwrite_before (overwrite snd 0 line) (length line) (0 ∷ []) (omega arith) ∙ front

  pub length-terminated : IsBuffer snd → length line < bufsiz → IsBuffer (terminated snd line)
  unfolding terminated
  length-terminated h k =
      let len : length (overwrite snd 0 line) ≡ bufsiz =
        length-overwrite snd 0 line (omega arith) ∙ h in
      length-overwrite (overwrite snd 0 line) (length line) (0 ∷ []) (omega arith) ∙ len

module _ (K : TcpOs) (c_socket : ℤ) (C : Echoes K c_socket) where
  -- All that was echoed is read back, in pieces of any length, behind what was read before.
  read_back_total :
      (rounds n_left n_recv : ℕ) (t : List (List ℕ)) (e rcv : List ℕ) (w : World K.State)
      → n_left < rounds
      → n_left ≡ length e
      → n_recv + n_left ≤ bufsiz
      → IsBuffer rcv
      → C.view w.os ≡ session t e
      → (rcv' : List ℕ) × (s : K.State) × (read_back K rounds c_socket n_left n_recv rcv w
          ≡ some (some (rcv', n_recv + n_left), moved w s))
        × IsBuffer rcv'
        × (take (n_recv + n_left) rcv' ≡ take n_recv rcv ++ e)
        × (C.view s ≡ session t [])
  unfolding read_back
  read_back_total rounds zero n_recv t [] rcv w few size room len v =
      let none_left : n_recv ≡ n_recv + 0 = omega arith in
      (
        rcv,
        w.os,
        ap (λ (k : ℕ). some (some (rcv, k), w)) none_left,
        len,
        ap (λ (k : ℕ). take k rcv) (sym none_left) ∙ sym (append-nil (take n_recv rcv)),
        v,
      )
  read_back_total rounds zero n_recv t (b ∷ e) rcv w few size room len v = absurd (omega arith)
  read_back_total zero (suc n_left) n_recv t e rcv w few size room len v = absurd (omega arith)
  read_back_total (suc rounds) (suc n_left) n_recv t e rcv w few size room len v =
      let (bytes, rest, got, cut, some_bytes, within, v1) =
        C.reads w.os t e n_left v (omega arith) in
      let s1 : K.State = (K.read c_socket (suc n_left) w.os).1 in
      let k : ℕ = length bytes in
      let count : length e ≡ k + length rest = ap length cut ∙ length-append bytes rest in
      let total : (n_recv + k) + (suc n_left - k) ≡ n_recv + suc n_left = omega arith in
      let (rcv2, s2, run, len2, str, v2) =
        read_back_total rounds (suc n_left - k) (n_recv + k) t rest (overwrite rcv n_recv bytes)
          (moved w s1) (omega arith) (omega arith) (omega arith)
          (length-overwrite rcv n_recv bytes (omega arith) ∙ len) v1 in
      (
        rcv2,
        s2,
        ground (arith, got, run, total),
        len2,
        ap (λ (j : ℕ). take j rcv2) (sym total)
            ∙ str
            ∙ ap (λ (l : List ℕ). l ++ rest) (take-overwrite_more rcv n_recv bytes (omega arith))
            ∙ append_assoc (take n_recv rcv) bytes rest
            ∙ ap (λ (l : List ℕ). take n_recv rcv ++ l) (sym cut),
        v2,
      )

  -- A line is read back: the string in the buffer is the line, once it has its zero byte.
  pub read_back_line :
      (rounds : ℕ) (t : List (List ℕ)) (e rcv : List ℕ) (w : World K.State)
      → length e < rounds
      → length e < bufsiz
      → NoZero e
      → IsBuffer rcv
      → C.view w.os ≡ session t e
      → (rcv' : List ℕ) × (s : K.State) × (read_back K rounds c_socket (length e) 0 rcv w
          ≡ some (some (rcv', length e), moved w s))
        × IsBuffer (overwrite rcv' (length e) (0 ∷ []))
        × (c_str (overwrite rcv' (length e) (0 ∷ [])) ≡ e)
        × (C.view s ≡ session t [])
  read_back_line rounds t e rcv w few fits no_zero len v =
      let (rcv1, s, run, len1, str, v1) =
        read_back_total rounds (length e) 0 t e rcv w few refl (omega arith) len v in
      let n : 0 + length e ≡ length e = omega arith in
      let front : take (length e) rcv1 ≡ e = ap (λ (k : ℕ). take k rcv1) (sym n) ∙ str in
      (
        rcv1,
        s,
        run ∙ ap (λ (k : ℕ). some (some (rcv1, k), moved w s)) n,
        length-overwrite rcv1 (length e) (0 ∷ []) (omega arith) ∙ len1,
        c_str-overwrite_zero rcv1 (length e) (rw front no_zero) ∙ front,
        v1,
      )

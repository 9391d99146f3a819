-- ===== src/Tcp/Hello/Service.antt =====
-- What the server of 2.hello_world answers.
use linux_programming_exampl.Prelude.{
  ℕ, ◌<◌, ◌≡◌, refl, sym, ap, ◌∙◌, inl, inr, ℤ, pos, true, false, Bool-cases, some, List, [], ◌∷◌,
  ◌++◌, map, arith, length, if◌then◌else◌,
}
use linux_programming_exampl.Program.{World, Output, running, text, printf, moved, said}
use linux_programming_exampl.CMemory.{c_str, codes, bytes_eq, strcmp_eq}
use linux_programming_exampl.CMemory.Laws.{NoZero, c_str-append_zero}
use linux_programming_exampl.Tcp.Kernel.{TcpOs, Serves, View, idle, connected, bufsiz, IsBuffer}
use linux_programming_exampl.Tcp.Loop.{
  accept_loop_all, Answers, AllRequests, write_more, close_answered,
}
use linux_programming_exampl.Tcp.Basic.{buffer, port}
use linux_programming_exampl.Tcp.Basic.Service.{strlen-buffer, length-buffer}
use linux_programming_exampl.Tcp.Hello.{serve, server_main}
use linux_programming_exampl.Tcp.Hello.Request.{IsWord, read_line_total}

-- What a peer is answered to the string that it sends.
abbrev pub reply : List ℕ → List ℕ
reply i = if bytes_eq (c_str i) (codes "print") then codes "hello world" else []

-- A request: a word that fits into the buffer, and its zero byte, as the client sends it.
abbrev pub IsRequest : ℕ → List ℕ → Type 0
IsRequest fuel i =
    (m : List ℕ) × (behind : List ℕ) × (i ≡ m ++ (0 ∷ behind))
    × IsWord m
    × (length m < bufsiz)
    × (length m < fuel)

IsWord-NoZero : (m : List ℕ) → IsWord m → NoZero m
IsWord-NoZero [] h = tt
IsWord-NoZero (b ∷ m) h = (h.0, IsWord-NoZero m h.3)

c_str-request : (i m behind : List ℕ) → i ≡ m ++ (0 ∷ behind) → IsWord m → c_str i ≡ m
c_str-request i m behind e h = ap c_str e ∙ c_str-append_zero m behind (IsWord-NoZero m h)

module _ (K : TcpOs) (C : Serves K) where
  serve_answers : (fuel : ℕ) → Answers K C (serve K fuel) reply IsBuffer (IsRequest fuel)
  unfolding serve strcmp_eq
  serve_answers fuel buf fd i w good (m, behind, cut, word, fits, few) c =
      let (line, s, run, len, str, c1, p1, a1) =
        read_line_total K C fuel fuel fd m behind [] buf 0 w few word (omega arith) good tt
          (c ∙ ap (λ (l : List ℕ). connected fd l []) cut) in
      let same : c_str i ≡ m = c_str-request i m behind cut word in
      let shown : Output = printf "rBuffer : %s\n" (text (c_str line) ∷ []) in
      let print_word : c_str (codes "print") ≡ codes "print" = refl in
      let answered : List ℕ → View =
        λ (r : List ℕ). idle (C.view w.os).pending ((C.view w.os).answered ++ (r ∷ [])) in
      let replied : bytes_eq m (codes "print") ≡ true → reply i ≡ codes "hello world" =
        λ e. ground (arith, same, e) in
      let not_replied : bytes_eq m (codes "print") ≡ false → reply i ≡ [] =
        λ e. ground (arith, same, e) in
      elim (Bool-cases (bytes_eq m (codes "print"))) [
        | inl asked ↦
            let s1 : K.State = (K.write fd buffer 11 s).1 in
            let (c2, p2, a2) = write_more K C fd buffer 11 s behind [] c1 length-buffer in
            (
              line,
              moved (said w shown) (K.close fd s1).1,
              ground (arith, run, str, asked, print_word, strlen-buffer),
              len,
              close_answered K C fd w.os s1 behind (codes "hello world") c2 (p2 ∙ p1) (a2 ∙ a1)
                  ∙ ap answered (sym (replied asked)),
            )
        | inr other ↦ (
          line,
          moved (said w shown) (K.close fd s).1,
          ground (arith, run, str, other, print_word),
          len,
          close_answered K C fd w.os s behind [] c1 p1 a1 ∙ ap answered (sym (not_replied other)),
        )
      ]

  -- On a machine where the port can be bound, and with peers that each send a word that fits into
  -- the buffer and its zero byte, and perhaps more: after as many rounds as peers, each peer has been
  -- answered with what the function from strings to answers says, which is "hello world" to "print"
  -- and nothing to any other word, in the order in which they connected, and the server is running.
  -- What an earlier peer left in the static buffer does not count.
  pub hello_server_refines :
      (fuel : ℕ) (buf : List ℕ) (l : List (List ℕ)) (w : World K.State) (fd : ℤ)
      (s1 s2 s3 : K.State)
      → K.socket w.os ≡ (fd, s1)
      → K.bind fd port s1 ≡ (pos 0, s2)
      → K.listen fd 5 s2 ≡ (pos 0, s3)
      → C.view s3 ≡ idle l []
      → IsBuffer buf
      → AllRequests (IsRequest fuel) l
      → (w' : World K.State) × (server_main K fuel buf (length l) w ≡ some (running, w'))
        × (C.view w'.os ≡ idle [] (map reply l))
  unfolding server_main
  hello_server_refines fuel buf l w fd s1 s2 s3 made bound listening v good reqs =
      let (w', run, v') =
        accept_loop_all K C (serve K fuel) reply IsBuffer (IsRequest fuel) (serve_answers fuel) fd l
          buf (moved w s3) good reqs v in
      (w', ground (arith, made, bound, listening, run), v')

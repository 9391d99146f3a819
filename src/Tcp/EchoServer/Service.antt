-- ===== src/Tcp/EchoServer/Service.antt =====
-- What the server of 8.echo_service_tcp sends back.
use linux_programming_exampl.Prelude.{
  ℕ, zero, suc, ◌+◌, ◌<◌, ◌≡◌, sym, ap, ◌∙◌, inl, inr, ℤ, pos, some, List, [], ◌∷◌, ◌++◌, map,
  append-nil, append_assoc, arith, ◌==◌, ==→eq, Bool-cases, length, length-append, append-eq_nil,
}
use linux_programming_exampl.Program.{World, Output, running, text, printf, moved, said}
use linux_programming_exampl.CMemory.{c_str, overwrite}
use linux_programming_exampl.CMemory.Laws.{take-overwrite, length-overwrite}
use linux_programming_exampl.Tcp.Kernel.{TcpOs, Serves, View, idle, connected, bufsiz, IsBuffer}
use linux_programming_exampl.Tcp.Loop.{
  accept_loop_all, Answers, AllRequests, write_more, close_answered,
}
use linux_programming_exampl.Tcp.EchoServer.{echo_loop, serve, server_main, port}

abbrev pub identity : List ℕ → List ℕ
identity i = i

-- A peer sends fewer bytes than there are rounds.
abbrev pub ShorterThan : ℕ → List ℕ → Type 0
ShorterThan fuel i = length i < fuel

module _ (K : TcpOs) (C : Serves K) where
  echo_loop_total :
      (rounds fuel : ℕ) (fd : ℤ) (buf i o : List ℕ) (w : World K.State)
      → length i < rounds
      → IsBuffer buf
      → (C.view w.os).current ≡ connected fd i o
      → (buf' : List ℕ) × (w' : World K.State) × (echo_loop K fuel rounds fd buf w
          ≡ some (buf', w'))
        × IsBuffer buf'
        × ((C.view w'.os).current ≡ connected fd [] (o ++ i))
        × ((C.view w'.os).pending ≡ (C.view w.os).pending)
        × ((C.view w'.os).answered ≡ (C.view w.os).answered)
  unfolding echo_loop
  echo_loop_total zero fuel fd buf i o w few len c = absurd (omega arith)
  echo_loop_total (suc rounds) fuel fd buf i o w few len c =
      let (bytes, rest, got, within, cut, at_end, v1) = C.reads fd 8191 w.os i o c in
      let s1 : K.State = (K.read fd bufsiz w.os).1 in
      let c1 : (C.view s1).current ≡ connected fd rest o = ap (λ (v : View). v.current) v1 in
      elim (Bool-cases (length bytes == 0)) [
        | inl stop ↦
            let nothing : i ≡ [] = at_end (==→eq (length bytes) 0 stop) in
            let no_rest : rest ≡ [] = append-eq_nil bytes rest (sym cut ∙ nothing) in
            (
              buf,
              moved w s1,
              ground (arith, got, stop),
              len,
              c1
                  ∙ ap (λ (l : List ℕ). connected fd l o) no_rest
                  ∙ ap (connected fd [])
                      (sym (append-nil o) ∙ ap (λ (l : List ℕ). o ++ l) (sym nothing)),
              ap (λ (v : View). v.pending) v1,
              ap (λ (v : View). v.answered) v1,
            )
        | inr more ↦
            let buf1 : List ℕ = overwrite buf 0 bytes in
            let len1 : IsBuffer buf1 = length-overwrite buf 0 bytes (omega arith) ∙ len in
            let line : Output = printf "%s" (text (c_str buf1) ∷ []) in
            let s2 : K.State = (K.write fd buf1 (length bytes) s1).1 in
            let (c2, p2, a2) = write_more K C fd buf1 (length bytes) s1 rest o c1 (omega arith) in
            let c2' : (C.view s2).current ≡ connected fd rest (o ++ bytes) =
              c2 ∙ ap (λ (l : List ℕ). connected fd rest (o ++ l)) (take-overwrite buf bytes) in
            let count : length i ≡ length bytes + length rest =
              ap length cut ∙ length-append bytes rest in
            let nonzero : 0 < length bytes = ground (arith, more) in
            let (buf3, w3, run, len3, c3, p3, a3) =
              echo_loop_total rounds fuel fd buf1 rest (o ++ bytes) (moved (said w line) s2)
                (omega arith) len1 c2' in
            (
              buf3,
              w3,
              ground (arith, got, more, run),
              len3,
              c3
                  ∙ ap (connected fd [])
                      (append_assoc o bytes rest ∙ ap (λ (l : List ℕ). o ++ l) (sym cut)),
              p3 ∙ p2 ∙ ap (λ (v : View). v.pending) v1,
              a3 ∙ a2 ∙ ap (λ (v : View). v.answered) v1,
            )
      ]

  serve_answers : (fuel : ℕ) → Answers K C (serve K fuel) identity IsBuffer (ShorterThan fuel)
  unfolding serve
  serve_answers fuel buf fd i w good few c =
      let (buf1, w1, run, len, c1, p1, a1) = echo_loop_total fuel fuel fd buf i [] w few good c in
      (
        buf1,
        moved w1 (K.close fd w1.os).1,
        ground (arith, run),
        len,
        close_answered K C fd w.os w1.os [] i c1 p1 a1,
      )

  -- On a machine where the port can be bound, and with peers that each send fewer bytes than the
  -- rounds of the inner loop, the server implements the identity: after as many rounds as peers,
  -- each peer has been sent exactly what it sent, in the order in which they connected, however
  -- `read` cut it into pieces, and the server is running.
  pub echo_server_refines :
      (fuel : ℕ) (buf : List ℕ) (l : List (List ℕ)) (w : World K.State) (fd : ℤ)
      (s1 s2 s3 : K.State)
      → K.socket w.os ≡ (fd, s1)
      → K.bind fd port s1 ≡ (pos 0, s2)
      → K.listen fd 5 s2 ≡ (pos 0, s3)
      → C.view s3 ≡ idle l []
      → IsBuffer buf
      → AllRequests (ShorterThan fuel) l
      → (w' : World K.State) × (server_main K fuel buf (length l) w ≡ some (running, w'))
        × (C.view w'.os ≡ idle [] (map identity l))
  unfolding server_main
  echo_server_refines fuel buf l w fd s1 s2 s3 made bound listening v good reqs =
      let (w', run, v') =
        accept_loop_all K C (serve K fuel) identity IsBuffer (ShorterThan fuel) (serve_answers fuel)
          fd l buf (moved w s3) good reqs v in
      (w', ground (arith, made, bound, listening, run), v')

-- ===== src/Tcp/EchoClient/Refinement.antt =====
-- The whole session of the client of 8.echo_service_tcp.
use linux_programming_exampl.Prelude.{
  ℕ, zero, suc, ◌<◌, ◌≡◌, refl, ap, ◌∙◌, ℤ, pos, true, false, none, some, List, [], ◌∷◌, ◌++◌,
  append-nil, arith, length,
}
use linux_programming_exampl.Program.{two_more, World, Output, text, printf, moved, said}
use linux_programming_exampl.CMemory.{codes, c_str, strcmp_eq, bytes_eq, strlen, overwrite}
use linux_programming_exampl.CMemory.Laws.{NoZero}
use linux_programming_exampl.Tcp.Kernel.{TcpOs, bufsiz, IsBuffer}
use linux_programming_exampl.Tcp.EchoServer.{port}
use linux_programming_exampl.Tcp.EchoClient.{terminated, client_loop, client_main}
use linux_programming_exampl.Tcp.EchoClient.Session.{
  session, Echoes, AllLines, transcript, c_str-terminated, take-terminated, length-terminated,
  read_back_line,
}

abbrev pub quit : List ℕ
quit = codes "quit\n"

strlen-terminated : (snd line : List ℕ) → NoZero line → strlen (terminated snd line) ≡ length line
unfolding strlen
strlen-terminated snd line h = ap length (c_str-terminated snd line h)

not_quit :
    (snd line : List ℕ)
    → NoZero line
    → bytes_eq line quit ≡ false
    → strcmp_eq (terminated snd line) quit ≡ false
unfolding strcmp_eq
not_quit snd line h k = ap (λ l. bytes_eq l quit) (c_str-terminated snd line h) ∙ k

is_quit : (snd : List ℕ) → strcmp_eq (terminated snd quit) quit ≡ true
unfolding strcmp_eq
is_quit snd =
    ap (λ l. bytes_eq l quit)
      (c_str-terminated snd quit
        (ground arith, (ground arith, (ground arith, (ground arith, (ground arith, tt))))))
    ∙ refl

module _ (K : TcpOs) (c_socket : ℤ) (C : Echoes K c_socket) where
  client_loop_total :
      (fuel rounds : ℕ) (l rest : List (List ℕ)) (snd rcv : List ℕ) (w : World K.State)
      → length l < rounds
      → AllLines fuel l
      → IsBuffer snd
      → IsBuffer rcv
      → C.view w.os ≡ session (l ++ (quit ∷ rest)) []
      → (s : K.State) × (client_loop K fuel rounds c_socket snd rcv w
          ≡ some (none, record { os = s; out = w.out ++ transcript l }))
        × (C.view s ≡ session rest [])
  unfolding client_loop
  client_loop_total fuel zero l rest snd rcv w few lines len_s len_r v = absurd (omega arith)
  client_loop_total fuel (suc rounds) [] rest snd rcv w few lines len_s len_r v =
      let (got, v1) = C.types w.os quit rest [] v (omega arith) in
      ((K.read (pos 0) bufsiz w.os).1, ground (arith, got, is_quit snd, append-nil w.out), v1)
  client_loop_total fuel (suc rounds) (line ∷ l) rest snd rcv w few
        ((some_bytes, no_zero, fits, short, other), lines) len_s len_r v =
      let snd1 : List ℕ = terminated snd line in
      let n : ℕ = length line in
      let (got, v1) = C.types w.os line (l ++ (quit ∷ rest)) [] v (omega arith) in
      let s1 : K.State = (K.read (pos 0) bufsiz w.os).1 in
      let len1 : length snd1 ≡ bufsiz = length-terminated snd line len_s fits in
      let (sent, v2) = C.echoes s1 (l ++ (quit ∷ rest)) [] snd1 n v1 (omega arith) in
      let s2 : K.State = (K.write c_socket snd1 n s1).1 in
      let w2 : World K.State =
        moved (said w (printf "original data: %s" (text (c_str snd1) ∷ []))) s2 in
      let v2' : C.view s2 ≡ session (l ++ (quit ∷ rest)) line =
        v2 ∙ ap (session (l ++ (quit ∷ rest))) (take-terminated snd line len_s fits) in
      let (rcv1, s3, back, len3, heard, v3) =
        read_back_line K c_socket C fuel (l ++ (quit ∷ rest)) line rcv w2 short fits no_zero len_r
          v2' in
      let rcv2 : List ℕ = overwrite rcv1 n (0 ∷ []) in
      let w3 : World K.State =
        said (moved w2 s3) (printf "echoed Data: %s" (text (c_str rcv2) ∷ [])) in
      let (s4, run, v4) =
        client_loop_total fuel rounds l rest snd1 rcv2 w3 (omega arith) lines len1 len3 v3 in
      let step : client_loop K fuel (suc rounds) c_socket snd rcv w
          ≡ client_loop K fuel rounds c_socket snd1 rcv2 w3 =
        ground (
          arith,
          got,
          some_bytes,
          not_quit snd line no_zero other,
          strlen-terminated snd line no_zero,
          sent,
          back,
        ) in
      let out : w3.out ++ transcript l ≡ w.out ++ transcript (line ∷ l) =
        two_more w.out (printf "original data: %s" (text (c_str snd1) ∷ []))
          (printf "echoed Data: %s" (text (c_str rcv2) ∷ [])) (transcript l)
        ∙ ap
            (λ (x : List ℕ).
              w.out
              ++ (printf "original data: %s" (text x ∷ [])
                  ∷ printf "echoed Data: %s" (text (c_str rcv2) ∷ [])
                  ∷ transcript l))
            (c_str-terminated snd line no_zero)
        ∙ ap
            (λ (x : List ℕ).
              w.out
              ++ (printf "original data: %s" (text line ∷ [])
                  ∷ printf "echoed Data: %s" (text x ∷ [])
                  ∷ transcript l))
            heard in
      (s4, step ∙ run ∙ ap (λ (o : List Output). some (none, record { os = s4; out = o })) out, v4)

  -- With a peer that sends back what it is sent, and a user who types lines that fit into the
  -- buffers and then "quit": when the connection can be made, the client shows each line as it was
  -- typed and then as it came back, which is the same line, in the order of the lines, however the
  -- socket cuts them into pieces. It then closes the connection and returns 0, with nothing left
  -- unread on the connection.
  pub client_main_echoes :
      (fuel rounds : ℕ) (l rest : List (List ℕ)) (snd rcv : List ℕ) (w : World K.State) (code : ℕ)
      (s1 s2 : K.State)
      → K.socket w.os ≡ (c_socket, s1)
      → K.connect c_socket (codes "127.0.0.1") port s1 ≡ (pos code, s2)
      → C.view s2 ≡ session (l ++ (quit ∷ rest)) []
      → length l < rounds
      → AllLines fuel l
      → IsBuffer snd
      → IsBuffer rcv
      → (s : K.State) × (client_main K fuel rounds snd rcv w
          ≡ some (
            pos 0,
            record {
              os = (K.close c_socket s).1;
              out = (w.out ++ (printf "Success Connection\n" [] ∷ [])) ++ transcript l;
            },
          ))
        × (C.view s ≡ session rest [])
  unfolding client_main
  client_main_echoes fuel rounds l rest snd rcv w code s1 s2 made linked v few lines len_s len_r =
      let (s, run, v') =
        client_loop_total fuel rounds l rest snd rcv
          (said (moved w s2) (printf "Success Connection\n" [])) few lines len_s len_r v in
      (s, ground (arith, made, linked, run), v')

-- ===== src/Tcp/Hello.antt =====
-- tcp_ip_programming/just_study/2.hello_world: a server that answers the request "print", and its
-- client.
pub mod Request
pub mod Service
use linux_programming_exampl.Prelude.{
  ℕ, zero, suc, ◌+◌, ◌-◌, ℤ, pos, minus_one, is_minus_one, Bool, true, false, ◌||◌, Option, none,
  some, List, [], ◌∷◌, if◌then◌else◌, length, get_or, ◌==◌,
}
use linux_programming_exampl.Program.{
  Prog, World, Status, running, returned, int, text, printf, pure, stuck, ◌>>=◌, ◌>>◌, print, sys,
}
use linux_programming_exampl.CMemory.{codes, c_str, strcmp_eq, strlen, strcpy, overwrite}
use linux_programming_exampl.Tcp.Kernel.{TcpOs, bufsiz}
use linux_programming_exampl.Tcp.Basic.{buffer, port}
use linux_programming_exampl.Tcp.Loop.{accept_loop}

module _ (K : TcpOs) (fuel : ℕ) where
  -- The inner loop, where `temp` is `rBuffer + length`.
  pub read_line : ℕ → ℤ → List ℕ → ℕ → Prog K.State (List ℕ)
  read_line zero c_socket r_buffer length' = stuck
  read_line (suc rounds) c_socket r_buffer length' = do
    n ← sys (K.read c_socket 1)
    elim n [
      | none ↦ pure r_buffer
      | some bytes ↦ elim (length bytes == 0) [
        | true ↦ pure r_buffer
        | false ↦ elim (get_or bytes 0 0 == b'\r') [
          | true ↦ read_line rounds c_socket (overwrite r_buffer length' bytes) length'
          | false ↦ elim (get_or bytes 0 0 == b'\n' || get_or bytes 0 0 == 0) [
            | true ↦ pure (overwrite r_buffer length' bytes)
            | false ↦ elim (length' == bufsiz) [
              | true ↦ pure (overwrite r_buffer length' bytes)
              | false ↦ read_line rounds c_socket (overwrite r_buffer length' bytes) (length' + 1)
            ]
          ]
        ]
      ]
    ]

  -- The body of the loop behind `accept`; `r_buffer` is static, and keeps what the last peer sent.
  -- `sleep(1)` does nothing to the state.
  pub serve : List ℕ → ℤ → Prog K.State (List ℕ)
  serve r_buffer c_socket = do
    line ← read_line fuel c_socket r_buffer 0
    print (printf "rBuffer : %s\n" (text (c_str line) ∷ []))
    if strcmp_eq line (codes "print")
        then (do sys (K.write c_socket buffer (strlen buffer)); sys (K.close c_socket); pure line)
        else (do sys (K.close c_socket); pure line)

  pub server_main : List ℕ → ℕ → Prog K.State Status
  server_main r_buffer rounds = do
    s_socket ← sys K.socket
    bound ← sys (K.bind s_socket port)
    if is_minus_one bound
        then (do print (printf "Cannot Bind\n" []); pure (returned minus_one))
        else (do
          listening ← sys (K.listen s_socket 5)
          if is_minus_one listening
              then (do print (printf "listen Fail\n" []); pure (returned minus_one))
              else accept_loop K serve s_socket rounds r_buffer)

  -- `word` and `rcv_buffer` are what the arrays hold.
  pub client_main : List ℕ → List ℕ → Prog K.State ℤ
  client_main word rcv_buffer = do
    c_socket ← sys K.socket
    connected ← sys (K.connect c_socket (codes "127.0.0.1") port)
    if is_minus_one connected
        then (do print (printf "Cannot connect\n" []); sys (K.close c_socket); pure minus_one)
        else (do
          typed ← sys K.scanf
          print (printf "send Data: %s\n" (text (c_str (strcpy word typed)) ∷ []))
          sys (K.write c_socket (strcpy word typed) (strlen (strcpy word typed) + 1))
          n ← sys (K.read c_socket (bufsiz - 1))
          elim n [
            | none ↦ pure minus_one
            | some bytes ↦ do
              print (printf "receive Data: %s\n" (text (c_str (overwrite rcv_buffer 0 bytes)) ∷ []))
              sys (K.close c_socket)
              pure (pos 0)
          ])

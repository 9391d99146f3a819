-- ===== src/Tcp/EchoServer.antt =====
-- tcp_ip_programming/just_study/8.echo_service_tcp/echo_server.c
pub mod Service
use linux_programming_exampl.Prelude.{
  ℕ, zero, suc, ◌-◌, ◌^◌, ℤ, minus_one, is_minus_one, Bool, true, false, Option, none, some, List,
  [], ◌∷◌, if◌then◌else◌, length, ◌==◌,
}
use linux_programming_exampl.Program.{
  Prog, World, Status, running, returned, text, printf, pure, stuck, ◌>>=◌, ◌>>◌, print, sys,
}
use linux_programming_exampl.CMemory.{c_str, overwrite}
use linux_programming_exampl.Tcp.Kernel.{TcpOs, bufsiz}
use linux_programming_exampl.Tcp.Loop.{accept_loop}

abbrev pub port : ℕ
port = 9000

-- -1 as a `size_t`.
abbrev pub size_max : ℕ
size_max = 2 ^ 64 - 1

module _ (K : TcpOs) (fuel : ℕ) where
  -- The inner loop. The buffer has no zero byte at the end of what was read, so that what is printed
  -- goes on with older bytes.
  pub echo_loop : ℕ → ℤ → List ℕ → Prog K.State (List ℕ)
  echo_loop zero c_socket rcv_buffer = stuck
  echo_loop (suc rounds) c_socket rcv_buffer = do
    n ← sys (K.read c_socket bufsiz)
    elim n [
      | none ↦ do
        print (printf "%s" (text (c_str rcv_buffer) ∷ []))
        sys (K.write c_socket rcv_buffer size_max)
        echo_loop rounds c_socket rcv_buffer
      | some bytes ↦ elim (length bytes == 0) [
        | true ↦ pure rcv_buffer
        | false ↦ do
          print (printf "%s" (text (c_str (overwrite rcv_buffer 0 bytes)) ∷ []))
          sys (K.write c_socket (overwrite rcv_buffer 0 bytes) (length bytes))
          echo_loop rounds c_socket (overwrite rcv_buffer 0 bytes)
      ]
    ]

  pub serve : List ℕ → ℤ → Prog K.State (List ℕ)
  serve rcv_buffer c_socket = do
    buffer ← echo_loop fuel c_socket rcv_buffer
    sys (K.close c_socket)
    pure buffer

  pub server_main : List ℕ → ℕ → Prog K.State Status
  server_main rcv_buffer rounds = do
    s_socket ← sys K.socket
    bound ← sys (K.bind s_socket port)
    if is_minus_one bound
        then (do print (printf "Cannot bind\n" []); pure (returned minus_one))
        else (do
          listening ← sys (K.listen s_socket 5)
          if is_minus_one listening
              then (do print (printf "listen Fail\n" []); pure (returned minus_one))
              else accept_loop K serve s_socket rounds rcv_buffer)

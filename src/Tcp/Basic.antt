-- ===== src/Tcp/Basic.antt =====
-- tcp_ip_programming/just_study/1.basic: a server that says "hello world", and its client.
pub mod Service
use linux_programming_exampl.Prelude.{
  ℕ, ◌-◌, ℤ, pos, minus_one, is_minus_one, Bool, true, false, Option, none, some, List, [], ◌∷◌,
  ◌++◌, replicate, if◌then◌else◌, length,
}
use linux_programming_exampl.Program.{
  Prog, World, Status, running, returned, text, printf, pure, ◌>>=◌, ◌>>◌, print, sys,
}
use linux_programming_exampl.CMemory.{codes, c_str, strlen, overwrite}
use linux_programming_exampl.Tcp.Kernel.{TcpOs, bufsiz}
use linux_programming_exampl.Tcp.Loop.{accept_loop}

abbrev pub port : ℕ
port = 9000

-- `char buffer[BUFSIZ] = "hello world"`
abbrev pub buffer : List ℕ
buffer = codes "hello world" ++ replicate (bufsiz - 11) 0

module _ (K : TcpOs) where
  -- The body of the loop behind `accept`.
  pub serve : Unit {0} → ℤ → Prog K.State (Unit {0})
  serve u c_socket = do
    sys (K.write c_socket buffer (strlen buffer))
    sys (K.close c_socket)
    pure tt

  pub server_main : ℕ → Prog K.State Status
  unfolding serve
  server_main rounds = do
    s_socket ← sys K.socket
    bound ← sys (K.bind s_socket port)
    if is_minus_one bound
        then (do print (printf "Cannot Bind\n" []); pure (returned minus_one))
        else (do
          listening ← sys (K.listen s_socket 5)
          if is_minus_one listening
              then (do print (printf "listen Fail\n" []); pure (returned minus_one))
              else accept_loop K serve s_socket rounds tt)

  -- `rcv_buffer` is what the array holds.
  pub client_main : List ℕ → Prog K.State ℤ
  client_main rcv_buffer = do
    c_socket ← sys K.socket
    connected ← sys (K.connect c_socket (codes "127.0.0.1") port)
    if is_minus_one connected
        then (do print (printf "Cannot connect\n" []); sys (K.close c_socket); pure minus_one)
        else (do
          n ← sys (K.read c_socket bufsiz)
          elim n [
            | none ↦ pure minus_one
            | some bytes ↦ do
              print (
                  printf "receive Data: %s\n" (
                    text (c_str (overwrite (overwrite rcv_buffer 0 bytes) (length bytes) (0 ∷ [])))
                    ∷ []))
              sys (K.close c_socket)
              pure (pos 0)
          ])

-- ===== src/Echo/Main.antt =====
-- tcp_ip_programming/just_study/12.fork_echo_service/echo_fork_server.c: `main`.
pub mod Parent
pub mod Child
mod Tests
use linux_programming_exampl.Prelude.{
  ℕ, zero, suc, ℤ, pos, negsuc, minus_one, is_minus_one, List, [], ◌∷◌, Bool, true, false, Option,
  none, some, if◌then◌else◌,
}
use linux_programming_exampl.Program.{
  Prog, World, Status, running, returned, printf, pure, ◌>>=◌, ◌>>◌, print, sys, call,
}
use linux_programming_exampl.Tcp.Kernel.{TcpOs}
use linux_programming_exampl.Tcp.EchoServer.{port}
use linux_programming_exampl.Echo.{do_echo}
use linux_programming_exampl.Echo.Kernel.{EchoOs}

-- The calls that `do_echo` makes.
abbrev pub echo_os : TcpOs → EchoOs
echo_os K = record { State = K.State; read = K.read; write = K.write }

-- `fuel` bounds the rounds of `do_echo`, and `stack` is what its array holds when it starts.
module _ (K : TcpOs) (fuel : ℕ) (stack : List ℕ) where
  -- The loop, followed for `rounds` rounds, of the process that runs it: `fork` gives 0 in a child,
  -- which goes on to the next round behind `do_echo`.
  pub fork_loop : ℤ → ℕ → Prog K.State Status
  fork_loop s_socket zero = pure running
  fork_loop s_socket (suc rounds) = do
    c_socket ← call (K.accept s_socket)
    pid ← sys K.fork
    elim pid [
      | negsuc n ↦ do print (printf "echo sercer can not fork()\n" []); pure (returned minus_one)
      | pos zero ↦ do
        sys (K.close s_socket)
        do_echo (echo_os K) fuel c_socket stack
        fork_loop s_socket rounds
      | pos (suc n) ↦ do sys (K.close c_socket); fork_loop s_socket rounds
    ]

  pub server_main : ℕ → Prog K.State Status
  server_main rounds = do
    s_socket ← sys K.socket
    bound ← sys (K.bind s_socket port)
    if is_minus_one bound
        then (do print (printf "Cannot bind\n" []); pure (returned minus_one))
        else (do
          listening ← sys (K.listen s_socket 5)
          if is_minus_one listening
              then (do print (printf "listen Fail \n" []); pure (returned minus_one))
              else fork_loop s_socket rounds)

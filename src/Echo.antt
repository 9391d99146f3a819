-- ===== src/Echo.antt =====
-- tcp_ip_programming/just_study/12.fork_echo_service/echo_fork_server.c: the service of
-- one connection, and in Main the server.
pub mod Kernel
pub mod Service
pub mod Main
mod Tests
use linux_programming_exampl.Prelude.{
  ℕ, zero, suc, ◌-◌, ◌^◌, ℤ, Bool, true, false, Option, none, some, List, [], ◌∷◌, ◌==◌, length,
}
use linux_programming_exampl.Program.{Prog, World, printf, pure, stuck, ◌>>=◌, ◌>>◌, print, sys}
use linux_programming_exampl.CMemory.{overwrite}
use Kernel.{EchoOs, bufsiz}

-- -1 as a `size_t`.
abbrev pub size_max : ℕ
size_max = 2 ^ 64 - 1

module _ (K : EchoOs) where
  -- `rounds` bounds the rounds of the loop, and `rcv_buffer` is what the array holds.
  pub do_echo : ℕ → ℤ → List ℕ → Prog K.State (Unit {0})
  do_echo zero conn_sock rcv_buffer = stuck
  do_echo (suc rounds) conn_sock rcv_buffer = do
    n ← sys (K.read conn_sock bufsiz)
    elim n [
      | none ↦ do
        print (printf "child\n" [])
        sys (K.write conn_sock rcv_buffer size_max)
        do_echo rounds conn_sock rcv_buffer
      | some bytes ↦ elim (length bytes == 0) [
        | true ↦ pure tt
        | false ↦ do
          print (printf "child\n" [])
          sys (K.write conn_sock (overwrite rcv_buffer 0 bytes) (length bytes))
          do_echo rounds conn_sock (overwrite rcv_buffer 0 bytes)
      ]
    ]

-- ===== src/Talk.antt =====
-- tcp_ip_programming/just_study/14.talk_program/talk_server.c. The branches behind `fork` are empty in
-- the source, and `do_keyboard` is not called.
pub mod Keyboard
pub mod Descriptors
mod Tests
use linux_programming_exampl.Prelude.{
  ℕ, zero, suc, ℤ, pos, negsuc, minus_one, is_minus_one, int_eq, Bool, true, false, ◌==◌, Option,
  none, some, List, [], ◌∷◌, if◌then◌else◌, length, get_or, ltb,
}
use linux_programming_exampl.Program.{
  Prog, Status, running, returned, printf, pure, stuck, ◌>>=◌, ◌>>◌, print, sys, call, act,
}
use linux_programming_exampl.CMemory.{overwrite, atoi}
use linux_programming_exampl.Semaphore.Sysv.{to_u16}
use linux_programming_exampl.Tcp.Kernel.{TcpOs, bufsiz}
use linux_programming_exampl.Udp.Broadcast.{strncmp_eq}

abbrev pub sigquit : ℕ
sigquit = 3

-- `do_keyboard` uses the names `quit` and `pid`, which are not declared: they are arguments, as is the
-- call of `kill`.
module _ (K : TcpOs) (kill : ℤ → ℕ → K.State → K.State) (quit : List ℕ) (pid : ℤ) where
  -- `sbuf` is what the array holds.
  pub do_keyboard : ℕ → ℤ → List ℕ → Prog K.State (Unit {0})
  do_keyboard zero listen_sock sbuf = stuck
  do_keyboard (suc rounds) listen_sock sbuf = do
    n ← sys (K.read (pos 0) bufsiz)
    elim n [
      | none ↦ pure tt
      | some bytes ↦ elim (length bytes == 0) [
        | true ↦ pure tt
        | false ↦ do
          sent ← sys (K.write listen_sock (overwrite sbuf 0 bytes) (length bytes))
          if int_eq sent (pos (length bytes))
              then pure tt
              else print (printf "Talk server fail in sending\n" [])
          elim (strncmp_eq (overwrite sbuf 0 bytes) quit 4) [
            | true ↦ act (kill pid sigquit)
            | false ↦ do_keyboard rounds listen_sock (overwrite sbuf 0 bytes)
          ]
      ]
    ]

module _ (K : TcpOs) where
  -- The loop, followed for `rounds` rounds: parent and child go on in the same way.
  pub talk_loop : ℤ → ℕ → Prog K.State Status
  talk_loop conn_sock zero = pure running
  talk_loop conn_sock (suc rounds) = do
    listen_sock ← call (K.accept conn_sock)
    elim listen_sock [
      | negsuc n ↦ do print (printf "accept fail!\n" []); pure (returned minus_one)
      | pos fd ↦ do
        pid ← sys K.fork
        elim pid [
          | negsuc n ↦ do print (printf "fork error\n" []); pure (returned minus_one)
          | pos n ↦ talk_loop conn_sock rounds
        ]
    ]

  -- `port` is what `htons(atoi(argv[1]))` is for.
  pub server_main : List (List ℕ) → ℕ → Prog K.State Status
  server_main args rounds = do
    conn_sock ← sys K.socket
    bound ← sys (K.bind conn_sock (to_u16 (atoi (get_or args 1 []))))
    if is_minus_one bound
        then (do print (printf "Cannot bind\n" []); pure (returned minus_one))
        else (do
          listening ← sys (K.listen conn_sock 5)
          if is_minus_one listening
              then (do print (printf "listen Fail\n" []); pure (returned minus_one))
              else talk_loop conn_sock rounds)

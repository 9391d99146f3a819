-- ===== src/Tcp/EchoClient.antt =====
-- tcp_ip_programming/just_study/8.echo_service_tcp/echo_client.c
pub mod Session
pub mod Refinement
mod Tests
use linux_programming_exampl.Prelude.{
  ℕ, zero, suc, ◌+◌, ◌-◌, ℤ, pos, negsuc, minus_one, is_minus_one, Bool, true, false, Option, none,
  some, List, [], ◌∷◌, if◌then◌else◌, length, ◌==◌,
}
use linux_programming_exampl.Program.{
  Prog, World, text, printf, pure, stuck, ◌>>=◌, ◌>>◌, print, sys,
}
use linux_programming_exampl.CMemory.{codes, c_str, strcmp_eq, strlen, overwrite}
use linux_programming_exampl.Tcp.Kernel.{TcpOs, bufsiz}
use linux_programming_exampl.Tcp.EchoServer.{port}

-- What a line that was read from the terminal is, with the zero byte behind it.
pub terminated : List ℕ → List ℕ → List ℕ
terminated snd_buffer bytes = overwrite (overwrite snd_buffer 0 bytes) (length bytes) (0 ∷ [])

module _ (K : TcpOs) where
  -- The inner loop: what is in `rcvBuffer` and `n_recv`, or `none` when the program returns -1.
  pub read_back : ℕ → ℤ → ℕ → ℕ → List ℕ → Prog K.State (Option (List ℕ × ℕ))
  read_back rounds c_socket zero n_recv rcv_buffer = pure (some (rcv_buffer, n_recv))
  read_back zero c_socket (suc n_left) n_recv rcv_buffer = stuck
  read_back (suc rounds) c_socket (suc n_left) n_recv rcv_buffer = do
    n ← sys (K.read c_socket (suc n_left))
    elim n [
      | none ↦ do print (printf "fin write 2\n" []); pure none
      | some bytes ↦
          read_back rounds c_socket (suc n_left - length bytes) (n_recv + length bytes)
            (overwrite rcv_buffer n_recv bytes)
    ]

module _ (K : TcpOs) (fuel : ℕ) where
  -- The outer loop: `none` behind the `break`, and else what the program returns.
  pub client_loop : ℕ → ℤ → List ℕ → List ℕ → Prog K.State (Option ℤ)
  client_loop zero c_socket snd_buffer rcv_buffer = stuck
  client_loop (suc rounds) c_socket snd_buffer rcv_buffer = do
    n ← sys (K.read (pos 0) bufsiz)
    elim n [
      | none ↦ do
        print (printf "^_^ please retry\n" [])
        client_loop rounds c_socket snd_buffer rcv_buffer
      | some bytes ↦ elim (length bytes == 0) [
        | true ↦ do
          print (printf "^_^ please retry\n" [])
          client_loop rounds c_socket snd_buffer rcv_buffer
        | false ↦ elim (strcmp_eq (terminated snd_buffer bytes) (codes "quit\n")) [
          | true ↦ pure none
          | false ↦ do
            print (printf "original data: %s" (text (c_str (terminated snd_buffer bytes)) ∷ []))
            n ← sys (
                K.write c_socket (terminated snd_buffer bytes)
                  (strlen (terminated snd_buffer bytes)))
            elim n [
              | negsuc k ↦ do print (printf "fin write\n" []); pure (some minus_one)
              | pos n_left ↦ do
                back ← read_back K fuel c_socket n_left 0 rcv_buffer
                elim back [
                  | none ↦ pure (some minus_one)
                  | some (received, n_recv) ↦ do
                    print (
                        printf "echoed Data: %s"
                          (text (c_str (overwrite received n_recv (0 ∷ []))) ∷ []))
                    client_loop rounds c_socket (terminated snd_buffer bytes)
                        (overwrite received n_recv (0 ∷ []))
                ]
            ]
        ]
      ]
    ]

  -- `main` ends without `return`, which is 0.
  pub client_main : ℕ → List ℕ → List ℕ → Prog K.State ℤ
  client_main rounds snd_buffer rcv_buffer = do
    c_socket ← sys K.socket
    connected ← sys (K.connect c_socket (codes "127.0.0.1") port)
    if is_minus_one connected
        then (do print (printf "Cannet connect\n" []); sys (K.close c_socket); pure minus_one)
        else (do
          print (printf "Success Connection\n" [])
          result ← client_loop rounds c_socket snd_buffer rcv_buffer
          elim result [ none ↦ do sys (K.close c_socket); pure (pos 0) | some code ↦ pure code ])

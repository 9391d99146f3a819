-- ===== src/Udp/Broadcast.antt =====
-- tcp_ip_programming/just_study/10.broadcasting_udp: broadcster_udp.c and reader_udp.c
pub mod Reader
use linux_programming_exampl.Prelude.{
  ℕ, zero, suc, ◌-◌, ℤ, pos, negsuc, minus_one, int_eq, is_minus_one, Bool, true, false, ◌==◌,
  Option, none, some, List, [], ◌∷◌, if◌then◌else◌, length, take, get_or,
}
use linux_programming_exampl.Program.{
  Prog, Status, running, returned, int, text, printf, pure, stuck, ◌>>=◌, ◌>>◌, print, sys, call,
}
use linux_programming_exampl.CMemory.{codes, c_str, bytes_eq, strlen, overwrite, atoi}
use linux_programming_exampl.Tcp.Kernel.{bufsiz}
use linux_programming_exampl.Udp.Kernel.{UdpOs, SockaddrIn, af_inet}
use linux_programming_exampl.Udp.EchoServer.{inaddr_any}
use linux_programming_exampl.Semaphore.Sysv.{to_u16}

-- `strncmp(a, b, n) == 0`
unfoldable pub strncmp_eq : List ℕ → List ℕ → ℕ → Bool
strncmp_eq a b n = bytes_eq (take n (c_str a)) (take n (c_str b))

-- Both programs store the string literal "\0", which is an address, into an element of the array:
-- `literal` is the low byte of that address.
module _ (K : UdpOs) (literal : ℕ) where
  -- The loop, followed for `rounds` rounds.
  pub broadcast_loop : ℤ → SockaddrIn → ℕ → List ℕ → Prog K.State Status
  broadcast_loop sd s_addr zero snd_buffer = pure running
  broadcast_loop sd s_addr (suc rounds) snd_buffer = do
    print (printf "Type broadcasting data: " [])
    n ← sys (K.read (pos 0) bufsiz)
    elim n [
      | none ↦ broadcast_loop sd s_addr rounds snd_buffer
      | some bytes ↦ elim (length bytes == 0) [
        | true ↦ broadcast_loop sd s_addr rounds snd_buffer
        | false ↦
            let line : List ℕ =
              overwrite (overwrite snd_buffer 0 bytes) (length bytes - 1) (literal ∷ []) in
            do
              n_send ← sys (K.sendto sd line (strlen line) s_addr)
              elim n_send [
                | negsuc k ↦ do print (printf "sendto() error\n" []); pure (returned minus_one)
                | pos k ↦ elim (strncmp_eq line (codes "quit") 4) [
                  | true ↦ pure (returned (pos 0))
                  | false ↦ broadcast_loop sd s_addr rounds line
                ]
              ]
      ]
    ]

  -- `port` is what `htons` makes of the pointer `argv[2]`.
  pub broadcaster_main : ℕ → List (List ℕ) → ℕ → List ℕ → Prog K.State Status
  broadcaster_main port args rounds snd_buffer = elim (length args == 3) [
    | false ↦ do print (printf "usage: UDP broadcasst_ip_addr port\n" []); pure (returned minus_one)
    | true ↦ do
      sd ← sys K.socket
      status ← sys (K.setsockopt_broadcast sd)
      if int_eq status (pos 0)
          then broadcast_loop sd
              (record {
                sin_family = af_inet;
                s_addr = K.inet_addr (get_or args 1 []);
                sin_port = port;
              })
              rounds snd_buffer
          else (do print (printf "setsockopt error\n" []); pure (returned minus_one))
  ]

  -- The array behind a datagram.
  pub received : List ℕ → List ℕ → List ℕ
  received rcv_buffer bytes = overwrite (overwrite rcv_buffer 0 bytes) (length bytes) (literal ∷ [])

  pub reader_loop : ℤ → ℕ → List ℕ → Prog K.State Status
  reader_loop sd zero rcv_buffer = pure running
  reader_loop sd (suc rounds) rcv_buffer = do
    n ← call (K.recvfrom sd bufsiz)
    elim n [
      | none ↦ do print (printf "recvfrom error\n" []); pure (returned minus_one)
      | some (bytes, c_addr) ↦ elim (strncmp_eq (received rcv_buffer bytes) (codes "quit") 4) [
        | true ↦ pure (returned (pos 0))
        | false ↦ do
          print (
              printf "Broadcast from %s [%s] \n"
                (text (K.inet_ntoa c_addr.s_addr) ∷ text (c_str (received rcv_buffer bytes)) ∷ []))
          reader_loop sd rounds (received rcv_buffer bytes)
      ]
    ]

  pub reader_main : List (List ℕ) → ℕ → List ℕ → Prog K.State Status
  reader_main args rounds rcv_buffer = elim (length args == 2) [
    | false ↦ do print (printf "usage: UDPreader port\n" []); pure (returned minus_one)
    | true ↦ do
      sd ← sys K.socket
      bound ← sys (
          K.bind sd (record {
            sin_family = af_inet;
            s_addr = K.htonl inaddr_any;
            sin_port = K.htons (to_u16 (atoi (get_or args 1 [])));
          }))
      if int_eq bound (pos 0)
          then (do
            status ← reader_loop sd rounds rcv_buffer
            elim status [
              | running ↦ pure running
              | returned code ↦ elim (int_eq code (pos 0)) [
                | true ↦ do sys (K.close sd); pure (returned code)
                | false ↦ pure (returned code)
              ]
            ])
          else (do print (printf "bind error\n" []); pure (returned minus_one))
  ]

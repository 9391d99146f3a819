-- ===== src/Udp/EchoServer.antt =====
-- tcp_ip_programming/just_study/9.echo_service_udp/server.c
pub mod Replies
use linux_programming_exampl.Prelude.{
  ℕ, zero, suc, ℤ, pos, negsuc, minus_one, Bool, true, false, ◌==◌, Option, none, some, List, [],
  ◌∷◌, if◌then◌else◌,
}
use linux_programming_exampl.Program.{
  Prog, Status, running, returned, int, text, printf, pure, ◌>>=◌, ◌>>◌, print, sys, call,
}
use linux_programming_exampl.CMemory.{codes, overwrite}
use linux_programming_exampl.Tcp.Kernel.{bufsiz}
use linux_programming_exampl.Udp.Kernel.{UdpOs, SockaddrIn, af_inet, af_inet6}

abbrev pub inaddr_any : ℕ
inaddr_any = 0

abbrev pub port : ℕ
port = 9200

-- The name of the family that is printed.
abbrev pub family_name : ℕ → List ℕ
family_name sin_family =
    if sin_family == af_inet
    then codes "AF_INET"
    else if sin_family == af_inet6
    then codes "AF_INET6"
    else codes "IDONTKNOW"

module _ (K : UdpOs) where
  pub print_sockaddr_in : SockaddrIn → Prog K.State (Unit {0})
  print_sockaddr_in addr = do
    print (printf "====================\n" [])
    print (printf " - sockaddr_in structure info print \n" [])
    print (printf "[*] sockaddr_in.sin_family: %s\n" (text (family_name addr.sin_family) ∷ []))
    print (printf "[*] sockaddr_in.sin_addr.s_addr : %s\n" (text (K.inet_ntoa addr.s_addr) ∷ []))
    print (printf "[*] sockaddr_in.sin_port : %d\n" (int (pos (K.ntohs addr.sin_port)) ∷ []))
    print (printf "====================\n" [])

  -- The address that the server binds.
  abbrev pub address : SockaddrIn
  address = record { sin_family = af_inet; s_addr = K.htonl inaddr_any; sin_port = K.htons port }

  -- The loop, followed for `rounds` rounds, where `buf` is what the array holds. The reply is the
  -- whole array.
  pub server_loop : ℤ → ℕ → List ℕ → Prog K.State Status
  server_loop sd zero buf = pure running
  server_loop sd (suc rounds) buf = do
    print (printf "waiting\n" [])
    n_recv ← call (K.recvfrom sd bufsiz)
    elim n_recv [
      | none ↦ do print (printf "recvfrom() error\n" []); pure (returned minus_one)
      | some (bytes, c_addr) ↦ do
        n ← sys (K.sendto sd (overwrite buf 0 bytes) bufsiz c_addr)
        elim n [
          | negsuc k ↦ do print (printf "sendto() error\n" []); pure (returned minus_one)
          | pos k ↦ server_loop sd rounds (overwrite buf 0 bytes)
        ]
    ]

  pub server_main : ℕ → List ℕ → Prog K.State Status
  server_main rounds buf = do
    sd ← sys K.socket
    print_sockaddr_in address
    bound ← sys (K.bind sd address)
    elim bound [
      | negsuc k ↦ do print (printf "bind() error \n" []); pure (returned minus_one)
      | pos k ↦ server_loop sd rounds buf
    ]

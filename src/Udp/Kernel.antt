-- ===== src/Udp/Kernel.antt =====
-- The calls that the programs over UDP make.
use linux_programming_exampl.Prelude.{ℕ, ℤ, Option, List}

-- `struct sockaddr_in`, with its numbers in the order of the network.
pub record SockaddrIn : Type 0 where
  pub sin_family : ℕ
  pub s_addr : ℕ
  pub sin_port : ℕ

abbrev pub af_inet : ℕ
af_inet = 2

abbrev pub af_inet6 : ℕ
af_inet6 = 10

-- `read` gives the bytes, or `none` for -1. `recvfrom` has the outer `none` for a process that waits
-- for good, and gives the bytes and their sender, or `none` for -1. Both cut a datagram to the
-- number of bytes that is asked for. `sendto` and `write` take the buffer and the number of bytes.
-- `setsockopt_broadcast` is `setsockopt` that switches SO_BROADCAST on.
pub record UdpOs : Type 1 where
  pub State : Type 0
  pub socket : State → ℤ × State
  pub bind : ℤ → SockaddrIn → State → ℤ × State
  pub connect : ℤ → SockaddrIn → State → ℤ × State
  pub read : ℤ → ℕ → State → Option (List ℕ) × State
  pub write : ℤ → List ℕ → ℕ → State → ℤ × State
  pub recvfrom : ℤ → ℕ → State → Option (Option (List ℕ × SockaddrIn) × State)
  pub sendto : ℤ → List ℕ → ℕ → SockaddrIn → State → ℤ × State
  pub htons : ℕ → ℕ
  pub ntohs : ℕ → ℕ
  pub htonl : ℕ → ℕ
  pub inet_ntoa : ℕ → List ℕ
  pub inet_addr : List ℕ → ℕ
  pub setsockopt_broadcast : ℤ → State → ℤ × State
  pub close : ℤ → State → ℤ × State

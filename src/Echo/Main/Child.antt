-- ===== src/Echo/Main/Child.antt =====
-- A child of the forking echo server: its service, and what it does when its peer is gone.
use linux_programming_exampl.Prelude.{
  ℕ, suc, ◌≡◌, ℤ, pos, minus_one, int_eq, false, none, some, List,
}
use linux_programming_exampl.Tcp.Kernel.{TcpOs}
use linux_programming_exampl.Echo.Kernel.{IsConnection}
use linux_programming_exampl.Echo.Main.{echo_os}

-- A child of the server, with the listening socket and the socket of its connection. `Closed`: it has
-- closed the listening socket; `children` counts the processes that it has made. The calls behave as
-- accept(2), fork(2), read(2) and close(2) say: a closed descriptor gives -1 (EBADF).
pub record IsChild (K : TcpOs) (s_socket c_socket : ℤ) : Type 1 where
  pub distinct : int_eq c_socket s_socket ≡ false
  pub connection : IsConnection (echo_os K) c_socket
  pub Closed : K.State → Type 0
  pub children : K.State → ℕ
  pub closes :
      (s : K.State)
      → Closed (K.close s_socket s).1
        × (children (K.close s_socket s).1 ≡ children s)
        × (connection.input (K.close s_socket s).1 ≡ connection.input s)
        × (connection.output (K.close s_socket s).1 ≡ connection.output s)
  pub reads :
      (n : ℕ) (s : K.State)
      → Closed s
      → Closed (K.read c_socket n s).1 × (children (K.read c_socket n s).1 ≡ children s)
  pub read_closed : (n : ℕ) (s : K.State) → Closed s → K.read s_socket n s ≡ (none, s)
  pub writes :
      (buf : List ℕ) (n : ℕ) (s : K.State)
      → Closed s
      → Closed (K.write c_socket buf n s).1 × (children (K.write c_socket buf n s).1 ≡ children s)
  pub accept_closed :
      (s : K.State)
      → Closed s
      → (s' : K.State) × (K.accept s_socket s ≡ some (minus_one, s'))
        × Closed s'
        × (children s' ≡ children s)
        × (connection.output s' ≡ connection.output s)
  pub forks :
      (s : K.State)
      → Closed s
      → (pid : ℕ) × ((K.fork s).0 ≡ pos (suc pid))
        × Closed (K.fork s).1
        × (children (K.fork s).1 ≡ suc (children s))
        × (connection.output (K.fork s).1 ≡ connection.output s)
  pub close_none :
      (s : K.State)
      → Closed s
      → Closed (K.close minus_one s).1
        × (children (K.close minus_one s).1 ≡ children s)
        × (connection.output (K.close minus_one s).1 ≡ connection.output s)

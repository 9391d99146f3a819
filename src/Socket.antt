-- ===== src/Socket.antt =====
-- socket_example/main.c: one message over a UNIX-domain socket, as a stream or as a datagram.
pub mod Kernel
pub mod Recv
pub mod Send
pub mod Session
pub mod Usage
pub mod Descriptors
mod Tests
use linux_programming_exampl.Prelude.{
  ℕ, zero, suc, ◌+◌, ◌-◌, ℤ, pos, minus_one, is_minus_one, Bool, true, false, not, Option, none,
  some, List, [], ◌∷◌, ◌==◌, ltb, if◌then◌else◌, length, take, drop, replicate, get_or,
}
use linux_programming_exampl.Program.{
  Prog, World, Arg, text, Output, printf, perror, pure, stuck, ◌>>=◌, ◌>>◌, print, sys,
}
use linux_programming_exampl.CMemory.{codes, c_str, strcmp_eq, overwrite, memset, strcpy, strncpy}
use Kernel.{SocketOs}

-- `QUEUE_DEFAULT_NUM`, `BUF_MAX_LEN`, the constants of sys/socket.h, and the sizes of a pointer and
-- of `sun_path` on a 64-bit Linux.
abbrev pub queue_default_num : ℕ
queue_default_num = 5

abbrev pub buf_max_len : ℕ
buf_max_len = 4096

abbrev pub af_unix : ℕ
af_unix = 1

abbrev pub sock_stream : ℕ
sock_stream = 1

abbrev pub sock_dgram : ℕ
sock_dgram = 2

abbrev pub sizeof_pointer : ℕ
sizeof_pointer = 8

abbrev pub sizeof_sun_path : ℕ
sizeof_sun_path = 108

abbrev pub filepath_len : ℕ
filepath_len = 1024

module _ {S : Type 0} where
  pub print_help : List ℕ → Prog S (Unit {0})
  print_help progname =
      print (printf "Usage: %s (s|c Message) (stream|datagram) (filepath)\n" (text progname ∷ []))

  -- The result, and the new value of `*out`.
  pub setting_sock_type : List ℕ → ℕ → Prog S (ℤ × ℕ)
  setting_sock_type type out =
      if strcmp_eq type (codes "stream")
      then pure (pos 0, sock_stream)
      else if strcmp_eq type (codes "datagram")
      then pure (pos 0, sock_dgram)
      else (do
        print (printf "[ERROR] setting_sock_type - input wrong socket type\n " [])
        pure (minus_one, out))

-- `memset` clears `sizeof(out)` bytes, and `out` is a pointer.
pub setting_sock_filepath : List ℕ → List ℕ → List ℕ
setting_sock_filepath path out = strcpy (memset out 0 sizeof_pointer) path

-- The `sun_path` of the address that both sides build.
pub sun_path : List ℕ → List ℕ
sun_path filepath = strncpy (replicate sizeof_sun_path 0) filepath (sizeof_sun_path - 1)

-- `fuel` bounds the rounds of each loop.
module _ (K : SocketOs) (fuel : ℕ) where
  -- The loop of `partial_message_recv`. The result holds the buffer as the call leaves it.
  pub recv_loop : ℕ → ℤ → List ℕ → ℕ → ℕ → ℕ → Prog K.State (ℤ × List ℕ)
  recv_loop zero fd buf size flags written = stuck
  recv_loop (suc rounds) fd buf size flags written = do
    ret ← sys (K.recv fd (size - written) flags)
    elim ret [
      | none ↦ do print (perror "recv()"); pure (minus_one, buf)
      | some bytes ↦ elim (length bytes == 0) [
        | true ↦ pure (pos 0, buf)
        | false ↦
            recv_loop rounds fd (overwrite buf written bytes) size flags (written + length bytes)
      ]
    ]

  pub partial_message_recv : ℤ → List ℕ → ℕ → ℕ → Prog K.State (ℤ × List ℕ)
  unfolding recv_loop
  partial_message_recv fd buf size flags = recv_loop fuel fd buf size flags 0

  -- The loop of `partial_message_send`.
  pub send_loop : ℕ → ℤ → List ℕ → ℕ → ℕ → ℕ → Prog K.State ℤ
  send_loop zero fd buf size flags written = stuck
  send_loop (suc rounds) fd buf size flags written = elim (ltb written size) [
    | true ↦ do
      ret ← sys (K.send fd (take (size - written) (drop written buf)) flags)
      elim ret [ none ↦ pure minus_one | some n ↦ send_loop rounds fd buf size flags (written + n) ]
    | false ↦ do print (printf "send data: %s\n" (text (c_str buf) ∷ [])); pure (pos 0)
  ]

  pub partial_message_send : ℤ → List ℕ → ℕ → ℕ → Prog K.State ℤ
  unfolding send_loop
  partial_message_send fd buf size flags = send_loop fuel fd buf size flags 0

  pub recv_stream : ℤ → List ℕ → Prog K.State ℤ
  recv_stream server_fd buf = do
    sys (K.listen server_fd queue_default_num)
    client_fd ← sys (K.accept server_fd)
    (ret, buf') ← partial_message_recv client_fd buf buf_max_len 0
    if is_minus_one ret
        then (do sys (K.close server_fd); sys (K.close client_fd); pure minus_one)
        else (do
          print (printf "Server : Client said %s\n" (text (c_str buf') ∷ []))
          sys (K.close server_fd)
          sys (K.close client_fd)
          pure (pos 0))

  pub recv_datagram : ℤ → List ℕ → Prog K.State ℤ
  recv_datagram server_fd buf = do
    ret ← sys (K.recvfrom server_fd buf_max_len 0)
    elim ret [
      | none ↦ do print (perror "recvfrom()"); sys (K.close server_fd); pure minus_one
      | some bytes ↦ do
        print (printf "Server : Client said %s\n" (text (c_str (overwrite buf 0 bytes)) ∷ []))
        sys (K.close server_fd)
        pure (pos 0)
    ]

  wrong_socket_type : Prog K.State ℤ
  wrong_socket_type = do
    print (printf "[ERROR] do_recv_data - wrong socket_type\n" [])
    pure minus_one

  pub do_recv_data : ℕ → List ℕ → Prog K.State ℤ
  do_recv_data socket_type filepath = do
    server_fd ← sys (K.socket af_unix socket_type 0)
    if is_minus_one server_fd then (do print (perror "socket()"); pure minus_one) else (do
      bound ← sys (K.bind server_fd (sun_path filepath))
      if is_minus_one bound
          then (do print (perror "bind()"); sys (K.close server_fd); pure minus_one)
          else if socket_type == sock_stream
          then recv_stream server_fd (replicate buf_max_len 0)
          else if socket_type == sock_dgram
          then recv_datagram server_fd (replicate buf_max_len 0)
          else wrong_socket_type)

  pub send_stream : ℤ → List ℕ → List ℕ → Prog K.State ℤ
  send_stream client_fd path message = do
    connected ← sys (K.connect client_fd path)
    if is_minus_one connected
        then (do print (perror "connect()"); sys (K.close client_fd); pure minus_one)
        else (do
          ret ← partial_message_send client_fd message sizeof_pointer 0
          if is_minus_one ret
              then (do sys (K.close client_fd); pure minus_one)
              else (do sys (K.close client_fd); pure (pos 0)))

  pub send_datagram : ℤ → List ℕ → List ℕ → Prog K.State ℤ
  send_datagram client_fd path message = do
    ret ← sys (K.sendto client_fd (take sizeof_pointer message) 0 path)
    elim ret [
      | none ↦ do print (perror "sendto()"); sys (K.close client_fd); pure minus_one
      | some n ↦ do sys (K.close client_fd); pure (pos 0)
    ]

  -- The message is sent for `sizeof(message)` bytes, and `message` is a pointer.
  pub do_send_data : ℕ → List ℕ → List ℕ → Prog K.State ℤ
  do_send_data socket_type filepath message = do
    client_fd ← sys (K.socket af_unix socket_type 0)
    if is_minus_one client_fd
        then (do print (perror "socket()"); pure minus_one)
        else if socket_type == sock_stream
        then send_stream client_fd (sun_path filepath) message
        else if socket_type == sock_dgram
        then send_datagram client_fd (sun_path filepath) message
        else wrong_socket_type

  -- `main_err`
  main_err : List ℕ → Prog K.State ℤ
  main_err progname = do print_help progname; pure minus_one

  -- `goto main_err` unless the call succeeded.
  finish : List ℕ → ℤ → Prog K.State ℤ
  finish progname ret = if is_minus_one ret then main_err progname else pure (pos 0)

  server_main : List (List ℕ) → ℕ → List ℕ → Prog K.State ℤ
  server_main argv type filepath = do
    (ret, type') ← setting_sock_type (get_or argv 2 []) type
    if is_minus_one ret then main_err (get_or argv 0 []) else (do
      done ← do_recv_data type' (setting_sock_filepath (get_or argv 3 []) filepath)
      finish (get_or argv 0 []) done)

  client_main : List (List ℕ) → ℕ → List ℕ → Prog K.State ℤ
  client_main argv type filepath =
      if ltb (length argv) 5 then (do print_help (get_or argv 0 []); pure minus_one) else (do
        (ret, type') ← setting_sock_type (get_or argv 3 []) type
        if is_minus_one ret then main_err (get_or argv 0 []) else (do
          done ←
              do_send_data type' (setting_sock_filepath (get_or argv 4 []) filepath)
                (get_or argv 2 [])
          finish (get_or argv 0 []) done))

  -- `type` and `filepath` are what the uninitialised variables `SOCK_TYPE` and `filepath` hold.
  pub main : List (List ℕ) → ℕ → List ℕ → Prog K.State ℤ
  main argv type filepath =
      if ltb (length argv) 4
      then (do print_help (get_or argv 0 []); pure minus_one)
      else if strcmp_eq (get_or argv 1 []) (codes "s")
      then server_main argv type filepath
      else if strcmp_eq (get_or argv 1 []) (codes "c")
      then client_main argv type filepath
      else main_err (get_or argv 0 [])

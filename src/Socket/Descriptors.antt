-- ===== src/Socket/Descriptors.antt =====
-- socket_example/main.c leaves no descriptor open: every path of `do_recv_data` and `do_send_data`
-- closes what it has opened.
use linux_programming_exampl.Prelude.{
  ℕ, zero, suc, ◌+◌, ◌-◌, ◌≡◌, ◌∙◌, ◌⊎◌, inl, inr, ℤ, is_minus_one, int_eq→eq, Bool, false, some,
  List, arith, Bool-cases, Option-cases, length, take, drop, replicate,
}
use linux_programming_exampl.Program.{World, moved}
use linux_programming_exampl.CMemory.{overwrite}
use linux_programming_exampl.Socket.{
  recv_loop, send_loop, partial_message_recv, partial_message_send, recv_stream, recv_datagram,
  send_stream, send_datagram, do_recv_data, do_send_data, sock_stream, sock_dgram, af_unix,
  sun_path, buf_max_len, queue_default_num, sizeof_pointer,
}
use linux_programming_exampl.Socket.Kernel.{SocketOs, TracksFds, Opens, opened}

module _ (K : SocketOs) (fuel : ℕ) (T : TracksFds K) (j : ℤ) where
  recv_loop_keeps :
      (rounds : ℕ) (fd : ℤ) (buf : List ℕ) (size flags written : ℕ) (w w' : World K.State)
      (r : ℤ × List ℕ)
      → recv_loop K fuel rounds fd buf size flags written w ≡ some (r, w')
      → T.open_fds w'.os j ≡ T.open_fds w.os j
  unfolding recv_loop
  recv_loop_keeps zero fd buf size flags written w w' r h = cc
  recv_loop_keeps (suc rounds) fd buf size flags written w w' r h =
      elim (Option-cases (K.recv fd (size - written) flags w.os).0) [
        | inl failed ↦ ground (arith, T.recv_keeps fd (size - written) flags w.os j)
        | inr (bytes, ok) ↦ ground (
          arith,
          T.recv_keeps fd (size - written) flags w.os j,
          recv_loop_keeps rounds fd (overwrite buf written bytes) size flags
              (written + length bytes) (moved w (K.recv fd (size - written) flags w.os).1) w' r,
        )
      ]

  send_loop_keeps :
      (rounds : ℕ) (fd : ℤ) (buf : List ℕ) (size flags written : ℕ) (w w' : World K.State) (r : ℤ)
      → send_loop K fuel rounds fd buf size flags written w ≡ some (r, w')
      → T.open_fds w'.os j ≡ T.open_fds w.os j
  unfolding send_loop
  send_loop_keeps zero fd buf size flags written w w' r h = cc
  send_loop_keeps (suc rounds) fd buf size flags written w w' r h =
      let bytes : List ℕ = take (size - written) (drop written buf) in
      elim (Option-cases (K.send fd bytes flags w.os).0) [
        | inl failed ↦ ground (arith, T.send_keeps fd bytes flags w.os j)
        | inr (n, ok) ↦ ground (
          arith,
          T.send_keeps fd bytes flags w.os j,
          send_loop_keeps rounds fd buf size flags (written + n)
              (moved w (K.send fd bytes flags w.os).1) w' r,
        )
      ]

  recv_stream_closes :
      (s : ℤ) (buf : List ℕ) (before : ℤ → Bool) (w w' : World K.State) (r : ℤ)
      → before s ≡ false
      → ((i : ℤ) → T.open_fds w.os i ≡ opened s before i)
      → recv_stream K fuel s buf w ≡ some (r, w')
      → T.open_fds w'.os j ≡ before j
  unfolding recv_stream partial_message_recv
  recv_stream_closes s buf before w w' r fresh now h =
      let s1 : K.State = (K.listen s queue_default_num w.os).1 in
      let c : ℤ = (K.accept s s1).0 in
      let w2 : World K.State = moved w (K.accept s s1).1 in
      elim (Option-cases (recv_loop K fuel fuel c buf buf_max_len 0 0 w2)) [
        | inl never ↦ ground arith
        | inr (((st, b), w3), run) ↦
            let o : Opens (T.open_fds s1) c (T.open_fds w2.os) = T.accept_opens s s1 in
            ground (
              arith,
              recv_loop_keeps fuel c buf buf_max_len 0 0 w2 w3 (st, b) run,
              T.listen_keeps s queue_default_num w.os j,
              T.listen_keeps s queue_default_num w.os c,
              o.was_closed,
              o.is_opened j,
              now j,
              now c,
              T.close_closes s w3.os j,
              T.close_closes c (K.close s w3.os).1 j,
              int_eq→eq s j,
              int_eq→eq c j,
            )
      ]

  recv_datagram_closes :
      (s : ℤ) (buf : List ℕ) (before : ℤ → Bool) (w w' : World K.State) (r : ℤ)
      → before s ≡ false
      → T.open_fds w.os j ≡ opened s before j
      → recv_datagram K fuel s buf w ≡ some (r, w')
      → T.open_fds w'.os j ≡ before j
  unfolding recv_datagram
  recv_datagram_closes s buf before w w' r fresh now h =
      let s1 : K.State = (K.recvfrom s buf_max_len 0 w.os).1 in
      ground (arith, T.recvfrom_keeps s buf_max_len 0 w.os j, T.close_closes s s1 j, int_eq→eq s j)

  -- Whatever `do_recv_data` returns for a stream or a datagram socket, the descriptors that are open
  -- then are those that were open before.
  pub do_recv_data_closes :
      (socket_type : ℕ) (filepath : List ℕ) (w w' : World K.State) (r : ℤ)
      → (socket_type ≡ sock_stream) ⊎ (socket_type ≡ sock_dgram)
      → do_recv_data K fuel socket_type filepath w ≡ some (r, w')
      → T.open_fds w'.os j ≡ T.open_fds w.os j
  unfolding do_recv_data
  do_recv_data_closes socket_type filepath w w' r type h =
      let s : ℤ = (K.socket af_unix socket_type 0 w.os).0 in
      let s1 : K.State = (K.socket af_unix socket_type 0 w.os).1 in
      let w2 : World K.State = moved w (K.bind s (sun_path filepath) s1).1 in
      let o : Opens (T.open_fds w.os) s (T.open_fds s1) =
        T.socket_opens af_unix socket_type 0 w.os in
      elim (Bool-cases (is_minus_one s)) [
        | inl failed ↦ ground (arith, o.is_opened j)
        | inr made ↦
            let now : (i : ℤ) → T.open_fds w2.os i ≡ opened s (T.open_fds w.os) i =
              λ i. T.bind_keeps s (sun_path filepath) s1 i ∙ o.is_opened i ∙ (rw made) in
            elim (Bool-cases (is_minus_one (K.bind s (sun_path filepath) s1).0)) [
              | inl failed ↦
                  ground (arith, now j, o.was_closed, T.close_closes s w2.os j, int_eq→eq s j)
              | inr bound ↦ ground (
                arith,
                recv_stream_closes s (replicate buf_max_len 0) (T.open_fds w.os) w2 w' r
                    o.was_closed now,
                recv_datagram_closes s (replicate buf_max_len 0) (T.open_fds w.os) w2 w' r
                    o.was_closed (now j),
              )
            ]
      ]

  -- The same of `do_send_data`.
  pub do_send_data_closes :
      (socket_type : ℕ) (filepath message : List ℕ) (w w' : World K.State) (r : ℤ)
      → (socket_type ≡ sock_stream) ⊎ (socket_type ≡ sock_dgram)
      → do_send_data K fuel socket_type filepath message w ≡ some (r, w')
      → T.open_fds w'.os j ≡ T.open_fds w.os j
  unfolding do_send_data send_stream send_datagram partial_message_send
  do_send_data_closes socket_type filepath message w w' r type h =
      let s : ℤ = (K.socket af_unix socket_type 0 w.os).0 in
      let s1 : K.State = (K.socket af_unix socket_type 0 w.os).1 in
      let path : List ℕ = sun_path filepath in
      let w2 : World K.State = moved w (K.connect s path s1).1 in
      let s3 : K.State = (K.sendto s (take sizeof_pointer message) 0 path s1).1 in
      let o : Opens (T.open_fds w.os) s (T.open_fds s1) =
        T.socket_opens af_unix socket_type 0 w.os in
      elim (Option-cases (send_loop K fuel fuel s message sizeof_pointer 0 0 w2)) [
        | inl never ↦ ground (
          arith,
          o.is_opened j,
          o.was_closed,
          T.connect_keeps s path s1 j,
          int_eq→eq s j,
          T.close_closes s w2.os j,
          T.close_closes s s3 j,
          T.sendto_keeps s (take sizeof_pointer message) 0 path s1 j,
        )
        | inr ((st, w3), run) ↦ ground (
          arith,
          o.is_opened j,
          o.was_closed,
          T.connect_keeps s path s1 j,
          int_eq→eq s j,
          send_loop_keeps fuel s message sizeof_pointer 0 0 w2 w3 st run,
          T.close_closes s w2.os j,
          T.close_closes s w3.os j,
          T.close_closes s s3 j,
          T.sendto_keeps s (take sizeof_pointer message) 0 path s1 j,
        )
      ]

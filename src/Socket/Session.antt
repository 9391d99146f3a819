-- ===== src/Socket/Session.antt =====
-- One message from a client to a server of socket_example/main.c over a stream socket.
use linux_programming_exampl.Prelude.{
  ℕ, ◌-◌, ◌≤◌, ◌<◌, ◌≡◌, refl, sym, ap, ◌∙◌, ◌⊎◌, inl, inr, ℤ, pos, minus_one, is_minus_one, false,
  some, List, [], ◌∷◌, ◌++◌, arith, length, take, replicate, take_all, length-take,
}
use linux_programming_exampl.Program.{
  World, Output, text, printf, perror, moved, ◌>>=◌, some-pair_injective,
}
use linux_programming_exampl.CMemory.{c_str}
use linux_programming_exampl.CMemory.Laws.{c_str-append_zeros, c_str-take, drop-replicate}
use linux_programming_exampl.Socket.{
  recv_stream, send_stream, buf_max_len, queue_default_num, sizeof_pointer,
}
use linux_programming_exampl.Socket.Kernel.{SocketOs, IsStream}
use linux_programming_exampl.Socket.Recv.{Received, partial_message_recv_total}
use linux_programming_exampl.Socket.Send.{Sent, partial_message_send_total}

-- The string that the server's buffer holds.
Received-c_str :
    {stream buf rest : List ℕ} {out out' : List Output}
    → Received (replicate buf_max_len 0) stream buf_max_len out (pos 0) buf rest out'
    → length stream ≤ buf_max_len
    → c_str buf ≡ c_str stream
Received-c_str {stream} r h = elim r.complete [
  | inl (ok, all, quiet) ↦
      ap c_str (r.stored ∙ ap (λ t. r.got ++ t) (drop-replicate (length r.got) buf_max_len 0))
      ∙ c_str-append_zeros r.got (buf_max_len - length r.got)
      ∙ ap c_str (all ∙ take_all buf_max_len stream h)
  | inr (failed, noted) ↦ cc
]

-- The line that a server prints for a message.
abbrev pub said_message : List ℕ → Output
said_message message = printf "Server : Client said %s\n" (text message ∷ [])

module _ (K : SocketOs) (fuel : ℕ) (L : IsStream K) where
  -- The connection that the server accepts, and the stream that it reads from it.
  abbrev pub accepted : ℤ → K.State → ℤ × K.State
  accepted server_fd s = K.accept server_fd (K.listen server_fd queue_default_num s).1

  abbrev pub incoming : ℤ → K.State → List ℕ
  incoming server_fd s = L.pending (accepted server_fd s).1 (accepted server_fd s).0

  -- A server whose client sends no more than its buffer holds returns. It prints the string that was
  -- sent and returns 0, or it reports that `recv` failed and returns -1.
  pub recv_stream_total :
      (server_fd : ℤ) (w : World K.State)
      → buf_max_len < fuel
      → length (incoming server_fd w.os) ≤ buf_max_len
      → (status : ℤ) × (w' : World K.State) × (recv_stream K fuel server_fd
            (replicate buf_max_len 0)
            w
          ≡ some (status, w'))
        × (((status ≡ pos 0)
              × (w'.out ≡ w.out ++ (said_message (c_str (incoming server_fd w.os)) ∷ [])))
            ⊎ ((status ≡ minus_one) × (w'.out ≡ w.out ++ (perror "recv()" ∷ []))))
  unfolding recv_stream
  recv_stream_total server_fd w f h =
      let w0 : World K.State = moved w (accepted server_fd w.os).1 in
      let (st, buf, w1, run, r) =
        partial_message_recv_total K fuel L (accepted server_fd w.os).0 (replicate buf_max_len 0)
          buf_max_len 0 w0 f in
      let s1 : K.State = (K.close server_fd w1.os).1 in
      let s2 : K.State = (K.close (accepted server_fd w.os).0 s1).1 in
      elim r.complete [
        | inl (ok, all, quiet) ↦ (
          pos 0,
          record { os = s2; out = w1.out ++ (said_message (c_str buf) ∷ []) },
          rw (run, ◌>>=◌) (rw ok),
          inl (
            refl,
            ap (λ (o : List Output). o ++ (said_message (c_str buf) ∷ [])) quiet
                ∙ ap (λ (b : List ℕ). w.out ++ (said_message b ∷ []))
                    (Received-c_str (rw ok at r) h),
          ),
        )
        | inr (failed, noted) ↦ (
          minus_one,
          record { os = s2; out = w1.out },
          rw (run, ◌>>=◌) (rw failed),
          inr (refl, noted),
        )
      ]

  -- A client whose connection is made returns. It returns 0 if the first eight bytes at `message`
  -- were accepted for sending, for `sizeof(message)` is the size of a pointer; else it returns -1,
  -- and fewer bytes were.
  pub send_stream_total :
      (client_fd : ℤ) (path message : List ℕ) (w : World K.State)
      → is_minus_one (K.connect client_fd path w.os).0 ≡ false
      → sizeof_pointer ≤ length message
      → sizeof_pointer < fuel
      → (status : ℤ) × (w' : World K.State) × (send_stream K fuel client_fd path message w
          ≡ some (status, w'))
        × Sent message sizeof_pointer
            (L.sent (K.connect client_fd path w.os).1 client_fd)
            status
            (L.sent w'.os client_fd)
  unfolding send_stream
  send_stream_total client_fd path message w connected long f =
      let w0 : World K.State = moved w (K.connect client_fd path w.os).1 in
      let (st, w1, run, sent) =
        partial_message_send_total K fuel L client_fd message sizeof_pointer 0 w0 long f in
      let w2 : World K.State = moved w1 (K.close client_fd w1.os).1 in
      let closed : L.sent w2.os client_fd ≡ L.sent w1.os client_fd = L.close_sent client_fd w1.os in
      elim sent.complete [
        | inl (ok, all) ↦ (
          pos 0,
          w2,
          rw connected (rw (run, ◌>>=◌) (rw ok)),
          record {
            count = sent.count;
            in_order = closed ∙ sent.in_order;
            complete = inl (refl, all);
          },
        )
        | inr (failed, fewer) ↦ (
          minus_one,
          w2,
          rw connected (rw (run, ◌>>=◌) (rw failed)),
          record {
            count = sent.count;
            in_order = closed ∙ sent.in_order;
            complete = inr (refl, fewer);
          },
        )
      ]

  send_stream-sent :
      (client_fd : ℤ) (path message : List ℕ) (w w' : World K.State)
      → is_minus_one (K.connect client_fd path w.os).0 ≡ false
      → L.sent (K.connect client_fd path w.os).1 client_fd ≡ []
      → sizeof_pointer ≤ length message
      → sizeof_pointer < fuel
      → send_stream K fuel client_fd path message w ≡ some (pos 0, w')
      → L.sent w'.os client_fd ≡ take sizeof_pointer message
  send_stream-sent client_fd path message w w' connected new long f client =
      let (st, w1, run, sent) = send_stream_total client_fd path message w connected long f in
      let (st_same, w_same) = some-pair_injective (sym run ∙ client) in
      elim sent.complete [
        | inl (ok, all) ↦
            ap (λ (x : World K.State). L.sent x.os client_fd) (sym w_same)
            ∙ sent.in_order
            ∙ ap (λ t. t ++ take sent.count message) new
            ∙ ap (λ n. take n message) all
        | inr (failed, fewer) ↦ absurd (cc)
      ]

  recv_stream-out :
      (server_fd : ℤ) (v v' : World K.State)
      → buf_max_len < fuel
      → length (incoming server_fd v.os) ≤ buf_max_len
      → recv_stream K fuel server_fd (replicate buf_max_len 0) v ≡ some (pos 0, v')
      → v'.out ≡ v.out ++ (said_message (c_str (incoming server_fd v.os)) ∷ [])
  recv_stream-out server_fd v v' f h server =
      let (st, v1, run, shown) = recv_stream_total server_fd v f h in
      let (st_same, v_same) = some-pair_injective (sym run ∙ server) in
      elim shown [
        | inl (ok, line) ↦ ap (λ (x : World K.State). x.out) (sym v_same) ∙ line
        | inr (failed, line) ↦ absurd (cc)
      ]

  -- A conversation: a client that returns 0 on a new connection, and a server that returns 0 on the
  -- stream that the client sent. The server prints the first eight bytes of the client's message, so
  -- the whole of it if it has no more than eight.
  pub conversation :
      (client_fd server_fd : ℤ) (path message : List ℕ) (w w' v v' : World K.State)
      → is_minus_one (K.connect client_fd path w.os).0 ≡ false
      → L.sent (K.connect client_fd path w.os).1 client_fd ≡ []
      → sizeof_pointer ≤ length message
      → buf_max_len < fuel
      → send_stream K fuel client_fd path message w ≡ some (pos 0, w')
      → incoming server_fd v.os ≡ L.sent w'.os client_fd
      → recv_stream K fuel server_fd (replicate buf_max_len 0) v ≡ some (pos 0, v')
      → v'.out ≡ v.out ++ (said_message (take sizeof_pointer (c_str message)) ∷ [])
  conversation client_fd server_fd path message w w' v v' connected new long f client link server =
      let stream : incoming server_fd v.os ≡ take sizeof_pointer message =
        link
        ∙ send_stream-sent client_fd path message w w' connected new long (omega arith) client in
      recv_stream-out server_fd v v' f
        (rw stream (omega (arith, length-take sizeof_pointer message))) server
      ∙ ap (λ t. v.out ++ (said_message t ∷ []))
          (ap c_str stream ∙ c_str-take sizeof_pointer message)

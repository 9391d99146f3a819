-- ===== src/Socket/Recv.antt =====
-- `partial_message_recv` of socket_example/main.c: what it stores, where it stops, and that it stops.
use linux_programming_exampl.Prelude.{
  ℕ, zero, suc, ◌+◌, ◌-◌, ◌≤◌, ◌<◌, ◌≡◌, refl, sym, ap, ◌∙◌, ◌⊎◌, inl, inr, ℤ, pos, minus_one, some,
  List, [], ◌∷◌, ◌++◌, append-nil, append_assoc, arith, ◌==◌, Bool-cases, Option-cases, length,
  take, drop, length-append, length-drop, take_all, take-append_self,
}
use linux_programming_exampl.Program.{World, Output, perror, said, moved}
use linux_programming_exampl.CMemory.{overwrite}
use linux_programming_exampl.CMemory.Laws.{overwrite-append}
use linux_programming_exampl.Socket.{recv_loop, partial_message_recv}
use linux_programming_exampl.Socket.Kernel.{SocketOs, IsStream}

-- The buffer `buf` holds, over the old contents `old`, a prefix of `stream` of at most `size` bytes
-- of which `rest` is what follows. On success it is as long as the two allow, and nothing is printed.
pub record Received (old stream : List ℕ) (size : ℕ) (out : List Output) (status : ℤ)
    (buf rest : List ℕ) (out' : List Output) : Type 0 where
  pub got : List ℕ
  pub stored : buf ≡ got ++ drop (length got) old
  pub in_order : got ++ rest ≡ stream
  pub within : length got ≤ size
  pub complete :
      ((status ≡ pos 0) × (got ≡ take size stream) × (out' ≡ out))
      ⊎ ((status ≡ minus_one) × (out' ≡ out ++ (perror "recv()" ∷ [])))

take-prefix :
    (got rest stream : List ℕ) (size : ℕ)
    → got ++ rest ≡ stream
    → length got ≤ size
    → (size - length got ≡ 0) ⊎ (rest ≡ [])
    → got ≡ take size stream
take-prefix got rest stream size e h (inl full) =
    let k : size ≡ length got = omega arith in rw (sym e, k) (sym (take-append_self got rest))
take-prefix got rest stream size e h (inr z) =
    let k : got ≡ stream = sym (append-nil got) ∙ (rw z at e) in
    rw (sym k) (sym (take_all size got h))

length-eq-zero : (xs : List ℕ) → length xs ≡ 0 → xs ≡ []
length-eq-zero [] h = refl
length-eq-zero (x ∷ xs) h = absurd (omega arith)

module _ (K : SocketOs) (fuel : ℕ) (L : IsStream K) where
  -- What has been stored when `recv` fails or finds the end.
  stop_Received :
      (old stream done buf : List ℕ) (size written : ℕ) (status : ℤ) (rest : List ℕ)
      (out out' : List Output)
      → buf ≡ done ++ drop written old
      → written ≡ length done
      → done ++ rest ≡ stream
      → written ≤ size
      → ((status ≡ pos 0) × ((size - written ≡ 0) ⊎ (rest ≡ [])) × (out' ≡ out))
        ⊎ ((status ≡ minus_one) × (out' ≡ out ++ (perror "recv()" ∷ [])))
      → Received old stream size out status buf rest out'
  stop_Received old stream done buf size written status rest out out' e n p h why = record {
    got = done;
    stored = e ∙ ap (λ k. done ++ drop k old) n;
    in_order = p;
    within = omega arith;
    complete = elim why [
      | inl (ok, end, quiet) ↦
          inl (ok, take-prefix done rest stream size p (omega arith) (rw n at end), quiet)
      | inr failed ↦ inr failed
    ];
  }

  recv_loop_total :
      (rounds : ℕ) (fd : ℤ) (old stream done buf : List ℕ) (size flags written : ℕ)
      (w : World K.State)
      → buf ≡ done ++ drop written old
      → written ≡ length done
      → done ++ L.pending w.os fd ≡ stream
      → written ≤ size
      → size - written < rounds
      → (status : ℤ) × (buf' : List ℕ) × (w' : World K.State) × (recv_loop K fuel rounds fd buf size
            flags written w
          ≡ some ((status, buf'), w'))
        × Received old stream size w.out status buf' (L.pending w'.os fd) w'.out
  unfolding recv_loop
  recv_loop_total zero fd old stream done buf size flags written w e n p h f = absurd (omega arith)
  recv_loop_total (suc rounds) fd old stream done buf size flags written w e n p h f =
      let s : K.State = (K.recv fd (size - written) flags w.os).1 in
      elim (Option-cases (K.recv fd (size - written) flags w.os).0) [
        | inl failed ↦ (
          minus_one,
          buf,
          said (moved w s) (perror "recv()"),
          rw failed,
          stop_Received old stream done buf size written minus_one (L.pending s fd) w.out
              (w.out ++ (perror "recv()" ∷ [])) e n
              (rw (L.recv_failed fd (size - written) flags w.os failed) p) h (inr (refl, refl)),
        )
        | inr (bytes, ok) ↦
            let (few, order, end) = L.recv_stored fd (size - written) flags w.os bytes ok in
            elim (Bool-cases (length bytes == 0)) [
              | inl stop ↦
                  let none_left : length bytes ≡ 0 = ground arith in
                  let same : L.pending w.os fd ≡ L.pending s fd =
                    order ∙ ap (λ b. b ++ L.pending s fd) (length-eq-zero bytes none_left) in
                  (
                    pos 0,
                    buf,
                    moved w s,
                    rw (ok, stop),
                    stop_Received old stream done buf size written (pos 0) (L.pending s fd) w.out
                        w.out e n (rw same at p) h (inl (refl, rw same at (end none_left), refl)),
                  )
              | inr more ↦ rw ok (
                  rw more (
                    recv_loop_total rounds fd old stream (done ++ bytes)
                      (overwrite buf written bytes) size flags (written + length bytes) (moved w s)
                      (rw e
                        (overwrite-append done bytes old written (written + length bytes) n refl))
                      (omega (arith, length-append done bytes))
                      (append_assoc done bytes (L.pending s fd) ∙ (rw order at p)) (omega arith)
                      (ground arith)))
            ]
      ]

  -- With as many rounds as the buffer has bytes, and one more, `partial_message_recv` returns. It has
  -- then stored a prefix of the stream at the front of the buffer and changed nothing behind it, no
  -- more than `size` bytes. If it returns 0, these are all the bytes of the stream up to the end of
  -- the stream or of the buffer; else it returns -1.
  pub partial_message_recv_total :
      (fd : ℤ) (buf : List ℕ) (size flags : ℕ) (w : World K.State)
      → size < fuel
      → (status : ℤ) × (buf' : List ℕ) × (w' : World K.State) × (partial_message_recv K fuel fd buf
            size flags w
          ≡ some ((status, buf'), w'))
        × Received buf (L.pending w.os fd) size w.out status buf' (L.pending w'.os fd) w'.out
  unfolding partial_message_recv
  partial_message_recv_total fd buf size flags w h =
      recv_loop_total fuel fd buf (L.pending w.os fd) [] buf size flags 0 w refl refl refl
        (omega arith) (omega arith)

  -- The buffer never becomes longer: no byte is stored behind its end.
  pub length-Received :
      {old stream buf rest : List ℕ} {size : ℕ} {status : ℤ} {out out' : List Output}
      → Received old stream size out status buf rest out'
      → size ≤ length old
      → length buf ≡ length old
  length-Received {old} r h = rw r.stored (
      omega (
        arith,
        length-append r.got (drop (length r.got) old),
        length-drop (length r.got) old,
        r.within,
      ))

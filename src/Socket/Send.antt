-- ===== src/Socket/Send.antt =====
-- `partial_message_send` of socket_example/main.c: all bytes are sent, in order and once.
use linux_programming_exampl.Prelude.{
  ℕ, zero, suc, ◌+◌, ◌-◌, ◌≤◌, ◌<◌, ◌≡◌, refl, sym, ap, ◌∙◌, ◌⊎◌, inl, inr, ℤ, pos, minus_one, some,
  List, [], ◌∷◌, ◌++◌, append-nil, append_assoc, arith, ltb, Bool-cases, Option-cases, length, take,
  drop, length-take, length-drop, take-append-take-drop, ltb→lt, ltb→le,
}
use linux_programming_exampl.Program.{World, text, printf, said, moved}
use linux_programming_exampl.CMemory.{c_str}
use linux_programming_exampl.Socket.{send_loop, partial_message_send}
use linux_programming_exampl.Socket.Kernel.{SocketOs, IsStream}

-- `after` is `before` with the first `size` bytes of `buf` behind it, or fewer of them with status -1.
pub record Sent (buf : List ℕ) (size : ℕ) (before : List ℕ) (status : ℤ) (after : List ℕ)
    : Type 0 where
  pub count : ℕ
  pub in_order : after ≡ before ++ take count buf
  pub complete : ((status ≡ pos 0) × (count ≡ size)) ⊎ ((status ≡ minus_one) × (count < size))

-- The first bytes of what is still to be sent.
take-take-drop :
    (n m w : ℕ) (buf : List ℕ) → n ≤ m → take n (take m (drop w buf)) ≡ take n (drop w buf)
take-take-drop zero m w buf h = refl
take-take-drop (suc n) zero w buf h = elim h [ ]
take-take-drop (suc n) (suc m) zero [] h = refl
take-take-drop (suc n) (suc m) zero (x ∷ xs) h =
    ap (λ r. x ∷ r) (take-take-drop n m zero xs (omega arith))
take-take-drop (suc n) (suc m) (suc w) [] h = refl
take-take-drop (suc n) (suc m) (suc w) (x ∷ xs) h = take-take-drop (suc n) (suc m) w xs h

module _ (K : SocketOs) (fuel : ℕ) (L : IsStream K) where
  send_loop_total :
      (rounds : ℕ) (fd : ℤ) (buf : List ℕ) (size flags written : ℕ) (before : List ℕ)
      (w : World K.State)
      → size ≤ length buf
      → L.sent w.os fd ≡ before ++ take written buf
      → written ≤ size
      → size - written < rounds
      → (status : ℤ) × (w' : World K.State) × (send_loop K fuel rounds fd buf size flags written w
          ≡ some (status, w'))
        × Sent buf size before status (L.sent w'.os fd)
  unfolding send_loop
  send_loop_total zero fd buf size flags written before w r e h f = absurd (omega arith)
  send_loop_total (suc rounds) fd buf size flags written before w r e h f =
      let bytes : List ℕ = take (size - written) (drop written buf) in
      let s : K.State = (K.send fd bytes flags w.os).1 in
      elim (Bool-cases (ltb written size)) [
        | inl more ↦ elim (Option-cases (K.send fd bytes flags w.os).0) [
          | inl failed ↦ (
            minus_one,
            moved w s,
            rw (more, send_loop) (rw failed),
            record {
              count = written;
              in_order = L.send_failed fd bytes flags w.os failed ∙ e;
              complete = inr (refl, ltb→lt written size more);
            },
          )
          | inr (n, ok) ↦
              let size_left : length bytes ≡ size - written =
                omega (
                  arith,
                  length-take (size - written) (drop written buf),
                  length-drop written buf,
                ) in
              let (some_taken, few, order) =
                L.send_taken fd bytes flags w.os n ok (omega (arith, ltb→lt written size more)) in
              rw (more, send_loop)
                (rw ok (
                  send_loop_total rounds fd buf size flags (written + n) before (moved w s) r
                    (order
                      ∙ ap (λ t. t ++ take n bytes) e
                      ∙ append_assoc before (take written buf) (take n bytes)
                      ∙ ap (λ t. before ++ (take written buf ++ t))
                          (take-take-drop n (size - written) written buf (omega arith))
                      ∙ ap (λ t. before ++ t)
                          (take-append-take-drop written n (written + n) buf refl))
                    (omega arith) (omega arith)))
        ]
        | inr stop ↦ (
          pos 0,
          said w (printf "send data: %s\n" (text (c_str buf) ∷ [])),
          rw (stop, send_loop),
          record {
            count = written;
            in_order = e;
            complete = inl (refl, omega (arith, ltb→le written size stop));
          },
        )
      ]

  -- With as many rounds as bytes to send, and one more, `partial_message_send` returns. It returns 0
  -- if the first `size` bytes of the buffer were accepted for sending, in order and each once, and -1
  -- if fewer of them were.
  pub partial_message_send_total :
      (fd : ℤ) (buf : List ℕ) (size flags : ℕ) (w : World K.State)
      → size ≤ length buf
      → size < fuel
      → (status : ℤ) × (w' : World K.State) × (partial_message_send K fuel fd buf size flags w
          ≡ some (status, w'))
        × Sent buf size (L.sent w.os fd) status (L.sent w'.os fd)
  unfolding partial_message_send
  partial_message_send_total fd buf size flags w r h =
      send_loop_total fuel fd buf size flags 0 (L.sent w.os fd) w r
        (sym (append-nil (L.sent w.os fd))) (omega arith) (omega arith)

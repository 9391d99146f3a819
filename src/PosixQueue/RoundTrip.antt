-- ===== src/PosixQueue/RoundTrip.antt =====
-- What `send_data` and `recv_data` of posix_mq_example/main.c do to the queue and to the process.
use linux_programming_exampl.Prelude.{
  ℕ, zero, suc, ◌<◌, ◌≡◌, refl, ap, ◌∙◌, pos, true, false, some, List, [], ◌∷◌, ◌++◌, arith, length,
  take, take_all, drop,
}
use linux_programming_exampl.Program.{World, int, text, printf, moved, said}
use linux_programming_exampl.CMemory.{codes, c_str, memset, snprintf, overwrite}
use linux_programming_exampl.CMemory.Laws.{
  c_str-append_zero, overwrite_zero, length-overwrite, length-memset, memcpy_all,
}
use linux_programming_exampl.PosixQueue.{
  send_data, recv_data, message_of, received_in, file_path, sizeof_pointer,
}
use linux_programming_exampl.PosixQueue.Kernel.{MqOs, IsMq, Account}

abbrev pub hello : List ℕ
hello = codes "hello world"

-- The message is as long as its buffer, and begins with the text and a zero byte.
message_of-hello :
    (bytes : List ℕ) (n : ℕ)
    → 11 < n
    → length bytes ≡ n
    → (length (message_of bytes n) ≡ n) × (c_str (message_of bytes n) ≡ hello)
unfolding message_of snprintf
message_of-hello bytes zero h e = absurd (omega arith)
message_of-hello bytes (suc n) h e =
    let cleared : List ℕ = memset bytes 0 (suc n) in
    let len : length cleared ≡ suc n = length-memset bytes 0 (suc n) (omega arith) ∙ e in
    let fits : take n hello ≡ hello = take_all n hello (omega arith) in
    let shape : overwrite cleared 0 (take n hello ++ (0 ∷ []))
        ≡ overwrite cleared 0 (hello ++ (0 ∷ [])) =
      ap (λ (l : List ℕ). overwrite cleared 0 (l ++ (0 ∷ []))) fits in
    (
      ap length shape ∙ length-overwrite cleared 0 (hello ++ (0 ∷ [])) (omega arith) ∙ len,
      ap c_str shape
          ∙ ap c_str (overwrite_zero cleared (hello ++ (0 ∷ [])))
          ∙ c_str-append_zero hello (drop 12 cleared) (ground arith),
    )

module _ (K : MqOs) (Q : IsMq K file_path) where
  -- What `send_data` leaves.
  send_ok :
      (w : World K.State)
      → 11 < Q.msgsize
      → (Q.account w.os).queue ≡ []
      → (m : List ℕ) × (w' : World K.State) × (send_data K w ≡ some (tt, w'))
        × (length m ≡ Q.msgsize)
        × (c_str m ≡ hello)
        × (Q.account w'.os ≡ record (Q.account w.os) { queue = m ∷ [] })
  unfolding send_data
  send_ok w big empty =
      let (fd, s1) = K.mq_open file_path false w.os in
      let (opened, a1) = Q.opens false w.os in
      let (n, s2) = K.mq_getattr fd s1 in
      let o1 : (Q.account s1).opened ≡ fd ∷ (Q.account w.os).opened =
        ap (λ (a : Account). a.opened) a1 in
      let (size, a2) = Q.attributes fd (Q.account w.os).opened s1 o1 in
      let buf : ℕ = (K.malloc n s2).0.0 in
      let s3 : K.State = (K.malloc n s2).1 in
      let (len, a3) = Q.allocates n s2 in
      let m : List ℕ = message_of (K.malloc n s2).0.1 n in
      let (len_m, text_m) = message_of-hello (K.malloc n s2).0.1 n (omega arith) len in
      let q3 : (Q.account s3).queue ≡ [] = ground (arith, a1, a2, a3, empty) in
      let o3 : (Q.account s3).opened ≡ fd ∷ (Q.account w.os).opened = ground (arith, a1, a2, a3) in
      let (s4, sent, a4) = Q.sends fd (Q.account w.os).opened m s3 o3 (omega arith) q3 in
      let b4 : (Q.account s4).blocks ≡ buf ∷ (Q.account w.os).blocks =
        ground (arith, a1, a2, a3, a4) in
      let a5 : Q.account (K.free buf s4)
          ≡ record (Q.account s4) { blocks = (Q.account w.os).blocks } =
        Q.frees buf (Q.account w.os).blocks s4 b4 in
      let s5 : K.State = K.free buf s4 in
      let o5 : (Q.account s5).opened ≡ fd ∷ (Q.account w.os).opened =
        ground (arith, a1, a2, a3, a4, a5) in
      let a6 = Q.closes fd (Q.account w.os).opened s5 o5 in
      (
        m,
        moved (said w (printf "* mq_msgsize: %lu\n" (int (pos n) ∷ []))) (K.mq_close fd s5).1,
        ground (arith, opened, sent),
        len_m ∙ size,
        text_m,
        ground (arith, a1, a2, a3, a4, a5, a6),
      )

  recv_ok :
      (w : World K.State) (m : List ℕ)
      → 11 < Q.msgsize
      → length m ≡ Q.msgsize
      → (Q.account w.os).queue ≡ m ∷ []
      → (w' : World K.State) × (recv_data K w ≡ some (tt, w'))
        × (Q.account w'.os ≡ record (Q.account w.os) { queue = [] })
        × (w'.out ≡ w.out ++ (printf "[RECV] data: %s\n" (text (c_str m) ∷ []) ∷ []))
  unfolding recv_data received_in
  recv_ok w m big len one =
      let (fd, s1) = K.mq_open file_path true w.os in
      let (opened, a1) = Q.opens true w.os in
      let (n, s2) = K.mq_getattr fd s1 in
      let o1 : (Q.account s1).opened ≡ fd ∷ (Q.account w.os).opened =
        ap (λ (a : Account). a.opened) a1 in
      let (size, a2) = Q.attributes fd (Q.account w.os).opened s1 o1 in
      let buf : ℕ = (K.malloc n s2).0.0 in
      let bytes : List ℕ = (K.malloc n s2).0.1 in
      let s3 : K.State = (K.malloc n s2).1 in
      let (len_b, a3) = Q.allocates n s2 in
      let q3 : (Q.account s3).queue ≡ m ∷ [] = ground (arith, a1, a2, a3, one) in
      let o3 : (Q.account s3).opened ≡ fd ∷ (Q.account w.os).opened = ground (arith, a1, a2, a3) in
      let (s4, got, a4) = Q.receives fd (Q.account w.os).opened n m [] s3 o3 (omega arith) q3 in
      let b4 : (Q.account s4).blocks ≡ buf ∷ (Q.account w.os).blocks =
        ground (arith, a1, a2, a3, a4) in
      let a5 : Q.account (K.free buf s4)
          ≡ record (Q.account s4) { blocks = (Q.account w.os).blocks } =
        Q.frees buf (Q.account w.os).blocks s4 b4 in
      let s5 : K.State = K.free buf s4 in
      let o5 : (Q.account s5).opened ≡ fd ∷ (Q.account w.os).opened =
        ground (arith, a1, a2, a3, a4, a5) in
      let a6 = Q.closes fd (Q.account w.os).opened s5 o5 in
      let whole : received_in bytes m ≡ m =
        memcpy_all (memset bytes 0 sizeof_pointer) m (length m)
          (omega (arith, length-memset bytes 0 sizeof_pointer (omega arith))) refl in
      (
        moved (said w (printf "[RECV] data: %s\n" (text (c_str m) ∷ []))) (K.mq_close fd s5).1,
        ground (arith, opened, got, whole),
        ground (arith, a1, a2, a3, a4, a5, a6),
        refl,
      )

  -- On an empty queue whose messages have more than 11 bytes, and which can be opened, while `malloc`
  -- succeeds, `send_data` followed by `recv_data` prints "hello world". Then the queue is empty again,
  -- both have closed the descriptor that `mq_open` gave them and freed the block that `malloc` gave
  -- them, and what was open and allocated before still is.
  pub recv_data-send_data :
      (w : World K.State)
      → 11 < Q.msgsize
      → (Q.account w.os).queue ≡ []
      → (w1 w2 : World K.State) × (send_data K w ≡ some (tt, w1))
        × (recv_data K w1 ≡ some (tt, w2))
        × (w2.out ≡ w1.out ++ (printf "[RECV] data: %s\n" (text hello ∷ []) ∷ []))
        × (Q.account w2.os ≡ Q.account w.os)
  recv_data-send_data w big empty =
      let (m, w1, sent, len, is_hello, a1) = send_ok w big empty in
      let one : (Q.account w1.os).queue ≡ m ∷ [] = ap (λ (a : Account). a.queue) a1 in
      let (w2, got, a2, shown) = recv_ok w1 m big len one in
      (
        w1,
        w2,
        sent,
        got,
        shown
            ∙ ap (λ (l : List ℕ). w1.out ++ (printf "[RECV] data: %s\n" (text l ∷ []) ∷ []))
                is_hello,
        ground (arith, a1, a2, empty),
      )

-- ===== src/MessageQueue/RoundTrip.antt =====
-- What `send_data` and `recv_data` of sysv_example/main.c do to the queue.
use linux_programming_exampl.Prelude.{
  ℕ, ◌+◌, ◌≡◌, refl, ap, ◌∙◌, inl, inr, ℤ, pos, is_minus_one, int_eq, int_eq_refl, if◌then◌else◌,
  false, none, some, List, [], ◌∷◌, ◌++◌, arith, Bool-cases, Option-cases, replicate,
}
use linux_programming_exampl.Program.{World, Output, int, text, printf, moved, said}
use linux_programming_exampl.CMemory.{codes, c_str, snprintf, overwrite}
use linux_programming_exampl.CMemory.Laws.{c_str-strcpy}
use linux_programming_exampl.MessageQueue.{
  sysv_mqid_setting, send_data, recv_data, sysv_buf_setting, hello_world, shared_path, proj_id,
}
use linux_programming_exampl.MessageQueue.Kernel.{
  QueueOs, IsQueue, SysvBuf, take_first, held, max_buf_len,
}

-- The file is there, so that `ftok` gives its key, and the process may use the queue of the key.
pub record HasKey (K : QueueOs) : Type 1 where
  pub key : ℤ
  pub not_failed : is_minus_one key ≡ false
  pub key_ok : (s : K.State) → (K.ftok shared_path proj_id s).0 ≡ key
  pub id_ok : (s : K.State) → is_minus_one (K.msgget key s).0 ≡ false

abbrev pub hello_message : ℕ → SysvBuf
hello_message t = sysv_buf_setting hello_world (pos (t + 1))

c_str-hello_world : c_str hello_world ≡ codes "Hello world"
unfolding hello_world snprintf overwrite c_str
c_str-hello_world = refl

-- The text that arrives is the one that was meant.
pub c_str-hello : (t : ℕ) → c_str (hello_message t).mtext ≡ codes "Hello world"
unfolding sysv_buf_setting hello_world
c_str-hello t = c_str-strcpy (replicate max_buf_len 0) hello_world ∙ c_str-hello_world

-- The first of a type, when there was none before.
pub take_first-append :
    (t : ℤ) (q : List SysvBuf) (m : SysvBuf)
    → take_first t q ≡ none
    → m.mtype ≡ t
    → take_first t (q ++ (m ∷ [])) ≡ some (m, q)
unfolding take_first
take_first-append t [] m e f = rw (ap (λ x. int_eq x t) f ∙ int_eq_refl t) refl
take_first-append t (x ∷ q) m e f = elim (Bool-cases (int_eq x.mtype t)) [
  | inl same ↦ absurd (ground arith)
  | inr other ↦ elim (Option-cases (take_first t q)) [
    | inl nothing ↦ ground (arith, take_first-append t q m nothing f)
    | inr (found, e') ↦ absurd (ground arith)
  ]
]

module _ (K : QueueOs) (Q : IsQueue K) (H : HasKey K) where
  -- The identifier is that of the queue of the key, which holds what it held; no queue changes.
  setting_ok :
      (w : World K.State)
      → (id : ℤ) × (w' : World K.State) × (sysv_mqid_setting K w ≡ some ((pos 0, id), w'))
        × (Q.found w'.os H.key ≡ some id)
        × ((i : ℤ) → Q.queue w'.os i ≡ Q.queue w.os i)
        × (Q.queue w.os id ≡ held K Q H.key w.os)
        × ((i : ℤ) → Q.found w.os H.key ≡ some i → id ≡ i)
  unfolding sysv_mqid_setting
  setting_ok w =
      let (key, s1) = K.ftok shared_path proj_id w.os in
      let (id, s2) = K.msgget H.key s1 in
      let (f1, q1) = Q.ftok_keeps shared_path proj_id w.os in
      let (f2, q2, same, new) = Q.msgget_id H.key s1 (H.id_ok s1) in
      let out : List Output =
        (((w.out ++ (printf " = Create IPC key " [] ∷ []))
            ++ (printf " => SUCCESS, key: %d\n" (int H.key ∷ []) ∷ []))
          ++ (printf " = Create Message Queue ID " [] ∷ []))
        ++ (printf " => SUCCESS, ID: %d\n" (int id ∷ []) ∷ []) in
      (
        id,
        record { os = s2; out = out },
        ground (arith, H.key_ok w.os, H.not_failed, H.id_ok s1),
        f2,
        λ i. q2 i ∙ q1 i,
        elim (Option-cases (Q.found w.os H.key)) [
          | inl absent ↦ ground (arith, new (f1 H.key ∙ absent), q1 id)
          | inr (i, present) ↦ ground (arith, same i (f1 H.key ∙ present))
        ],
        λ i present. same i (f1 H.key ∙ present),
      )

  -- `send_data` with a positive type appends its message to the queue of the key and returns 0.
  pub send_data_appends :
      (t : ℕ) (w : World K.State)
      → (id : ℤ) × (w' : World K.State) × (send_data K (pos (t + 1)) w ≡ some (pos 0, w'))
        × (Q.found w'.os H.key ≡ some id)
        × ((i : ℤ)
            → Q.queue w'.os i
              ≡ (if int_eq i id then Q.queue w.os i ++ (hello_message t ∷ []) else Q.queue w.os i))
        × (Q.queue w.os id ≡ held K Q H.key w.os)
  unfolding send_data sysv_buf_setting
  send_data_appends t w =
      let (id, w1, set, is_id, same, holds, unique) = setting_ok w in
      let line : Output =
        printf " = Send Message [%s] " (text (c_str (hello_message t).mtext) ∷ []) in
      let (s, sent, f, q) = Q.send H.key id t (hello_message t).mtext w1.os is_id in
      (
        id,
        said (moved (said w1 line) s) (printf "  => SUCCESS \n" []),
        ground (arith, set, sent),
        f H.key ∙ is_id,
        λ i. ground (arith, q i, same i),
        holds,
      )

  -- `recv_data` takes the first message of its type from the queue of the key, prints it last, and
  -- returns 0.
  pub recv_data_takes :
      (t : ℕ) (id : ℤ) (w : World K.State) (m : SysvBuf) (rest : List SysvBuf)
      → Q.found w.os H.key ≡ some id
      → take_first (pos (t + 1)) (Q.queue w.os id) ≡ some (m, rest)
      → (w' : World K.State) × (shown : List Output) × (recv_data K (pos (t + 1)) w
          ≡ some (pos 0, w'))
        × ((i : ℤ) → Q.queue w'.os i ≡ (if int_eq i id then rest else Q.queue w.os i))
        × (w'.out
            ≡ shown
              ++ (printf " = Recv Messagae => SUCCESS , Recv Data: %s\n" (text (c_str m.mtext) ∷ [])
                  ∷ []))
  unfolding recv_data
  recv_data_takes t id w m rest is_id e =
      let (id1, w1, set, is_id1, same, holds, unique) = setting_ok w in
      let line : Output =
        printf " = Recv Messagae => SUCCESS , Recv Data: %s\n" (text (c_str m.mtext) ∷ []) in
      let eq : id1 ≡ id = unique id is_id in
      let first : take_first (pos (t + 1)) (Q.queue w1.os id1) ≡ some (m, rest) =
        ap (take_first (pos (t + 1))) (same id1 ∙ ap (Q.queue w.os) eq) ∙ e in
      let (s, got, q) = Q.receive H.key id1 t w1.os m rest is_id1 first in
      (
        said (moved w1 s) line,
        w1.out,
        ground (arith, set, got),
        λ i. ground (arith, q i, same i, eq),
        refl,
      )

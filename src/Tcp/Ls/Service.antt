-- ===== src/Tcp/Ls/Service.antt =====
-- What the server of 3.ls sends.
use linux_programming_exampl.Prelude.{
  ℕ, ◌≡◌, refl, sym, ap, ◌∙◌, inl, inr, ℤ, pos, true, false, Bool-cases, some, List, [], ◌∷◌, ◌++◌,
  map, arith, length, take, append-nil, append_assoc, ◌==◌,
}
use linux_programming_exampl.Program.{World, running, moved}
use linux_programming_exampl.CMemory.{c_str, codes, strcmp_eq, strlen}
use linux_programming_exampl.CMemory.Buffers.{strlen-length, take-strlen}
use linux_programming_exampl.Tcp.Kernel.{TcpOs, Serves, View, idle, connected}
use linux_programming_exampl.Tcp.Loop.{
  accept_loop_all, Answers, AllRequests, write_more, close_answered,
}
use linux_programming_exampl.Tcp.Basic.{port}
use linux_programming_exampl.Tcp.Basic.Service.{Any}
use linux_programming_exampl.Tcp.Ls.{send_names, serve, server_main}

-- The names of a directory, each with a space behind it, of the entries that are in use.
abbrev pub listing : List (ℕ × List ℕ) → List ℕ
listing [] = []
listing ((d_ino, d_name) ∷ rest) = elim (d_ino == 0) [
  | true ↦ listing rest
  | false ↦ (c_str d_name ++ codes " ") ++ listing rest
]

listing_free :
    (d_ino : ℕ) (d_name : List ℕ) (rest : List (ℕ × List ℕ))
    → (d_ino == 0) ≡ true
    → listing ((d_ino, d_name) ∷ rest) ≡ listing rest
listing_free d_ino d_name rest h = rw (h, listing) refl

listing_used :
    (d_ino : ℕ) (d_name : List ℕ) (rest : List (ℕ × List ℕ))
    → (d_ino == 0) ≡ false
    → listing ((d_ino, d_name) ∷ rest) ≡ (c_str d_name ++ codes " ") ++ listing rest
listing_used d_ino d_name rest h = rw (h, listing) refl

extended :
    (o : List ℕ) (d_ino : ℕ) (d_name : List ℕ) (rest : List (ℕ × List ℕ))
    → (d_ino == 0) ≡ false
    → ((o ++ take (strlen d_name) d_name) ++ codes " ") ++ listing rest
      ≡ o ++ listing ((d_ino, d_name) ∷ rest)
extended o d_ino d_name rest h =
    let t : List ℕ = take (strlen d_name) d_name in
    let l : List ℕ = listing rest in
    append_assoc (o ++ t) (codes " ") l
    ∙ append_assoc o t (codes " " ++ l)
    ∙ ap (λ x. o ++ x)
        (sym (append_assoc t (codes " ") l)
          ∙ ap (λ x. (x ++ codes " ") ++ l) (take-strlen d_name)
          ∙ sym (listing_used d_ino d_name rest h))

module _ (K : TcpOs) (C : Serves K) where
  send_names_total :
      (fd : ℤ) (entries : List (ℕ × List ℕ)) (i o : List ℕ) (w : World K.State)
      → (C.view w.os).current ≡ connected fd i o
      → (s : K.State) × (send_names K fd entries w ≡ some (tt, moved w s))
        × ((C.view s).current ≡ connected fd i (o ++ listing entries))
        × ((C.view s).pending ≡ (C.view w.os).pending)
        × ((C.view s).answered ≡ (C.view w.os).answered)
  unfolding send_names
  send_names_total fd [] i o w c =
      (w.os, refl, c ∙ ap (connected fd i) (sym (append-nil o)), refl, refl)
  send_names_total fd ((d_ino, d_name) ∷ rest) i o w c = elim (Bool-cases (d_ino == 0)) [
    | inl free ↦
        let (s, run, c1, p1, a1) = send_names_total fd rest i o w c in
        (
          s,
          ground (arith, free, run),
          c1
              ∙ ap (λ (l : List ℕ). connected fd i (o ++ l))
                  (sym (listing_free d_ino d_name rest free)),
          p1,
          a1,
        )
    | inr used ↦
        let s1 : K.State = (K.write fd d_name (strlen d_name) w.os).1 in
        let s2 : K.State = (K.write fd (codes " ") 1 s1).1 in
        let (c1, p1, a1) =
          write_more K C fd d_name (strlen d_name) w.os i o c (strlen-length d_name) in
        let (c2, p2, a2) =
          write_more K C fd (codes " ") 1 s1 i (o ++ take (strlen d_name) d_name) c1
            (omega arith) in
        let (s3, run, c3, p3, a3) =
          send_names_total fd rest i ((o ++ take (strlen d_name) d_name) ++ codes " ") (moved w s2)
            c2 in
        (
          s3,
          ground (arith, used, run),
          c3 ∙ ap (connected fd i) (extended o d_ino d_name rest used),
          p3 ∙ p2 ∙ p1,
          a3 ∙ a2 ∙ a1,
        )
  ]

  module _ (dir : List (ℕ × List ℕ)) (same_dir : (s : K.State) → (K.readdir s).0 ≡ some dir) where
    abbrev names : List ℕ → List ℕ
    names i = listing dir

    abbrev Unread : List ℕ → Type 0
    Unread r_buffer = strcmp_eq r_buffer (codes "ls") ≡ false

    serve_answers : Answers K C (serve K) names Unread Any
    unfolding serve
    serve_answers buf fd i w good req c =
        let s1 : K.State = (K.readdir w.os).1 in
        let v1 = C.lists w.os in
        let (s2, run, c2, p2, a2) =
          send_names_total fd dir i [] (moved w s1) (ap (λ (v : View). v.current) v1 ∙ c) in
        (
          buf,
          moved w (K.close fd s2).1,
          ground (arith, good, same_dir w.os, run),
          good,
          close_answered K C fd w.os s2 i (listing dir) c2 (p2 ∙ ap (λ (v : View). v.pending) v1)
              (a2 ∙ ap (λ (v : View). v.answered) v1),
        )

    all-Any : (l : List (List ℕ)) → AllRequests Any l
    all-Any [] = tt
    all-Any (i ∷ l) = (tt, all-Any l)

    -- On a machine where the port can be bound, with a directory that can be opened and does not
    -- change, the server sends each peer the names of the entries that are in use, each with a space
    -- behind it, whatever the peer sends: nothing is read, and the static buffer never holds the
    -- word "ls" that would stop the listing. After as many rounds as peers it is running.
    pub ls_server_lists :
        (buf : List ℕ) (l : List (List ℕ)) (w : World K.State) (fd : ℤ) (s1 s2 s3 : K.State)
        → K.socket w.os ≡ (fd, s1)
        → K.bind fd port s1 ≡ (pos 0, s2)
        → K.listen fd 5 s2 ≡ (pos 0, s3)
        → C.view s3 ≡ idle l []
        → strcmp_eq buf (codes "ls") ≡ false
        → (w' : World K.State) × (server_main K buf (length l) w ≡ some (running, w'))
          × (C.view w'.os ≡ idle [] (map (λ i. listing dir) l))
    unfolding server_main
    ls_server_lists buf l w fd s1 s2 s3 made bound listening v good =
        let (w', run, v') =
          accept_loop_all K C (serve K) names Unread Any serve_answers fd l buf (moved w s3) good
            (all-Any l) v in
        (w', ground (arith, made, bound, listening, run), v')

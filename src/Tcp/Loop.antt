-- ===== src/Tcp/Loop.antt =====
-- The loop of a server that serves one connection after the other, and the specification that it
-- implements.
use linux_programming_exampl.Prelude.{
  ℕ, zero, suc, ◌≤◌, take, ◌≡◌, refl, sym, ap, ◌∙◌, ℤ, none, some, List, [], ◌∷◌, ◌++◌, map,
  append-nil, append_assoc, arith, length,
}
use linux_programming_exampl.Program.{Prog, World, Status, running, pure, ◌>>=◌, call, moved}
use linux_programming_exampl.Tcp.Kernel.{TcpOs, Serves, View, connected, idle}

-- Each of the peers sends a request of the kind that the service is made for.
abbrev pub AllRequests : (List ℕ → Type 0) → List (List ℕ) → Type 0
AllRequests Request [] = Unit
AllRequests Request (i ∷ l) = Request i × AllRequests Request l

module _ (K : TcpOs) where
  -- `while(1){ c_socket = accept(s_socket, ...); ... }`, followed for `rounds` rounds, where `A` is the
  -- static buffer that the rounds share.
  pub accept_loop : {A : Type 0} → (A → ℤ → Prog K.State A) → ℤ → ℕ → A → Prog K.State Status
  accept_loop serve s_socket zero buffer = pure running
  accept_loop serve s_socket (suc rounds) buffer = do
    c_socket ← call (K.accept s_socket)
    buffer' ← serve buffer c_socket
    accept_loop serve s_socket rounds buffer'

  module _ (C : Serves K) {A : Type 0} (serve : A → ℤ → Prog K.State A) (answer : List ℕ → List ℕ)
      (Good : A → Type 0) (Request : List ℕ → Type 0) where
    -- A service that gives `answer` to each of the requests that it is made for, and closes the
    -- connection.
    abbrev pub Answers : Type 0
    Answers =
        (buffer : A) (fd : ℤ) (i : List ℕ) (w : World K.State)
        → Good buffer
        → Request i
        → (C.view w.os).current ≡ connected fd i []
        → (buffer' : A) × (w' : World K.State) × (serve buffer fd w ≡ some (buffer', w'))
          × Good buffer'
          × (C.view w'.os ≡ idle (C.view w.os).pending ((C.view w.os).answered ++ (answer i ∷ [])))

    -- The server refines the function `answer`: it is to a list of requests what `map` is.
    pub accept_loop_total :
        Answers
        → (s_socket : ℤ) (l rest : List (List ℕ)) (rounds : ℕ) (buffer : A) (w : World K.State)
        → Good buffer
        → AllRequests Request l
        → rounds ≡ length l
        → (C.view w.os).pending ≡ l ++ rest
        → (C.view w.os).current ≡ none
        → (w' : World K.State) × (accept_loop serve s_socket rounds buffer w ≡ some (running, w'))
          × (C.view w'.os ≡ idle rest ((C.view w.os).answered ++ map answer l))
    unfolding accept_loop
    accept_loop_total answers s_socket [] rest zero buffer w good reqs e p c =
        (w, refl, ground (arith, p, c, append-nil (C.view w.os).answered))
    accept_loop_total answers s_socket [] rest (suc rounds) buffer w good reqs e p c =
        absurd (omega arith)
    accept_loop_total answers s_socket (i ∷ l) rest zero buffer w good reqs e p c =
        absurd (omega arith)
    accept_loop_total answers s_socket (i ∷ l) rest (suc rounds) buffer w good reqs e p c =
        let (fd, s1, accepted, v1) = C.accepts s_socket w.os i (l ++ rest) p c in
        let (buffer', w2, served, good', v2) =
          answers buffer fd i (moved w s1) good reqs.0 (ap (λ (v : View). v.current) v1) in
        let p2 : (C.view w2.os).pending ≡ l ++ rest =
          ap (λ (v : View). v.pending) v2 ∙ ap (λ (v : View). v.pending) v1 in
        let c2 : (C.view w2.os).current ≡ none = ap (λ (v : View). v.current) v2 in
        let a2 : (C.view w2.os).answered ≡ (C.view w.os).answered ++ (answer i ∷ []) =
          ap (λ (v : View). v.answered) v2 ∙ ap (λ (v : View). v.answered ++ (answer i ∷ [])) v1 in
        let (w3, run, v3) =
          accept_loop_total answers s_socket l rest rounds buffer' w2 good' reqs.1 (omega arith) p2
            c2 in
        (
          w3,
          ground (arith, accepted, served, run),
          v3
              ∙ ap (λ (a : List (List ℕ)). idle rest (a ++ map answer l)) a2
              ∙ ap (idle rest) (append_assoc (C.view w.os).answered (answer i ∷ []) (map answer l)),
        )

    -- The same from the start of the service on.
    pub accept_loop_all :
        Answers
        → (s_socket : ℤ) (l : List (List ℕ)) (buffer : A) (w : World K.State) → Good buffer
        → AllRequests Request l
        → C.view w.os ≡ idle l []
        → (w' : World K.State) × (accept_loop serve s_socket (length l) buffer w
            ≡ some (running, w'))
          × (C.view w'.os ≡ idle [] (map answer l))
    accept_loop_all answers s_socket l buffer w good reqs v =
        let (w', run, v') =
          accept_loop_total answers s_socket l [] (length l) buffer w good reqs refl
            (ap (λ (x : View). x.pending) v ∙ sym (append-nil l))
            (ap (λ (x : View). x.current) v) in
        (w', run, v' ∙ ap (λ (x : View). idle [] (x.answered ++ map answer l)) v)

module _ (K : TcpOs) (C : Serves K) where
  -- A write, and what it leaves of the connection.
  pub write_more :
      (fd : ℤ) (buf : List ℕ) (n : ℕ) (s : K.State) (i o : List ℕ)
      → (C.view s).current ≡ connected fd i o
      → n ≤ length buf
      → ((C.view (K.write fd buf n s).1).current ≡ connected fd i (o ++ take n buf))
        × ((C.view (K.write fd buf n s).1).pending ≡ (C.view s).pending)
        × ((C.view (K.write fd buf n s).1).answered ≡ (C.view s).answered)
  write_more fd buf n s i o c h =
      let e = C.writes fd buf n s i o c h in
      (
        ap (λ (v : View). v.current) e,
        ap (λ (v : View). v.pending) e,
        ap (λ (v : View). v.answered) e,
      )

  -- Closing the connection, when the list of those that were answered is still that of `s0`.
  pub close_answered :
      (fd : ℤ) (s0 s : K.State) (i o : List ℕ)
      → (C.view s).current ≡ connected fd i o
      → (C.view s).pending ≡ (C.view s0).pending
      → (C.view s).answered ≡ (C.view s0).answered
      → C.view (K.close fd s).1 ≡ idle (C.view s0).pending ((C.view s0).answered ++ (o ∷ []))
  close_answered fd s0 s i o c p a =
      C.closes fd s i o c
      ∙ ap (λ (l : List (List ℕ)). idle l ((C.view s).answered ++ (o ∷ []))) p
      ∙ ap (λ (l : List (List ℕ)). idle (C.view s0).pending (l ++ (o ∷ []))) a

-- ===== src/Talk/Descriptors.antt =====
-- The descriptors that the talk server has open.
use linux_programming_exampl.Prelude.{
  ℕ, zero, suc, ◌+◌, ◌≡◌, refl, sym, ap, ◌∙◌, ℤ, pos, some, List, [], ◌∷◌, ◌++◌, length, arith,
  get_or, length-append, append_assoc,
}
use linux_programming_exampl.Program.{World, running, moved}
use linux_programming_exampl.CMemory.{atoi}
use linux_programming_exampl.Semaphore.Sysv.{to_u16}
use linux_programming_exampl.Tcp.Kernel.{TcpOs}
use linux_programming_exampl.Echo.Main.Parent.{parent, IsParent}
use linux_programming_exampl.Talk.{talk_loop, server_main}

module _ (K : TcpOs) (C : IsParent K)
    (good : (sock : ℤ) (s s' : K.State) (fd : ℤ)
      → K.accept sock s ≡ some (fd, s')
      → (k : ℕ) × (fd ≡ pos k)) where
  talk_loop_leaks :
      (sock : ℤ) (rounds n k : ℕ) (l : List ℤ) (w : World K.State)
      → C.view w.os ≡ parent (rounds + n) l k
      → (s : K.State) × (more : List ℤ) × (talk_loop K sock rounds w ≡ some (running, moved w s))
        × (C.view s ≡ parent n (more ++ l) (k + rounds))
        × (length more ≡ rounds)
  unfolding talk_loop
  talk_loop_leaks sock zero n k l w v =
      let e : k ≡ k + 0 = omega arith in
      let f : 0 + n ≡ n = omega arith in
      (w.os, [], refl, v ∙ ap (λ j. parent j l k) f ∙ ap (parent n l) e, refl)
  talk_loop_leaks sock (suc rounds) n k l w v =
      let e : suc rounds + n ≡ suc (rounds + n) = omega arith in
      let f : suc k + rounds ≡ k + suc rounds = omega arith in
      let (fd, s1, got, v1) = C.accepts sock w.os (rounds + n) k l (v ∙ ap (λ j. parent j l k) e) in
      let (i, accepted) = good sock w.os s1 fd got in
      let (pid, made, v2) = C.forks s1 (rounds + n) k (fd ∷ l) v1 in
      let (s, more, run, v3, size) =
        talk_loop_leaks sock rounds n (suc k) (fd ∷ l) (moved w (K.fork s1).1) v2 in
      (
        s,
        more ++ (fd ∷ []),
        ground (arith, got, accepted, made, run),
        v3
            ∙ ap (parent n (more ++ (fd ∷ l))) f
            ∙ ap (λ x. parent n x (k + suc rounds)) (sym (append_assoc more (fd ∷ []) l)),
        omega (arith, length-append more (fd ∷ [])),
      )

  -- On a machine where the port can be bound and `accept` and `fork` do not fail, the process that
  -- started makes a child for each peer and closes nothing: after any number of peers, it has
  -- that many descriptors more open than when it began to listen.
  pub server_main_leaks :
      (args : List (List ℕ)) (rounds n k : ℕ) (l : List ℤ) (w : World K.State) (fd : ℤ)
      (s1 s2 s3 : K.State)
      → K.socket w.os ≡ (fd, s1)
      → K.bind fd (to_u16 (atoi (get_or args 1 []))) s1 ≡ (pos 0, s2)
      → K.listen fd 5 s2 ≡ (pos 0, s3)
      → C.view s3 ≡ parent (rounds + n) l k
      → (s : K.State) × (more : List ℤ) × (server_main K args rounds w ≡ some (running, moved w s))
        × (C.view s ≡ parent n (more ++ l) (k + rounds))
        × (length more ≡ rounds)
  unfolding server_main
  server_main_leaks args rounds n k l w fd s1 s2 s3 made bound listening v =
      let (s, more, run, v', size) = talk_loop_leaks fd rounds n k l (moved w s3) v in
      (s, more, ground (arith, made, bound, listening, run), v', size)

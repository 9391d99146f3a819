-- ===== src/Echo/Main/Parent.antt =====
-- The process that accepts the connections of the forking echo server.
use linux_programming_exampl.Prelude.{
  ℕ, zero, suc, ◌+◌, ◌≡◌, refl, ap, ◌∙◌, ℤ, pos, some, List, ◌∷◌, arith,
}
use linux_programming_exampl.Program.{World, running, moved}
use linux_programming_exampl.Tcp.Kernel.{TcpOs}
use linux_programming_exampl.Tcp.EchoServer.{port}
use linux_programming_exampl.Echo.Main.{fork_loop, server_main}

-- What the parent has to do with: the peers that are still to connect, the descriptors that it has
-- open, and the children that it has made.
pub record Parent : Type 0 where
  pub waiting : ℕ
  pub open_fds : List ℤ
  pub children : ℕ

abbrev pub parent : ℕ → List ℤ → ℕ → Parent
parent n l k = record { waiting = n; open_fds = l; children = k }

-- accept(2), fork(2) and close(2), in a process that is not out of resources.
pub record IsParent (K : TcpOs) : Type 1 where
  pub view : K.State → Parent
  pub accepts :
      (s_socket : ℤ) (s : K.State) (n k : ℕ) (l : List ℤ)
      → view s ≡ parent (suc n) l k
      → (fd : ℤ) × (s' : K.State) × (K.accept s_socket s ≡ some (fd, s'))
        × (view s' ≡ parent n (fd ∷ l) k)
  pub forks :
      (s : K.State) (n k : ℕ) (l : List ℤ)
      → view s ≡ parent n l k
      → (pid : ℕ) × ((K.fork s).0 ≡ pos (suc pid)) × (view (K.fork s).1 ≡ parent n l (suc k))
  pub closes :
      (fd : ℤ) (s : K.State) (n k : ℕ) (l : List ℤ)
      → view s ≡ parent n (fd ∷ l) k
      → view (K.close fd s).1 ≡ parent n l k

module _ (K : TcpOs) (C : IsParent K) (fuel : ℕ) (stack : List ℕ) where
  fork_loop_parent :
      (s_socket : ℤ) (rounds n k : ℕ) (l : List ℤ) (w : World K.State)
      → C.view w.os ≡ parent (rounds + n) l k
      → (s : K.State) × (fork_loop K fuel stack s_socket rounds w ≡ some (running, moved w s))
        × (C.view s ≡ parent n l (k + rounds))
  unfolding fork_loop
  fork_loop_parent s_socket zero n k l w v =
      let e : k ≡ k + 0 = omega arith in
      let f : 0 + n ≡ n = omega arith in
      (w.os, refl, v ∙ ap (λ j. parent j l k) f ∙ ap (parent n l) e)
  fork_loop_parent s_socket (suc rounds) n k l w v =
      let e : suc rounds + n ≡ suc (rounds + n) = omega arith in
      let f : suc k + rounds ≡ k + suc rounds = omega arith in
      let (fd, s1, got, v1) =
        C.accepts s_socket w.os (rounds + n) k l (v ∙ ap (λ j. parent j l k) e) in
      let (pid, made, v2) = C.forks s1 (rounds + n) k (fd ∷ l) v1 in
      let s2 : K.State = (K.fork s1).1 in
      let v3 = C.closes fd s2 (rounds + n) (suc k) l v2 in
      let (s, run, v4) =
        fork_loop_parent s_socket rounds n (suc k) l (moved w (K.close fd s2).1) v3 in
      (s, ground (arith, got, made, run), v4 ∙ ap (parent n l) f)

  -- On a machine where the port can be bound and `fork` does not fail, the process that started
  -- makes one child for each peer that connects and echoes nothing itself. It closes its own
  -- descriptor of each connection: after any number of them it has as many descriptors open as
  -- when it began to listen, has printed nothing, and is still running.
  pub server_main_parent :
      (rounds n k : ℕ) (l : List ℤ) (w : World K.State) (fd : ℤ) (s1 s2 s3 : K.State)
      → K.socket w.os ≡ (fd, s1)
      → K.bind fd port s1 ≡ (pos 0, s2)
      → K.listen fd 5 s2 ≡ (pos 0, s3)
      → C.view s3 ≡ parent (rounds + n) l k
      → (s : K.State) × (server_main K fuel stack rounds w ≡ some (running, moved w s))
        × (C.view s ≡ parent n l (k + rounds))
  unfolding server_main
  server_main_parent rounds n k l w fd s1 s2 s3 made bound listening v =
      let (s, run, v') = fork_loop_parent fd rounds n k l (moved w s3) v in
      (s, ground (arith, made, bound, listening, run), v')

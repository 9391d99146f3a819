-- ===== src/Tcp/Basic/Service.antt =====
-- What the server of 1.basic sends.
use linux_programming_exampl.Prelude.{
  ℕ, ◌-◌, ◌≤◌, ◌≡◌, refl, ℤ, pos, some, List, [], ◌∷◌, map, arith, length, replicate, length-append,
  length-replicate,
}
use linux_programming_exampl.Program.{World, running, moved}
use linux_programming_exampl.CMemory.{codes, c_str, strlen}
use linux_programming_exampl.Tcp.Kernel.{TcpOs, Serves, idle, bufsiz}
use linux_programming_exampl.Tcp.Loop.{
  accept_loop_all, Answers, AllRequests, write_more, close_answered,
}
use linux_programming_exampl.Tcp.Basic.{buffer, port, serve, server_main}

pub strlen-buffer : strlen buffer ≡ 11
unfolding strlen c_str
strlen-buffer = refl

pub length-buffer : 11 ≤ length buffer
length-buffer = omega (
  arith,
  length-append (codes "hello world") (replicate (bufsiz - 11) 0),
  length-replicate {A = ℕ} (bufsiz - 11) 0,
)

abbrev pub hello : List ℕ → List ℕ
hello i = codes "hello world"

abbrev pub Any : {A : Type 0} → A → Type 0
Any a = Unit

module _ (K : TcpOs) (C : Serves K) where
  serve_answers : Answers K C (serve K) hello Any Any
  unfolding serve
  serve_answers u fd i w good req c =
      let s1 : K.State = (K.write fd buffer 11 w.os).1 in
      let (c1, p1, a1) = write_more K C fd buffer 11 w.os i [] c length-buffer in
      (
        tt,
        moved w (K.close fd s1).1,
        ground (arith, strlen-buffer),
        tt,
        close_answered K C fd w.os s1 i (codes "hello world") c1 p1 a1,
      )

  all-Any : (l : List (List ℕ)) → AllRequests Any l
  all-Any [] = tt
  all-Any (i ∷ l) = (tt, all-Any l)

  -- On a machine where the port can be bound, the server sends "hello world" to each peer,
  -- whatever it sends, and closes the connection: after as many rounds as peers, each peer has been
  -- answered with that text, in the order in which they connected, and the server is running.
  pub server_main_answers :
      (l : List (List ℕ)) (w : World K.State) (fd : ℤ) (s1 s2 s3 : K.State)
      → K.socket w.os ≡ (fd, s1)
      → K.bind fd port s1 ≡ (pos 0, s2)
      → K.listen fd 5 s2 ≡ (pos 0, s3)
      → C.view s3 ≡ idle l []
      → (w' : World K.State) × (server_main K (length l) w ≡ some (running, w'))
        × (C.view w'.os ≡ idle [] (map hello l))
  unfolding server_main
  server_main_answers l w fd s1 s2 s3 made bound listening v =
      let (w', run, v') =
        accept_loop_all K C (serve K) hello Any Any serve_answers fd l tt (moved w s3) tt
          (all-Any l) v in
      (w', ground (arith, made, bound, listening, run), v')

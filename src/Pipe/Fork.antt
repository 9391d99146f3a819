-- ===== src/Pipe/Fork.antt =====
-- pipe_example/main.c
pub mod RoundTrip
use linux_programming_exampl.Prelude.{
  ℕ, zero, suc, ℤ, pos, negsuc, minus_one, is_minus_one, Option, none, some, List, [], ◌∷◌,
  if◌then◌else◌,
}
use linux_programming_exampl.Program.{
  Prog, int, text, printf, perror, pure, ◌>>=◌, ◌>>◌, print, sys, call,
}
use linux_programming_exampl.CMemory.{codes, c_str, memset, snprintf, overwrite}
use linux_programming_exampl.Pipe.Kernel.{PipeOs}

abbrev pub max_buf_len : ℕ
max_buf_len = 1028

-- The buffer of `send_data`, behind `memset` and `snprintf`.
abbrev pub message_in : List ℕ → List ℕ
message_in buf = snprintf (memset buf 0 max_buf_len) max_buf_len (codes "msg: Hello world")

module _ (K : PipeOs) where
  pub recv_data : ℤ → List ℕ → Prog K.State (Unit {0})
  recv_data fd buf = do
    n ← call (K.read fd max_buf_len)
    elim n [
      | none ↦ print (perror "read()")
      | some bytes ↦ do
        pid ← sys (λ s. (K.getpid s, s))
        print (
            printf "[Recv Data] - [Child] pid: %u, %s\n"
              (int pid ∷ text (c_str (overwrite (memset buf 0 max_buf_len) 0 bytes)) ∷ []))
    ]

  pub send_data : ℤ → List ℕ → Prog K.State (Unit {0})
  send_data fd buf = do
    pid ← sys (λ s. (K.getpid s, s))
    print (
        printf "[Send Data] - [PARENT] pid: %u, %s\n"
          (int pid ∷ text (c_str (message_in buf)) ∷ []))
    n ← sys (K.write fd (message_in buf) max_buf_len)
    if is_minus_one n then print (perror "write()") else pure tt

  -- `fork` gives 0 in the child, which sends. `buf` is what the array of the process holds.
  pub main : List ℕ → Prog K.State ℤ
  main buf = do
    (made, fd0, fd1) ← sys K.pipe
    if is_minus_one made then (do print (perror "pipe()"); pure minus_one) else (do
      pid ← sys K.fork
      elim pid [
        | negsuc n ↦ do print (perror "fork()"); pure minus_one
        | pos zero ↦ do sys (K.close fd0); send_data fd1 buf; sys (K.close fd1); pure (pos 0)
        | pos (suc n) ↦ do sys (K.close fd1); recv_data fd0 buf; sys (K.close fd0); pure (pos 0)
      ])

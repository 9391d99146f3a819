-- ===== src/Pipe/Kernel.antt =====
-- The calls that pipe_example/main.c and namePipe_example/main.c make.
use linux_programming_exampl.Prelude.{ℕ, ℤ, Option, List}

-- `pipe` gives the result and the two descriptors. `open_write` and `open_read` are `open` with
-- O_CREAT | O_WRONLY and with O_RDONLY; they have the outer `none` for a process that waits for
-- good, as `read` does. `read` gives the bytes, or `none` for -1.
pub record PipeOs : Type 1 where
  pub State : Type 0
  pub pipe : State → (ℤ × ℤ × ℤ) × State
  pub fork : State → ℤ × State
  pub unlink : List ℕ → State → ℤ × State
  pub mkfifo : List ℕ → State → ℤ × State
  pub open_write : List ℕ → State → Option (ℤ × State)
  pub open_read : List ℕ → State → Option (ℤ × State)
  pub read : ℤ → ℕ → State → Option (Option (List ℕ) × State)
  pub write : ℤ → List ℕ → ℕ → State → ℤ × State
  pub close : ℤ → State → ℤ × State
  pub getpid : State → ℤ

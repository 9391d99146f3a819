-- ===== src/Echo/Kernel.antt =====
-- The calls that the echo service makes on its connection.
use linux_programming_exampl.Prelude.{ℕ, ◌≤◌, ◌≡◌, ℤ, Option, some, List, [], ◌++◌, length, take}

-- `BUFSIZ` of the GNU C library.
abbrev pub bufsiz : ℕ
bufsiz = 8192

-- `read` gives the bytes, or `none` for -1. `write` takes the buffer and the number of bytes.
pub record EchoOs : Type 1 where
  pub State : Type 0
  pub read : ℤ → ℕ → State → Option (List ℕ) × State
  pub write : ℤ → List ℕ → ℕ → State → ℤ × State

-- The descriptor of a connection whose peer sends `input` and then closes its side, and takes all that
-- is written, which is `output`. `read` may give less than there is, but not nothing before the end.
pub record IsConnection (K : EchoOs) (fd : ℤ) : Type 1 where
  pub input : K.State → List ℕ
  pub output : K.State → List ℕ
  pub reads :
      (s : K.State)
      → (bytes : List ℕ) × ((K.read fd bufsiz s).0 ≡ some bytes)
        × (length bytes ≤ bufsiz)
        × (input s ≡ bytes ++ input (K.read fd bufsiz s).1)
        × (output (K.read fd bufsiz s).1 ≡ output s)
        × (length bytes ≡ 0 → input s ≡ [])
  pub writes :
      (buf : List ℕ) (n : ℕ) (s : K.State)
      → n ≤ length buf
      → (output (K.write fd buf n s).1 ≡ output s ++ take n buf)
        × (input (K.write fd buf n s).1 ≡ input s)

-- ===== src/SharedMemory/Usage.antt =====
-- `main` of shared_memory_example/main.c on a command line that it does not accept.
use linux_programming_exampl.Prelude.{
  ℕ, ◌≤◌, ◌<◌, ◌≡◌, ◌⊎◌, inl, inr, minus_one, true, false, some, List, [], ◌∷◌, length, get_or,
  lt→ltb, le→ltb,
}
use linux_programming_exampl.Program.{World, Output, text, printf, said}
use linux_programming_exampl.CMemory.{codes, strcmp_eq}
use linux_programming_exampl.SharedMemory.{print_usage, main_err, main}
use linux_programming_exampl.SharedMemory.Kernel.{ShmOs}

abbrev pub Is : List (List ℕ) → ℕ → List ℕ → Type 0
Is argv i word = strcmp_eq (get_or argv i []) word ≡ true

abbrev pub IsNot : List (List ℕ) → ℕ → List ℕ → Type 0
IsNot argv i word = strcmp_eq (get_or argv i []) word ≡ false

-- The first word is `sysv`, or it is `posix`: `main` asks for `posix` first.
abbrev pub IsKind : List (List ℕ) → Type 0
IsKind argv = Is argv 1 (codes "posix") ⊎ IsNot argv 1 (codes "posix") × Is argv 1 (codes "sysv")

-- The command lines that are not of the form `(posix|sysv) (recv|send Message)`.
pub data Rejected (argv : List (List ℕ)) : Type 0 where
  too_few : length argv < 3 → Rejected argv
  no_kind :
      3 ≤ length argv → IsNot argv 1 (codes "posix") → IsNot argv 1 (codes "sysv") → Rejected argv
  no_command :
      3 ≤ length argv
      → IsKind argv
      → IsNot argv 2 (codes "recv")
      → IsNot argv 2 (codes "send")
      → Rejected argv
  no_message :
      3 ≤ length argv
      → length argv < 4
      → IsKind argv
      → IsNot argv 2 (codes "recv")
      → Is argv 2 (codes "send")
      → Rejected argv

abbrev pub usage : List (List ℕ) → Output
usage argv = printf "Usage: %s (posix|sysv) (recv|send Message)\n" (text (get_or argv 0 []) ∷ [])

module _ (K : ShmOs) (rounds : ℕ) where
  -- On a command line of another form than the usage message gives, `main` makes no system call,
  -- prints the usage and returns -1.
  pub main-usage :
      (argv : List (List ℕ)) (w : World K.State)
      → Rejected argv
      → main K rounds argv w ≡ some (minus_one, said w (usage argv))
  unfolding main print_usage main_err
  main-usage argv w (too_few few) = rw (lt→ltb (length argv) 3 few)
  main-usage argv w (no_kind enough p s) = rw (le→ltb (length argv) 3 enough, p, s)
  main-usage argv w (no_command enough (inl p) r s) = rw (le→ltb (length argv) 3 enough, p, r, s)
  main-usage argv w (no_command enough (inr (p, q)) r s) =
      rw (le→ltb (length argv) 3 enough, p, q, r, s)
  main-usage argv w (no_message enough few (inl p) r s) =
      rw (le→ltb (length argv) 3 enough, p, r, s, lt→ltb (length argv) 4 few)
  main-usage argv w (no_message enough few (inr (p, q)) r s) =
      rw (le→ltb (length argv) 3 enough, p, q, r, s, lt→ltb (length argv) 4 few)

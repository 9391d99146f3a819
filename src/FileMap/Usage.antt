-- ===== src/FileMap/Usage.antt =====
-- `main` of mmap_example_2/main.c on a command line that it does not accept.
use linux_programming_exampl.Prelude.{
  ℕ, ◌≤◌, ◌<◌, ◌≡◌, refl, ℤ, minus_one, true, false, some, List, [], ◌∷◌, ◌++◌, append_assoc, arith,
  length, get_or, lt→ltb, le→ltb, ◌==◌,
}
use linux_programming_exampl.Program.{returned, Prog, World, Output, text, printf}
use linux_programming_exampl.CMemory.{codes, strcmp_eq}
use linux_programming_exampl.FileMap.{print_help, main_err, main}
use linux_programming_exampl.FileMap.Kernel.{FileOs}

-- The second character of the first argument.
abbrev pub flag : List (List ℕ) → ℕ
flag argv = get_or (get_or argv 1 []) 1 0

abbrev word : List (List ℕ) → List ℕ
word argv = get_or argv 2 []

-- The command lines that are not of the forms that the help names.
pub data Rejected (argv : List (List ℕ)) : Type 0 where
  no_flag : length argv < 2 → Rejected argv
  other_flag :
      2 ≤ length argv → (flag argv == b'f') ≡ false → (flag argv == b'a') ≡ false → Rejected argv
  no_file : 2 ≤ length argv → length argv < 4 → (flag argv == b'f') ≡ true → Rejected argv
  other_word :
      4 ≤ length argv
      → (flag argv == b'f') ≡ true
      → strcmp_eq (word argv) (codes "monitor") ≡ false
      → strcmp_eq (word argv) (codes "send") ≡ false
      → Rejected argv
  no_message :
      4 ≤ length argv
      → length argv < 5
      → (flag argv == b'f') ≡ true
      → strcmp_eq (word argv) (codes "monitor") ≡ false
      → strcmp_eq (word argv) (codes "send") ≡ true
      → Rejected argv

abbrev line1 : List (List ℕ) → Output
line1 argv = printf "Usage: %s [-fa] (monitor|send Message)\n" (text (get_or argv 0 []) ∷ [])

abbrev line2 : Output
line2 = printf "    options:\n" []

abbrev line3 : Output
line3 = printf "        -f  (monitor|send Message) File_path \n" []

abbrev line4 : Output
line4 = printf "        -a\n" []

abbrev pub help : List (List ℕ) → List Output
help argv = line1 argv ∷ line2 ∷ line3 ∷ line4 ∷ []

module _ (K : FileOs) (do_anon : Prog K.State ℤ) (rounds : ℕ) where
  helped :
      (argv : List (List ℕ)) (w : World K.State)
      → main_err argv w ≡ some (returned minus_one, record { os = w.os; out = w.out ++ help argv })
  unfolding main_err print_help
  helped argv w =
      rw
        (
          append_assoc ((w.out ++ (line1 argv ∷ [])) ++ (line2 ∷ [])) (line3 ∷ []) (line4 ∷ []),
          append_assoc (w.out ++ (line1 argv ∷ [])) (line2 ∷ []) (line3 ∷ line4 ∷ []),
          append_assoc w.out (line1 argv ∷ []) (line2 ∷ line3 ∷ line4 ∷ []),
        )
        refl

  -- On a command line that it does not accept, `main` makes no system call, prints the four lines of
  -- the help and returns -1.
  pub main-help :
      (argv : List (List ℕ)) (w : World K.State)
      → Rejected argv
      → main K do_anon rounds argv w
        ≡ some (returned minus_one, record { os = w.os; out = w.out ++ help argv })
  unfolding main
  main-help argv w (no_flag few) = ground (arith, helped argv w, lt→ltb (length argv) 2 few)
  main-help argv w (other_flag enough f a) =
      ground (arith, helped argv w, le→ltb (length argv) 2 enough, f, a)
  main-help argv w (no_file enough few f) =
      ground (arith, helped argv w, le→ltb (length argv) 2 enough, lt→ltb (length argv) 4 few, f)
  main-help argv w (other_word enough f m s) =
      let two : 2 ≤ length argv = omega arith in
      ground
        (arith, helped argv w, le→ltb (length argv) 2 two, le→ltb (length argv) 4 enough, f, m, s)
  main-help argv w (no_message enough few f m s) =
      let two : 2 ≤ length argv = omega arith in
      ground (
        arith,
        helped argv w,
        le→ltb (length argv) 2 two,
        le→ltb (length argv) 4 enough,
        lt→ltb (length argv) 5 few,
        f,
        m,
        s,
      )

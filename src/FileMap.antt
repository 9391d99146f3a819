-- ===== src/FileMap.antt =====
-- mmap_example_2/main.c: messages through a mapped file, and through an anonymous mapping that a
-- process shares with its children.
pub mod Kernel
pub mod File
pub mod Anon
pub mod Usage
mod Tests
use linux_programming_exampl.Prelude.{
  ℕ, ℤ, pos, minus_one, Bool, true, false, List, [], ◌∷◌, if◌then◌else◌, ltb, ◌==◌, length, get_or,
}
use linux_programming_exampl.Program.{
  Status, running, returned, Prog, World, text, printf, pure, ◌>>=◌, ◌>>◌, print,
}
use linux_programming_exampl.CMemory.{codes, strcmp_eq}
use Kernel.{FileOs}
use File.{do_monitoring, do_send_data}

module _ {S : Type 0} where
  pub print_help : List ℕ → Prog S (Unit {0})
  print_help progname = do
    print (printf "Usage: %s [-fa] (monitor|send Message)\n" (text progname ∷ []))
    print (printf "    options:\n" [])
    print (printf "        -f  (monitor|send Message) File_path \n" [])
    print (printf "        -a\n" [])

  pub main_err : List (List ℕ) → Prog S Status
  main_err argv = do print_help (get_or argv 0 []); pure (returned minus_one)

-- `do_anon` is a program over the same state, of which one process is modelled at a time.
module _ (K : FileOs) (do_anon : Prog K.State ℤ) where
  -- `argv` has `argc` entries, and the monitor is followed for `rounds` rounds of its loop.
  unfoldable pub main : ℕ → List (List ℕ) → Prog K.State Status
  main rounds argv =
      if ltb (length argv) 2
      then main_err argv
      else if get_or (get_or argv 1 []) 1 0 == b'f'
      then (if ltb (length argv) 4
          then main_err argv
          else if strcmp_eq (get_or argv 2 []) (codes "monitor")
          then (do
            status ← do_monitoring K (get_or argv 3 []) rounds
            elim status [ running ↦ pure running | returned _ ↦ pure (returned (pos 0)) ])
          else if strcmp_eq (get_or argv 2 []) (codes "send")
          then (if ltb (length argv) 5 then main_err argv else (do
            do_send_data K (get_or argv 4 []) (get_or argv 3 [])
            pure (returned (pos 0))))
          else main_err argv)
      else if get_or (get_or argv 1 []) 1 0 == b'a'
      then (do do_anon; pure (returned (pos 0)))
      else main_err argv

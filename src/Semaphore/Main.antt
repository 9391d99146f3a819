-- ===== src/Semaphore/Main.antt =====
-- `main` of semaphore_example/main.c: the first word chooses the kind of semaphore.
use linux_programming_exampl.Prelude.{
  ℕ, ℤ, pos, minus_one, List, [], ltb, if◌then◌else◌, length, get_or,
}
use linux_programming_exampl.Program.{Prog, pure, ◌>>◌}
use linux_programming_exampl.CMemory.{codes, strcmp_eq}
use linux_programming_exampl.Semaphore.Usage.{print_help}

module _ {S : Type 0}
    (sysv_main posix_unnamed_main posix_named_main : List (List ℕ) → Prog S (Unit {0})) where
  -- The three mains of the parts, over one state of the operating system.
  pub main : List (List ℕ) → Prog S ℤ
  main argv =
      if ltb (length argv) 3
      then (do print_help (get_or argv 0 []); pure minus_one)
      else if strcmp_eq (get_or argv 1 []) (codes "sysv")
      then (do sysv_main argv; pure (pos 0))
      else if strcmp_eq (get_or argv 1 []) (codes "unnamed_posix")
      then (do posix_unnamed_main argv; pure (pos 0))
      else if strcmp_eq (get_or argv 1 []) (codes "named_posix")
      then (do posix_named_main argv; pure (pos 0))
      else (do print_help (get_or argv 0 []); pure minus_one)

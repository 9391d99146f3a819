-- ===== src/SharedMemory.antt =====
-- shared_memory_example/main.c: messages through an object in shared memory, POSIX or System V.
pub mod Kernel
pub mod Monitor
pub mod Posix
pub mod Sysv
pub mod Usage
mod Tests
use linux_programming_exampl.Prelude.{
  ℕ, ℤ, pos, minus_one, Bool, true, false, List, [], ◌∷◌, if◌then◌else◌, ltb, length, get_or,
}
use linux_programming_exampl.Program.{Prog, World, text, printf, pure, ◌>>=◌, ◌>>◌, print}
use linux_programming_exampl.CMemory.{codes, strcmp_eq}
use Kernel.{ShmOs}
use Posix.{posix_recv_message, posix_send_message}
use Sysv.{sysv_recv_message, sys_send_message}

module _ {S : Type 0} where
  pub print_usage : List ℕ → Prog S (Unit {0})
  print_usage progname =
      print (printf "Usage: %s (posix|sysv) (recv|send Message)\n" (text progname ∷ []))

  pub main_err : List (List ℕ) → Prog S ℤ
  main_err argv = do print_usage (get_or argv 0 []); pure minus_one

module _ (K : ShmOs) where
  -- `argv` has `argc` entries.
  unfoldable pub main : ℕ → List (List ℕ) → Prog K.State ℤ
  unfolding print_usage main_err
  main rounds argv =
      if ltb (length argv) 3
      then (do print_usage (get_or argv 0 []); pure minus_one)
      else if strcmp_eq (get_or argv 1 []) (codes "posix")
      then (if strcmp_eq (get_or argv 2 []) (codes "recv")
          then (do posix_recv_message K rounds; pure (pos 0))
          else if strcmp_eq (get_or argv 2 []) (codes "send")
          then (if ltb (length argv) 4
              then main_err argv
              else (do posix_send_message K (get_or argv 3 []); pure (pos 0)))
          else main_err argv)
      else if strcmp_eq (get_or argv 1 []) (codes "sysv")
      then (if strcmp_eq (get_or argv 2 []) (codes "recv")
          then (do sysv_recv_message K rounds; pure (pos 0))
          else if strcmp_eq (get_or argv 2 []) (codes "send")
          then (if ltb (length argv) 4
              then main_err argv
              else (do sys_send_message K (get_or argv 3 []); pure (pos 0)))
          else main_err argv)
      else main_err argv

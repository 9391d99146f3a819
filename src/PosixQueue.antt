-- ===== src/PosixQueue.antt =====
-- posix_mq_example/main.c: a text through a POSIX message queue.
pub mod Kernel
pub mod RoundTrip
mod Tests
use linux_programming_exampl.Prelude.{
  ℕ, ℤ, pos, minus_one, is_minus_one, Bool, true, false, Option, none, some, List, [], ◌∷◌, ltb,
  if◌then◌else◌, length, get_or,
}
use linux_programming_exampl.Program.{
  Prog, World, Output, int, text, printf, perror, pure, ◌>>=◌, ◌>>◌, print, sys, call, moved,
}
use linux_programming_exampl.CMemory.{codes, c_str, strcmp_eq, memset, memcpy, snprintf}
use Kernel.{MqOs}

abbrev pub file_path : List ℕ
file_path = codes "/posix_example"

abbrev pub sizeof_pointer : ℕ
sizeof_pointer = 8

module _ {S : Type 0} where
  pub print_help : List ℕ → Prog S (Unit {0})
  print_help program_name = print (printf "Usage: %s (s|r)\n" (text program_name ∷ []))

-- The buffer of `send_data`, made from what `malloc` gave.
unfoldable pub message_of : List ℕ → ℕ → List ℕ
message_of bytes max_len = snprintf (memset bytes 0 max_len) max_len (codes "hello world")

-- The buffer of `recv_data` behind `mq_receive`.
unfoldable pub received_in : List ℕ → List ℕ → List ℕ
received_in bytes got = memcpy (memset bytes 0 sizeof_pointer) got (length got)

module _ (K : MqOs) where
  -- `free(buf)`
  abbrev pub free : ℕ → Prog K.State (Unit {0})
  free buf w = some (tt, moved w (K.free buf w.os))

  -- `max_len` is the variable of that name from its assignment on.
  pub send_data : Prog K.State (Unit {0})
  send_data = do
    mq_fd ← sys (K.mq_open file_path false)
    if is_minus_one mq_fd then print (perror "mq_open()") else (do
      max_len ← sys (K.mq_getattr mq_fd)
      print (printf "* mq_msgsize: %lu\n" (int (pos max_len) ∷ []))
      (buf, bytes) ← sys (K.malloc max_len)
      ret ← call (K.mq_send mq_fd (message_of bytes max_len) 1)
      if is_minus_one ret
          then (do print (perror "mq_send()"); free buf; sys (K.close mq_fd); pure tt)
          else (do free buf; sys (K.mq_close mq_fd); pure tt))

  pub recv_data : Prog K.State (Unit {0})
  recv_data = do
    mq_fd ← sys (K.mq_open file_path true)
    if is_minus_one mq_fd then print (perror "mq_open()") else (do
      max_len ← sys (K.mq_getattr mq_fd)
      (buf, bytes) ← sys (K.malloc max_len)
      got ← call (K.mq_receive mq_fd max_len)
      elim got [
        | none ↦ do print (perror "mq_receive()"); free buf; sys (K.close mq_fd); pure tt
        | some message ↦ do
          print (printf "[RECV] data: %s\n" (text (c_str (received_in bytes message)) ∷ []))
          free buf
          sys (K.mq_close mq_fd)
          pure tt
      ])

  -- `argv` has `argc` entries.
  pub main : List (List ℕ) → Prog K.State ℤ
  main argv =
      if ltb (length argv) 2
      then (do print_help (get_or argv 0 []); pure minus_one)
      else if strcmp_eq (get_or argv 1 []) (codes "s")
      then (do send_data; pure (pos 0))
      else if strcmp_eq (get_or argv 1 []) (codes "r")
      then (do recv_data; pure (pos 0))
      else (do print_help (get_or argv 0 []); pure minus_one)

-- ===== src/Pipe/Fifo.antt =====
-- namePipe_example/main.c
pub mod RoundTrip
use linux_programming_exampl.Prelude.{
  ℕ, ℤ, pos, minus_one, is_minus_one, ltb, true, false, Option, none, some, List, [], ◌∷◌,
  if◌then◌else◌, get_or, length,
}
use linux_programming_exampl.Program.{
  Prog, int, text, printf, perror, pure, ◌>>=◌, ◌>>◌, print, sys, call,
}
use linux_programming_exampl.CMemory.{codes, c_str, strcmp_eq, memset, snprintf, overwrite}
use linux_programming_exampl.Pipe.Kernel.{PipeOs}

abbrev pub path_name : List ℕ
path_name = codes "/home/alwns28/example_folder/namePipe_example/fifo"

abbrev pub max_buf_len : ℕ
max_buf_len = 1024

abbrev pub message_in : List ℕ → List ℕ
message_in buf = snprintf (memset buf 0 max_buf_len) max_buf_len (codes "fifo TEST hello world")

module _ (K : PipeOs) where
  pub print_help : List ℕ → Prog K.State (Unit {0})
  print_help program_name = print (printf "Usage: %s (s|r) \n" (text program_name ∷ []))

  -- `open` may fail; its result is not looked at.
  pub send_data : List ℕ → Prog K.State (Unit {0})
  send_data buf = do
    removed ← sys (K.unlink path_name)
    if is_minus_one removed then print (printf "파일 생성이 필요합니다.\n" []) else pure tt
    made ← sys (K.mkfifo path_name)
    if is_minus_one made then print (perror "mkfifo()") else (do
      fd ← call (K.open_write path_name)
      pid ← sys (λ s. (K.getpid s, s))
      print (printf "[SEND](%u) fifo TEST hello world\n" (int pid ∷ []))
      n ← sys (K.write fd (message_in buf) max_buf_len)
      if is_minus_one n then print (perror "write()") else pure tt
      sys (K.close fd)
      pure tt)

  pub recv_data : List ℕ → Prog K.State (Unit {0})
  recv_data buf = do
    fd ← call (K.open_read path_name)
    n ← call (K.read fd max_buf_len)
    elim n [
      | none ↦ do print (perror "read()"); sys (K.close fd); pure tt
      | some bytes ↦ do
        pid ← sys (λ s. (K.getpid s, s))
        print (
            printf "[RECV](%u) %s\n"
              (int pid ∷ text (c_str (overwrite (memset buf 0 max_buf_len) 0 bytes)) ∷ []))
        sys (K.close fd)
        pure tt
    ]

  pub main : List (List ℕ) → List ℕ → Prog K.State ℤ
  main args buf =
      if ltb (length args) 2 then (do print_help (get_or args 0 []); pure minus_one) else (do
        if strcmp_eq (get_or args 1 []) (codes "r")
            then recv_data buf
            else if strcmp_eq (get_or args 1 []) (codes "s")
            then send_data buf
            else print_help (get_or args 0 [])
        pure (pos 0))

-- ===== src/MessageQueue.antt =====
-- sysv_example/main.c: a text through a System V message queue.
pub mod Kernel
pub mod RoundTrip
pub mod Failure
mod Tests
use linux_programming_exampl.Prelude.{
  ℕ, ◌+◌, ℤ, pos, minus_one, is_minus_one, Bool, true, false, Option, none, some, List, [], ◌∷◌,
  replicate, ltb, if◌then◌else◌, length, get_or,
}
use linux_programming_exampl.Program.{
  Prog, World, Output, int, text, printf, perror, pure, ◌>>=◌, ◌>>◌, print, sys, call,
}
use linux_programming_exampl.CMemory.{codes, c_str, strcmp_eq, snprintf, strcpy, atoi}
use Kernel.{QueueOs, SysvBuf, max_buf_len}

abbrev pub shared_path : List ℕ
shared_path = codes "/home/alwns28/example_folder/sysv_example/pw_file"

abbrev pub proj_id : ℕ
proj_id = 1234

module _ {S : Type 0} where
  pub print_help : List ℕ → Prog S (Unit {0})
  print_help program_name = print (printf "Usage: %s (s mtype |r mtype)\n" (text program_name ∷ []))

unfoldable pub sysv_buf_setting : List ℕ → ℤ → SysvBuf
sysv_buf_setting msg mtype = record { mtype = mtype; mtext = strcpy (replicate max_buf_len 0) msg }

-- `buf` of `send_data`: cleared, and then printed to.
unfoldable pub hello_world : List ℕ
hello_world = snprintf (replicate max_buf_len 0) max_buf_len (codes "Hello world")

module _ (K : QueueOs) where
  -- The result and `*mq_id`, which is 0 where the code leaves it unset.
  pub sysv_mqid_setting : Prog K.State (ℤ × ℤ)
  sysv_mqid_setting = do
    print (printf " = Create IPC key " [])
    key ← sys (K.ftok shared_path proj_id)
    if is_minus_one key
        then (do print (printf " => FAIL \n" []); print (perror "ftok()"); pure (minus_one, pos 0))
        else (do
          print (printf " => SUCCESS, key: %d\n" (int key ∷ []))
          print (printf " = Create Message Queue ID " [])
          mq_id ← sys (K.msgget key)
          if is_minus_one mq_id
              then (do
                print (printf " => FAIL \n" [])
                print (perror "msgget()")
                pure (minus_one, mq_id))
              else (do
                print (printf " => SUCCESS, ID: %d\n" (int mq_id ∷ []))
                pure (pos 0, mq_id)))

  pub send_data : ℤ → Prog K.State ℤ
  unfolding hello_world sysv_buf_setting
  send_data mtype = do
    (status, mq_id) ← sysv_mqid_setting
    if is_minus_one status
        then (do print (printf "FAIL setting mq id\n" []); pure minus_one)
        else (do
          print (
              printf " = Send Message [%s] "
                (text (c_str (sysv_buf_setting hello_world mtype).mtext) ∷ []))
          ret ← call (K.msgsnd mq_id (sysv_buf_setting hello_world mtype) max_buf_len)
          if is_minus_one ret
              then (do print (printf " => FAIL \n" []); print (perror "msgsnd()"); pure minus_one)
              else (do print (printf "  => SUCCESS \n" []); pure (pos 0)))

  pub recv_data : ℤ → Prog K.State ℤ
  recv_data mtype = do
    (status, mq_id) ← sysv_mqid_setting
    if is_minus_one status
        then (do print (printf "FAIL setting mq id\n" []); pure minus_one)
        else (do
          (ret, mq_buf) ← call (K.msgrcv mq_id max_buf_len mtype)
          if is_minus_one ret
              then (do print (printf " => FAIL \n" []); print (perror "msgrcv()"); pure minus_one)
              else (do
                print (
                    printf " = Recv Messagae => SUCCESS , Recv Data: %s\n"
                      (text (c_str mq_buf.mtext) ∷ []))
                pure (pos 0)))

  -- `argv` has `argc` entries.
  pub main : List (List ℕ) → Prog K.State ℤ
  unfolding print_help send_data recv_data
  main argv =
      if ltb (length argv) 3 then (do print_help (get_or argv 0 []); pure minus_one) else (do
        fd ← sys (K.open_file shared_path)
        sys (K.close fd)
        if strcmp_eq (get_or argv 1 []) (codes "s")
            then (do
              ret ← send_data (atoi (get_or argv 2 []))
              if is_minus_one ret
                  then (do print (printf "메세지 전송을 실패하였습니다.\n" []); pure minus_one)
                  else pure (pos 0))
            else if strcmp_eq (get_or argv 1 []) (codes "r")
            then (do
              ret ← recv_data (atoi (get_or argv 2 []))
              if is_minus_one ret
                  then (do print (printf "메세지 수신을 실패하였습니다.\n" []); pure minus_one)
                  else pure (pos 0))
            else (do print_help (get_or argv 0 []); pure (pos 0)))

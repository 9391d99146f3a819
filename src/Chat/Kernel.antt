-- ===== src/Chat/Kernel.antt =====
-- The calls that the chatting server and its client make.
use linux_programming_exampl.Prelude.{ℕ, ℤ, negsuc, pos, Bool, Option}
use linux_programming_exampl.Program.{Output}
use linux_programming_exampl.Tcp.Kernel.{TcpOs}

-- `ID_LEN` and `CHATTING_ROOM_NUM`
abbrev pub id_len : ℕ
id_len = 8

abbrev pub chatting_room_num : ℕ
chatting_room_num = 100

abbrev pub success : ℤ
success = pos 1

abbrev pub fail : ℤ
fail = negsuc 0

-- `srand` is `srand((unsigned)time(NULL))`. The file is the one named `DB_NAME`: `fopen_append` and
-- `fopen_write` give whether it was opened, and `fprintf` adds a line. `system_rm` is the command that
-- `clearID` runs. `scanf` gives the number, or `none` if there is none. `pipe` takes the index of the
-- room whose descriptors it sets.
pub record ChatOs : Type 1 where
  pub tcp : TcpOs
  pub srand : tcp.State → tcp.State
  pub rand : tcp.State → ℕ × tcp.State
  pub fopen_append : tcp.State → Bool × tcp.State
  pub fopen_write : tcp.State → Bool × tcp.State
  pub fprintf : Output → tcp.State → tcp.State
  pub fclose : tcp.State → tcp.State
  pub system_rm : tcp.State → tcp.State
  pub getpid : tcp.State → ℤ
  pub scanf : tcp.State → Option ℤ × tcp.State
  pub pipe : ℕ → tcp.State → ℤ × tcp.State

-- ===== src/Semaphore/Usage.antt =====
-- `print_help` and the constants of semaphore_example/main.c.
use linux_programming_exampl.Prelude.{ℕ, List, [], ◌∷◌}
use linux_programming_exampl.Program.{Prog, text, printf, ◌>>◌, print}

-- `SEM_NUM`, `SEM_COUNT`, `SEM_BINARY`, `POSIX_NAMED_TIME_DELAY`, `FTOK_PROJ`.
abbrev pub sem_num : ℕ
sem_num = 5

abbrev pub sem_count : ℕ
sem_count = 5

abbrev pub sem_binary : ℕ
sem_binary = 1

abbrev pub posix_named_time_delay : ℕ
posix_named_time_delay = 5

abbrev pub ftok_proj : ℕ
ftok_proj = 123

unfoldable pub print_help : {S : Type 0} → List ℕ → Prog S (Unit {0})
print_help progname = do
  print (printf "Usage: %s [options]\n" (text progname ∷ []))
  print (printf "    - options list: \n" [])
  print (printf "        * sysv [init|show|get SEM_IDX|release SEM_IDX|wait0 SEM_IDX]\n" [])
  print (printf "        * unnamed_posix [monitor|get|put]\n" [])
  print (printf "        * named_posix [show|wait|trywait|timewait|release]\n" [])

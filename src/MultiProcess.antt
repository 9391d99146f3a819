-- ===== src/MultiProcess.antt =====
-- multi_process_example/main.c and tcp_ip_programming/just_study/11.fork_example/fork_test.c
pub mod Exit
mod Tests
use linux_programming_exampl.Prelude.{
  ℕ, zero, suc, ◌+◌, ◌*◌, ◌/◌, ◌%◌, ℤ, pos, negsuc, minus_one, Bool, ◌==◌, Option, none, some, List,
  [], ◌∷◌, if◌then◌else◌,
}
use linux_programming_exampl.Program.{
  Prog, Arg, int, text, micros, printf, pure, stuck, ◌>>=◌, ◌>>◌, print, sys, call, act,
}
use linux_programming_exampl.CMemory.{codes}

-- `struct rusage`, with the times in microseconds: `tv_sec + tv_usec / 1000000.0` seconds.
pub record Rusage : Type 0 where
  pub ru_utime : ℤ
  pub ru_stime : ℤ
  pub ru_maxrss : ℤ
  pub ru_ixrss : ℤ
  pub ru_idrss : ℤ
  pub ru_isrss : ℤ
  pub ru_minflt : ℤ
  pub ru_majflt : ℤ
  pub ru_nswap : ℤ
  pub ru_inblock : ℤ
  pub ru_oublock : ℤ
  pub ru_nsignals : ℤ
  pub ru_msgsnd : ℤ
  pub ru_msgrcv : ℤ
  pub ru_nvcsw : ℤ
  pub ru_nivcsw : ℤ

-- `strerror` is the text for `errno`. `execl` gives whether it came back. `wait4` has the outer `none`
-- for a process that waits for good, and gives the status and the usage, or `none` for -1.
pub record ProcessOs : Type 1 where
  pub State : Type 0
  pub fork : State → ℤ × State
  pub getpid : State → ℤ
  pub getppid : State → ℤ
  pub strerror : State → List ℕ
  pub sleep : ℕ → State → State
  pub execl : State → Option State
  pub wait4 : ℤ → State → Option (Option (ℤ × ℕ × Rusage) × State)

-- The macros of sys/wait.h.
unfoldable pub wifexited : ℕ → Bool
wifexited wstatus = wstatus % 128 == 0

unfoldable pub wexitstatus : ℕ → ℕ
wexitstatus wstatus = (wstatus / 256) % 256

abbrev pub auther : List ℕ
auther = codes "Yoon Yeoung Jin "

-- `leader` is `none` for NULL.
abbrev pub leader_text : Option (List ℕ) → List ℕ
leader_text none = []
leader_text (some ldr) = ldr

pub yj_print_ruseage : {S : Type 0} → Option (List ℕ) → Rusage → Prog S (Unit {0})
yj_print_ruseage leader ru = do
  print (
      printf "%sCPU time (secs):         user=%.3f; system=%.3f\n"
        (text (leader_text leader) ∷ micros ru.ru_utime ∷ micros ru.ru_stime ∷ []))
  print (
      printf "%sMax resident set size:   %ld\n" (text (leader_text leader) ∷ int ru.ru_maxrss ∷ []))
  print
      (printf "%sIntegral shared memory:  %ld\n" (text (leader_text leader) ∷ int ru.ru_ixrss ∷ []))
  print
      (printf "%sIntegral unshared data:  %ld\n" (text (leader_text leader) ∷ int ru.ru_idrss ∷ []))
  print
      (printf "%sIntegral unshared stack: %ld\n" (text (leader_text leader) ∷ int ru.ru_isrss ∷ []))
  print (
      printf "%sPage reclaims:           %ld\n" (text (leader_text leader) ∷ int ru.ru_minflt ∷ []))
  print (
      printf "%sPage faults:             %ld\n" (text (leader_text leader) ∷ int ru.ru_majflt ∷ []))
  print
      (printf "%sSwaps:                   %ld\n" (text (leader_text leader) ∷ int ru.ru_nswap ∷ []))
  print (
      printf "%sBlock I/Os:              input=%ld; output=%ld\n"
        (text (leader_text leader) ∷ int ru.ru_inblock ∷ int ru.ru_oublock ∷ []))
  print (
      printf "%sSignals received:        %ld\n"
        (text (leader_text leader) ∷ int ru.ru_nsignals ∷ []))
  print (
      printf "%sIPC messages:            sent=%ld; received=%ld\n"
        (text (leader_text leader) ∷ int ru.ru_msgsnd ∷ int ru.ru_msgrcv ∷ []))
  print (
      printf "%sContext switches:        voluntary=%ld; involuntary=%ld\n"
        (text (leader_text leader) ∷ int ru.ru_nvcsw ∷ int ru.ru_nivcsw ∷ []))

-- How a process has ended: it returned from `main` or called `exit`, or another program goes on.
pub data End : Type 0 where
  exited : ℤ → End
  replaced : End

module _ (K : ProcessOs) where
  pub yj_print_pid : Prog K.State (Unit {0})
  yj_print_pid = do
    pid ← sys (λ s. (K.getpid s, s))
    print (printf "    * current process pid : %d\n" (int pid ∷ []))

  pub yj_print_ppid : Prog K.State (Unit {0})
  yj_print_ppid = do
    pid ← sys (λ s. (K.getppid s, s))
    print (printf "    * parent process pid : %d\n" (int pid ∷ []))

  -- The part behind `#elif USE_WAIT4`: USE_WAIT is 0 and USE_WAIT4 is 1.
  pub wait_child : ℤ → Prog K.State End
  wait_child current_pid = do
    waited ← call (K.wait4 current_pid)
    elim waited [
      | none ↦ do
        error ← sys (λ s. (K.strerror s, s))
        print (printf "wait4() fail: %s\n" (text error ∷ []))
        pure (exited minus_one)
      | some (child_pid, wstatus, usage) ↦ do
        if wifexited wstatus
            then (do
              print (
                  printf "    * The child process(%d) terminated successfully. (CODE: %d)\n "
                    (int child_pid ∷ int (pos (wexitstatus wstatus)) ∷ []))
              yj_print_ruseage (some auther) usage)
            else print (printf "    * The child process(%d) is not exited\n " (int child_pid ∷ []))
        pure (exited (pos 0))
    ]

  -- The branch of the child, from `sleep` on.
  pub exec_ls : Prog K.State End
  exec_ls = do
    act (K.sleep 1)
    back ← sys (λ s. (K.execl s, s))
    elim back [
      | none ↦ pure replaced
      | some s ↦ do
        act (λ t. s)
        error ← sys (λ t. (K.strerror t, t))
        print (printf "execl() fail : %s\n" (text error ∷ []))
        pure (exited minus_one)
    ]

  pub main : Prog K.State End
  main = do
    current_pid ← sys K.fork
    elim current_pid [
      | negsuc n ↦ do
        error ← sys (λ s. (K.strerror s, s))
        print (printf "fork() fail : %s\n" (text error ∷ []))
        pure (exited minus_one)
      | pos zero ↦ do
        print (printf " [*] THIS IS CHILD PROCESS\n" [])
        yj_print_pid
        yj_print_ppid
        exec_ls
      | pos (suc n) ↦ do
        print (printf " [*] THIS IS PARENT PROCESS\n" [])
        yj_print_pid
        wait_child (pos (suc n))
    ]

  -- fork_test.c: both processes have their own `a` and `b`.
  abbrev pub fork_test_line : ℕ → ℕ → Prog K.State ℤ
  fork_test_line a b = do
    pid ← sys (λ s. (K.getpid s, s))
    print (printf "[%d] a = %d / b = %d\n" (int pid ∷ int (pos a) ∷ int (pos b) ∷ []))
    pure (pos 0)

  pub fork_test_branch : ℤ → ℕ → ℕ → Prog K.State ℤ
  fork_test_branch (negsuc n) a b = fork_test_line a b
  fork_test_branch (pos zero) a b = do print (printf "CHILD" []); fork_test_line a (b + 1)
  fork_test_branch (pos (suc n)) a b = do print (printf "PARENT" []); fork_test_line (a + 1) b

  pub fork_test_main : Prog K.State ℤ
  fork_test_main = do pid ← sys K.fork; fork_test_branch pid (10 + 1) 20

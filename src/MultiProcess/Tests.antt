-- ===== src/MultiProcess/Tests.antt =====
-- A parent whose child has ended with -1, and one whose child was killed.
use linux_programming_exampl.Prelude.{◌≡◌, refl, pos, none, some, [], ◌∷◌}
use linux_programming_exampl.Program.{World, int, printf}
use linux_programming_exampl.MultiProcess.{ProcessOs, Rusage, exited, main}
use linux_programming_exampl.MultiProcess.Exit.{
  Ending, exit_code, status_of, report, Begins, main_reports,
}

abbrev idle_usage : Rusage
idle_usage = record {
  ru_utime = pos 1500;
  ru_stime = pos 0;
  ru_maxrss = pos 0;
  ru_ixrss = pos 0;
  ru_idrss = pos 0;
  ru_isrss = pos 0;
  ru_minflt = pos 0;
  ru_majflt = pos 0;
  ru_nswap = pos 0;
  ru_inblock = pos 0;
  ru_oublock = pos 0;
  ru_nsignals = pos 0;
  ru_msgsnd = pos 0;
  ru_msgrcv = pos 0;
  ru_nvcsw = pos 0;
  ru_nivcsw = pos 0;
}

-- The state is what became of the child.
abbrev machine : ProcessOs
machine = record {
  State = Ending;
  fork = λ e. (pos 100, e);
  getpid = λ e. pos 99;
  getppid = λ e. pos 1;
  strerror = λ e. [];
  sleep = λ n e. e;
  execl = λ e. none;
  wait4 = λ pid e. some (some (pid, status_of e, idle_usage), e);
}

abbrev failed : World Ending
failed = record { os = exit_code 255; out = [] }

main_reports_example :
    (w' : World Ending) × (main machine failed ≡ some (exited (pos 0), w'))
    × Begins
        (printf " [*] THIS IS PARENT PROCESS\n" []
          ∷ printf "    * current process pid : %d\n" (int (pos 99) ∷ [])
          ∷ report (pos 100) (exit_code 255)
          ∷ [])
        w'.out
main_reports_example =
    main_reports machine 99 (exit_code 255) idle_usage failed (exit_code 255) (exit_code 255) refl
      refl tt

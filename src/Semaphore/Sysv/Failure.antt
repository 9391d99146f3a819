-- ===== src/Semaphore/Sysv/Failure.antt =====
-- What the System V part of semaphore_example/main.c does without a set, and with a large index.
use linux_programming_exampl.Prelude.{
  ℕ, String, ◌≤◌, none, is_minus_one, if◌then◌else◌, ◌∷◌, ◌≡◌, ℤ, pos, minus_one, true, Option,
  some, List, [], arith,
}
use linux_programming_exampl.Program.{World, Output, perror, printf, moved, said}
use linux_programming_exampl.CMemory.{codes, strcmp_eq, atoi}
use linux_programming_exampl.Semaphore.Usage.{sem_num, ftok_proj}
use linux_programming_exampl.Semaphore.Sysv.{
  to_u16, init_loop, show_loop, sysv_sem_setting, sysv_sem_init, sysv_sem_show, sysv_sem_get,
  sysv_sem_release, sysv_sem_wait, with_index, sysv_main,
}
use linux_programming_exampl.Semaphore.Sysv.Init.{line}
use linux_programming_exampl.Semaphore.Sysv.Kernel.{SysvSemOs, IsSemSets}

-- The heading of `show`.
abbrev pub heading : Output
heading = printf "SHOW SYSV SEMPAHORE VALUES \n" []

module _ (K : SysvSemOs) where
  -- The run of a command behind its `semop`, from what `semop` gives.
  unfoldable pub answered : Option (ℤ × K.State) → World K.State → Option (Unit {0} × World K.State)
  answered none w = none
  answered (some (ret, s)) w =
      some (tt, if is_minus_one ret then said (moved w s) (perror "semop()") else moved w s)

  -- The world behind a `sysv_sem_setting` whose `ftok` fails.
  abbrev pub without_key : World K.State → World K.State
  without_key w = said (moved w (K.ftok (codes "/tmp") ftok_proj w.os).1) (perror "ftok()")

  -- The end of a `sysv_main` with an error message.
  abbrev pub ended : World K.State → String → Option (Unit {0} × World K.State)
  ended w what = some (tt, said w (perror what))

  module _ (L : IsSemSets K) where
    -- An index that no semaphore of the set has: all three commands print an error, change nothing and
    -- return -1.
    pub no_semaphore :
        (id index : ℤ) (w : World K.State)
        → L.is_set w.os id ≡ true
        → sem_num ≤ to_u16 index
        → (sysv_sem_get K id index w ≡ some (minus_one, said w (perror "semop()")))
          × (sysv_sem_release K id index w ≡ some (minus_one, said w (perror "semop()")))
          × (sysv_sem_wait K id index w ≡ some (minus_one, said w (perror "semop()")))
    unfolding sysv_sem_get sysv_sem_release sysv_sem_wait
    no_semaphore id index w set large = (
      ground (arith, L.semop_efbig id (to_u16 index) minus_one w.os set large),
      ground (arith, L.semop_efbig id (to_u16 index) (pos 1) w.os set large),
      ground (arith, L.semop_efbig id (to_u16 index) (pos 0) w.os set large),
    )

    -- Each command, run on the set -1.
    abbrev refused : World K.State → String → Option (ℤ × World K.State)
    refused w what = some (minus_one, said w (perror what))

    init_without_set : (w : World K.State) → sysv_sem_init K minus_one w ≡ refused w "semctl()"
    unfolding sysv_sem_init init_loop
    init_without_set w = ground (arith, L.setval_bad minus_one 0 1 w.os (L.not_set w.os))

    show_without_set :
        (w : World K.State)
        → sysv_sem_show K minus_one w ≡ refused (said (said w line) heading) "semctl()"
    unfolding sysv_sem_show show_loop
    show_without_set w = ground (arith, L.getval_bad minus_one 0 w.os (L.not_set w.os))

    get_without_set :
        (index : ℤ) (w : World K.State) → sysv_sem_get K minus_one index w ≡ refused w "semop()"
    unfolding sysv_sem_get
    get_without_set index w =
        ground (arith, L.semop_bad minus_one (to_u16 index) minus_one w.os (L.not_set w.os))

    release_without_set :
        (index : ℤ) (w : World K.State) → sysv_sem_release K minus_one index w ≡ refused w "semop()"
    unfolding sysv_sem_release
    release_without_set index w =
        ground (arith, L.semop_bad minus_one (to_u16 index) (pos 1) w.os (L.not_set w.os))

    wait_without_set :
        (index : ℤ) (w : World K.State) → sysv_sem_wait K minus_one index w ≡ refused w "semop()"
    unfolding sysv_sem_wait
    wait_without_set index w =
        ground (arith, L.semop_bad minus_one (to_u16 index) (pos 0) w.os (L.not_set w.os))

    -- If `ftok` fails, `sysv_sem_setting` prints an error and returns -1, and `sysv_main` runs the
    -- command all the same, on the set -1: `init`, `show`, `get`, `release` and `wait0`, the last three
    -- with any text for the index, print the error of their `semctl` or `semop` behind that of `ftok`,
    -- and `show` its heading between the two. The kernel's state is the one that `ftok` has left.
    pub sysv_main_without_set :
        (program kind arg : List ℕ) (rest : List (List ℕ)) (w : World K.State)
        → (K.ftok (codes "/tmp") ftok_proj w.os).0 ≡ minus_one
        → (sysv_main K (program ∷ kind ∷ codes "init" ∷ rest) w ≡ ended (without_key w) "semctl()")
          × (sysv_main K (program ∷ kind ∷ codes "show" ∷ rest) w
              ≡ ended (said (said (without_key w) line) heading) "semctl()")
          × (sysv_main K (program ∷ kind ∷ codes "get" ∷ arg ∷ rest) w
              ≡ ended (without_key w) "semop()")
          × (sysv_main K (program ∷ kind ∷ codes "release" ∷ arg ∷ rest) w
              ≡ ended (without_key w) "semop()")
          × (sysv_main K (program ∷ kind ∷ codes "wait0" ∷ arg ∷ rest) w
              ≡ ended (without_key w) "semop()")
    unfolding sysv_main sysv_sem_setting with_index strcmp_eq
    sysv_main_without_set program kind arg rest w failed = (
      ground (arith, failed, init_without_set (without_key w)),
      ground (arith, failed, show_without_set (without_key w)),
      ground (arith, failed, get_without_set (atoi arg) (without_key w)),
      ground (arith, failed, release_without_set (atoi arg) (without_key w)),
      ground (arith, failed, wait_without_set (atoi arg) (without_key w)),
    )

-- ===== src/Semaphore/Sysv/Session.antt =====
-- Any sequence of `get` and `release` commands of semaphore_example/main.c on one semaphore.
use linux_programming_exampl.Prelude.{
  ℕ, zero, suc, ◌+◌, ◌≤◌, ◌<◌, ◌≡◌, refl, sym, ap, ◌∙◌, ℤ, pos, true, some, List, [], ◌∷◌, arith,
  int_eq_refl,
}
use linux_programming_exampl.Program.{Prog, World, moved, pure, ◌>>=◌, ◌>>◌, some-pair_injective}
use linux_programming_exampl.Semaphore.Usage.{sem_num}
use linux_programming_exampl.Semaphore.Sysv.{to_u16, sysv_sem_init, sysv_sem_get, sysv_sem_release}
use linux_programming_exampl.Semaphore.Sysv.Init.{initial, sysv_sem_init_total}
use linux_programming_exampl.Semaphore.Sysv.Kernel.{SysvSemOs, IsSemSets}
use linux_programming_exampl.Semaphore.Sysv.Operations.{
  sysv_sem_get_total, sysv_sem_get_sleeps, sysv_sem_release_total,
}

pub data Command : Type 0 where
  get : Command
  release : Command

abbrev pub gets : List Command → ℕ
gets [] = 0
gets (get ∷ cs) = gets cs + 1
gets (release ∷ cs) = gets cs

abbrev pub releases : List Command → ℕ
releases [] = 0
releases (get ∷ cs) = releases cs
releases (release ∷ cs) = releases cs + 1

module _ (K : SysvSemOs) where
  -- Runs the commands one after the other; a `get` that sleeps for good ends the session.
  unfoldable pub session : List Command → ℤ → ℤ → Prog K.State (Unit {0})
  session [] id index = pure tt
  session (get ∷ cs) id index = do sysv_sem_get K id index; session cs id index
  session (release ∷ cs) id index = do sysv_sem_release K id index; session cs id index

  module _ (L : IsSemSets K) (id index : ℤ) (n : ℕ) where
    get_session :
        (v : ℕ) (cs : List Command) (w w' : World K.State)
        → L.is_set w.os id ≡ true
        → to_u16 index ≡ n
        → n < sem_num
        → L.value w.os id n ≡ v
        → session (get ∷ cs) id index w ≡ some (tt, w')
        → (s : K.State) × (session cs id index (moved w s) ≡ some (tt, w'))
          × (L.is_set s id ≡ true)
          × (L.value s id n + 1 ≡ v)
    unfolding session
    get_session zero cs w w' set e h value run =
        absurd (ground (arith, sysv_sem_get_sleeps K L id index n w set e h value))
    get_session (suc v) cs w w' set e h value run =
        let (s, ok, c) = sysv_sem_get_total K L id index n v w set e h value in
        (s, rw (ok, ◌>>=◌) at run, c.sets id ∙ set, ground (arith, c.values id n, int_eq_refl id))

    -- A session that comes to its end has taken the semaphore as often as the value that it found,
    -- the releases and the value that it leaves allow.
    pub session_balance :
        (cs : List Command) (w w' : World K.State)
        → L.is_set w.os id ≡ true
        → to_u16 index ≡ n
        → n < sem_num
        → session cs id index w ≡ some (tt, w')
        → L.value w'.os id n + gets cs ≡ L.value w.os id n + releases cs
    session_balance [] w w' set e h run = unfold session in ground arith
    session_balance (get ∷ cs) w w' set e h run =
        let (s, rest, set', one_less) = get_session (L.value w.os id n) cs w w' set e h refl run in
        omega (arith, session_balance cs (moved w s) w' set' e h rest)
    session_balance (release ∷ cs) w w' set e h run =
        let (s, ok, c) = sysv_sem_release_total K L id index n w set e h in
        let rest : session cs id index (moved w s) ≡ some (tt, w') =
          unfold session in (rw (ok, ◌>>=◌) at run) in
        let one_more : L.value s id n ≡ L.value w.os id n + 1 =
          ground (arith, c.values id n, int_eq_refl id) in
        omega (arith, session_balance cs (moved w s) w' (c.sets id ∙ set) e h rest)

    -- After `init`, in any session that comes to its end, the semaphore is held at most once more
    -- often than it was released if it is binary, and at most five times more often if it counts.
    pub holders_bound :
        (cs : List Command) (w w' w'' : World K.State)
        → L.is_set w.os id ≡ true
        → to_u16 index ≡ n
        → n < sem_num
        → sysv_sem_init K id w ≡ some (pos 0, w')
        → session cs id index w' ≡ some (tt, w'')
        → gets cs ≤ initial n + releases cs
    holders_bound cs w w' w'' set e h init run =
        let (s, ok, sets, values, others) = sysv_sem_init_total K L id w set in
        let (same, w_same) = some-pair_injective (sym ok ∙ init) in
        let set' : L.is_set w'.os id ≡ true =
          ap (λ (x : World K.State). L.is_set x.os id) (sym w_same) ∙ sets id ∙ set in
        let value : L.value w'.os id n ≡ initial n =
          ap (λ (x : World K.State). L.value x.os id n) (sym w_same) ∙ values n h in
        omega (arith, session_balance cs w' w'' set' e h run, value)

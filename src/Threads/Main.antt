-- ===== src/Threads/Main.antt =====
-- `main` of multi_thread_example/main.c: it makes the mutex and the threads, and waits for them.
use linux_programming_exampl.Prelude.{
  ℕ, String, not, ◌≡◌, ◌∙◌, ap, inl, inr, ℤ, pos, minus_one, is_zero, Bool, true, false, some, List,
  [], ◌∷◌, ◌++◌, arith, if◌then◌else◌, Option-cases,
}
use linux_programming_exampl.Threads.{count_id, plus_id}
use linux_programming_exampl.Program.{
  Prog, World, Arg, Output, int, text, printf, pure, ◌>>=◌, ◌>>◌, print, sys, said,
}

-- The calls of pthread.h that `main` makes, over an unknown state. They give 0 or an error number.
-- `create` takes the number of the function that the thread runs, and gives the thread's name too.
pub record PthreadOs : Type 1 where
  pub State : Type 0
  pub self : State → ℕ
  pub strerror : State → List ℕ
  pub mutex_init : State → ℤ × State
  pub create : ℕ → State → (ℤ × ℕ) × State
  pub join : ℕ → State → ℤ × State
  pub detach : ℕ → State → ℤ × State
  pub mutex_destroy : State → ℤ × State

-- pthread_join(3) and pthread_detach(3): a thread that has been joined is gone, and cannot be
-- detached any more. A thread that was created and not joined can be joined, for both threads return.
pub record JoinedIsGone (K : PthreadOs) : Type 1 where
  pub gone : K.State → ℕ → Bool
  pub create_live :
      (f : ℕ) (s : K.State)
      → is_zero (K.create f s).0.0 ≡ true
      → gone (K.create f s).1 (K.create f s).0.1 ≡ false
  pub create_keeps : (f u : ℕ) (s : K.State) → gone s u ≡ false → gone (K.create f s).1 u ≡ false
  pub join_live : (t : ℕ) (s : K.State) → gone s t ≡ false → is_zero (K.join t s).0 ≡ true
  pub join_gone :
      (t : ℕ) (s : K.State) → is_zero (K.join t s).0 ≡ true → gone (K.join t s).1 t ≡ true
  pub join_keeps : (t u : ℕ) (s : K.State) → gone s u ≡ true → gone (K.join t s).1 u ≡ true
  pub detach_keeps : (t u : ℕ) (s : K.State) → gone s u ≡ true → gone (K.detach t s).1 u ≡ true
  pub detach_gone : (t : ℕ) (s : K.State) → gone s t ≡ true → is_zero (K.detach t s).0 ≡ false

abbrev tid : ℕ → List Arg
tid t = int (pos t) ∷ []

module _ (K : PthreadOs) where
  -- `printf(format, strerror(errno)); return -1;`
  fail : String → Prog K.State ℤ
  fail format w = some (minus_one, said w (printf format (text (K.strerror w.os) ∷ [])))

  -- One call of `pthread_join` with the message before it, and the one behind it if it fails.
  join_thread : ℕ → ℕ → Prog K.State (Unit {0})
  join_thread t shown = do
    print (printf "trying to join %lu\n" (tid t))
    ret ← sys (K.join t)
    if is_zero ret then pure tt else print (printf "pthread_join(%lu) fail\n" (tid shown))

  -- From the first call of `pthread_detach` on.
  detach_threads : ℕ → ℕ → Prog K.State ℤ
  detach_threads t0 t1 = do
    ret0 ← sys (K.detach t0)
    if not (is_zero ret0) then fail "pthread_detach 0 fail: %s\n" else (do
      ret1 ← sys (K.detach t1)
      if not (is_zero ret1) then fail "pthread_detach 1 fail: %s\n" else (do
        ret ← sys K.mutex_destroy
        if not (is_zero ret) then fail "pthread_mutex_destroy fail: %s\n" else pure (pos 0)))

  -- The second failure names the first thread, as the code does.
  wait_threads : ℕ → ℕ → Prog K.State ℤ
  wait_threads t0 t1 = do join_thread t0 t0; join_thread t1 t0; detach_threads t0 t1

  pub main : Prog K.State ℤ
  main = do
    ret ← sys K.mutex_init
    if not (is_zero ret) then fail "pthread_mutex_init fail: %s\n" else (do
      self ← (λ w. some (K.self w.os, w))
      print (printf "[MAIN] Thread id: %lu\n" (tid self))
      (ret0, t0) ← sys (K.create count_id)
      if not (is_zero ret0) then fail "pthread_create fail: %s\n" else (do
        (ret1, t1) ← sys (K.create plus_id)
        if not (is_zero ret1) then fail "pthread_create fail: %s\n" else wait_threads t0 t1))

  module _ (J : JoinedIsGone K) where
    -- A thread that was joined makes `main` fail at its `pthread_detach`.
    detach_threads_fail :
        (t0 t1 : ℕ) (w w' : World K.State) (r : ℤ)
        → J.gone w.os t0 ≡ true
        → detach_threads t0 t1 w ≡ some (r, w')
        → r ≡ minus_one
    unfolding detach_threads fail
    detach_threads_fail t0 t1 w w' r gone run = ground (arith, J.detach_gone t0 w.os gone)

    wait_threads_fail :
        (t0 t1 : ℕ) (w w' : World K.State) (r : ℤ)
        → J.gone w.os t0 ≡ false
        → wait_threads t0 t1 w ≡ some (r, w')
        → r ≡ minus_one
    unfolding wait_threads join_thread
    wait_threads_fail t0 t1 w w' r live run =
        let s0 : K.State = (K.join t0 w.os).1 in
        let joined : is_zero (K.join t0 w.os).0 ≡ true = J.join_live t0 w.os live in
        let gone : J.gone (K.join t1 s0).1 t0 ≡ true =
          J.join_keeps t1 t0 s0 (J.join_gone t0 w.os joined) in
        let out : List Output =
          (w.out ++ (printf "trying to join %lu\n" (tid t0) ∷ []))
          ++ (printf "trying to join %lu\n" (tid t1) ∷ []) in
        let noted : List Output = out ++ (printf "pthread_join(%lu) fail\n" (tid t0) ∷ []) in
        ground (
          arith,
          joined,
          detach_threads_fail t0 t1 (record { os = (K.join t1 s0).1; out = out }) w' r gone,
          detach_threads_fail t0 t1 (record { os = (K.join t1 s0).1; out = noted }) w' r gone,
        )

    fails : (w w' : World K.State) (r : ℤ) → main w ≡ some (r, w') → r ≡ minus_one
    unfolding main fail
    fails w w' r run =
        let s : K.State = (K.mutex_init w.os).1 in
        let s0 : K.State = (K.create count_id s).1 in
        let t0 : ℕ = (K.create count_id s).0.1 in
        let s1 : K.State = (K.create plus_id s0).1 in
        let t1 : ℕ = (K.create plus_id s0).0.1 in
        let out : List Output = w.out ++ (printf "[MAIN] Thread id: %lu\n" (tid (K.self s)) ∷ []) in
        ground (
          arith,
          J.create_live count_id s,
          J.create_keeps plus_id t0 s0,
          wait_threads_fail t0 t1 (record { os = s1; out = out }) w' r,
        )

    returns : (w : World K.State) → (r : ℤ) × (w' : World K.State) × (main w ≡ some (r, w'))
    unfolding main wait_threads detach_threads fail join_thread
    returns w = elim (Option-cases (main w)) [
      | inl never ↦ absurd (ground arith)
      | inr ((r, w'), run) ↦ (r, w', run)
    ]

    -- Where both threads can be joined, `main` always returns, and never 0: the joined threads cannot
    -- be detached.
    pub main_fails : (w : World K.State) → (w' : World K.State) × (main w ≡ some (minus_one, w'))
    main_fails w =
        let (r, w', run) = returns w in (w', run ∙ ap (λ (x : ℤ). some (x, w')) (fails w w' r run))

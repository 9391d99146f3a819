-- ===== src/Semaphore/Sysv/Init.antt =====
-- `sysv_sem_init` and `sysv_sem_show` of semaphore_example/main.c.
use linux_programming_exampl.Prelude.{
  ℕ, zero, suc, ◌+◌, ◌-◌, ◌%◌, ◌≤◌, ◌<◌, ◌≡◌, refl, ap, ◌∙◌, ℤ, pos, int_eq, int_eq_refl, true,
  false, ◌&&◌, some, List, [], ◌∷◌, ◌++◌, append_assoc, arith, ◌==◌, ltb, leb, if◌then◌else◌,
}
use linux_programming_exampl.Program.{World, Output, int, printf, moved, said}
use linux_programming_exampl.Semaphore.Usage.{sem_num, sem_count, sem_binary}
use linux_programming_exampl.Semaphore.Sysv.{init_loop, show_loop, sysv_sem_init, sysv_sem_show}
use linux_programming_exampl.Semaphore.Sysv.Kernel.{SysvSemOs, IsSemSets, Values}

-- Semaphore `n`, counted from 0, is binary if it is the first, third or fifth.
abbrev pub initial : ℕ → ℕ
initial n = if n % 2 == 1 then sem_count else sem_binary

abbrev pub shown : Values → ℤ → ℕ → Output
shown f id i = printf "    - Semaphore[%d] = %d\n " (int (pos i) ∷ int (pos (f id i)) ∷ [])

abbrev pub line : Output
line = printf "=====================================\n" []

-- What the loop prints from semaphore `i` on.
abbrev pub table : Values → ℤ → ℕ → ℕ → List Output
table f id zero i = line ∷ []
table f id (suc k) i = shown f id i ∷ table f id k (i + 1)

module _ (K : SysvSemOs) (L : IsSemSets K) where
  init_loop_total :
      (k i : ℕ) (id : ℤ) (w : World K.State)
      → L.is_set w.os id ≡ true
      → 1 ≤ i
      → i + k ≡ 6
      → (s' : K.State) × (init_loop K k i id w ≡ some (pos 0, moved w s'))
        × ((id' : ℤ) → L.is_set s' id' ≡ L.is_set w.os id')
        × ((id' : ℤ) (n : ℕ)
            → L.value s' id' n ≡ (
                if int_eq id id' && leb i (n + 1) && ltb n 5
                then initial n
                else L.value w.os id' n))
  unfolding init_loop
  init_loop_total zero i id w set h e = (w.os, refl, λ id'. refl, λ id' n. ground arith)
  init_loop_total (suc k) i id w set h e =
      let v : ℕ = if i % 2 == 0 then sem_count else sem_binary in
      let s1 : K.State = (K.semctl_setval id (i - 1) v w.os).1 in
      let (ok, sets, values) = L.setval_ok id (i - 1) v w.os set (omega arith) in
      let (s', run, sets', values') =
        init_loop_total k (i + 1) id (moved w s1) (sets id ∙ set) (omega arith) (omega arith) in
      (
        s',
        ground (arith, ok, run),
        λ id'. sets' id' ∙ sets id',
        λ id' n. ground (arith, values' id' n, values id' n),
      )

  -- On an existing set `sysv_sem_init` returns 0 and prints nothing. The first, third and fifth
  -- semaphore of the set then have the value 1, the other two the value 5, and no other set has
  -- changed.
  pub sysv_sem_init_total :
      (id : ℤ) (w : World K.State)
      → L.is_set w.os id ≡ true
      → (s' : K.State) × (sysv_sem_init K id w ≡ some (pos 0, moved w s'))
        × ((id' : ℤ) → L.is_set s' id' ≡ L.is_set w.os id')
        × ((n : ℕ) → n < sem_num → L.value s' id n ≡ initial n)
        × ((id' : ℤ) (n : ℕ) → int_eq id id' ≡ false → L.value s' id' n ≡ L.value w.os id' n)
  unfolding sysv_sem_init
  sysv_sem_init_total id w set =
      let (s', run, sets, values) = init_loop_total 5 1 id w set (omega arith) refl in
      (
        s',
        run,
        sets,
        λ n h. ground (arith, values id n, int_eq_refl id),
        λ id' n ne. ground (arith, values id' n),
      )

  show_loop-suc :
      (k i : ℕ) (id : ℤ) (w : World K.State)
      → L.is_set w.os id ≡ true
      → i < sem_num
      → show_loop K (suc k) i id w ≡ show_loop K k (i + 1) id (said w (shown (L.value w.os) id i))
  unfolding show_loop
  show_loop-suc k i id w set h = ground (arith, L.getval_ok id i w.os set h)

  show_loop_total :
      (k i : ℕ) (id : ℤ) (w : World K.State)
      → L.is_set w.os id ≡ true
      → i + k ≡ sem_num
      → show_loop K k i id w
        ≡ some (pos 0, record { os = w.os; out = w.out ++ table (L.value w.os) id k i })
  show_loop_total zero i id w set e = unfold show_loop in refl
  show_loop_total (suc k) i id w set e =
      let w1 : World K.State = said w (shown (L.value w.os) id i) in
      show_loop-suc k i id w set (omega arith)
      ∙ show_loop_total k (i + 1) id w1 set (omega arith)
      ∙ ap (λ (o : List Output). some (pos 0, record { os = w.os; out = o }))
          (append_assoc w.out (shown (L.value w.os) id i ∷ []) (table (L.value w.os) id k (i + 1)))

  -- On an existing set `sysv_sem_show` prints the five values, in order, between its headings and a
  -- line, changes nothing and returns 0.
  pub sysv_sem_show_total :
      (id : ℤ) (w : World K.State)
      → L.is_set w.os id ≡ true
      → sysv_sem_show K id w
        ≡ some (
          pos 0,
          record {
            os = w.os;
            out =
                w.out
                ++ (line
                    ∷ printf "SHOW SYSV SEMPAHORE VALUES \n" []
                    ∷ table (L.value w.os) id sem_num 0);
          },
        )
  unfolding sysv_sem_show
  sysv_sem_show_total id w set =
      show_loop_total 5 0 id (said (said w line) (printf "SHOW SYSV SEMPAHORE VALUES \n" [])) set
        refl
      ∙ ap (λ (o : List Output). some (pos 0, record { os = w.os; out = o }))
          (append_assoc (w.out ++ (line ∷ [])) (printf "SHOW SYSV SEMPAHORE VALUES \n" [] ∷ [])
              (table (L.value w.os) id 5 0)
            ∙ append_assoc w.out (line ∷ [])
                (printf "SHOW SYSV SEMPAHORE VALUES \n" [] ∷ table (L.value w.os) id 5 0))

-- ===== src/Semaphore/Unnamed/Counter.antt =====
-- What `get` and `put` of semaphore_example/main.c do to the unnamed semaphore and to the counter.
use linux_programming_exampl.Prelude.{
  ℕ, zero, suc, ◌+◌, ◌≤◌, ◌<◌, ◌≡◌, refl, ap, ◌∙◌, ℤ, pos, is_minus_one, false, none, some, List,
  [], ◌∷◌, ◌++◌, arith,
}
use linux_programming_exampl.Program.{Prog, World, Output, int, printf, moved, pure, ◌>>◌}
use linux_programming_exampl.Semaphore.Unnamed.{
  posix_unnamed_get, posix_unnamed_put, posix_unnamed_filename,
}
use linux_programming_exampl.Semaphore.Unnamed.Kernel.{
  UnnamedOs, HoldsCounter, DataInfo, sizeof_data_info, plus_one,
}

-- A kernel on which the object can be opened and mapped.
pub record Available (K : UnnamedOs) : Type 1 where
  pub can_open : (s : K.State) → is_minus_one (K.shm_open posix_unnamed_filename false s).0 ≡ false
  pub can_map : (fd : ℤ) (s : K.State) → is_minus_one (K.mmap sizeof_data_info fd s).0 ≡ false

-- `n` runs of `get`, one after the other.
pub gets : (K : UnnamedOs) → ℕ → Prog K.State (Unit {0})
gets K zero = pure tt
gets K (suc n) = do posix_unnamed_get K; gets K n

-- The counter after `n` runs.
pub raised : ℕ → ℤ → ℤ
raised zero c = c
raised (suc n) c = raised n (plus_one c)

module _ (K : UnnamedOs) (C : HoldsCounter K) (A : Available K) where
  -- The state in which the object is open and mapped, and the pointer.
  abbrev reached : K.State → ℤ × K.State
  reached s =
      let (fd, s1) = K.shm_open posix_unnamed_filename false s in
      let (info, s2) = K.mmap sizeof_data_info fd s1 in (info, (K.close fd s2).1)

  reached_keeps :
      (s : K.State)
      → (C.value (reached s).1 ≡ C.value s)
        × (C.content (reached s).1 ≡ C.content s)
        × C.At (reached s).0 (reached s).1
  reached_keeps s =
      let (fd, s1) = K.shm_open posix_unnamed_filename false s in
      let (info, s2) = K.mmap sizeof_data_info fd s1 in
      let (v1, c1) = C.open_keeps posix_unnamed_filename s in
      let (v2, c2) = C.map_keeps fd s1 in
      let (v3, c3, at) = C.close_keeps fd s2 in
      (v3 ∙ v2 ∙ v1, c3 ∙ c2 ∙ c1, at info (C.mapped fd s1 (A.can_map fd s1)))

  -- `get` on a positive value takes one from it, counts up, and returns 0.
  get_down :
      (v : ℕ) (w : World K.State)
      → C.value w.os ≡ suc v
      → (w' : World K.State) × (posix_unnamed_get K w ≡ some (pos 0, w'))
        × (C.value w'.os ≡ v)
        × ((C.content w'.os).count ≡ plus_one (C.content w.os).count)
  unfolding posix_unnamed_get
  get_down v w e =
      let fd : ℤ = (K.shm_open posix_unnamed_filename false w.os).0 in
      let s1 : K.State = (K.shm_open posix_unnamed_filename false w.os).1 in
      let (info, s) = reached w.os in
      let (v0, c0, at0) = reached_keeps w.os in
      let (s2, run2, v2, c2, at2) = C.wait_down info v s at0 (v0 ∙ e) in
      let d2 : DataInfo = record (C.content s2) { pid = K.getpid s2 } in
      let (s3, run3, _, c3, v3, at3) = C.poke_at info d2 s2 at2 in
      let d3 : DataInfo = record (C.content s3) { count = plus_one (C.content s3).count } in
      let (s4, run4, _, c4, v4, at4) = C.poke_at info d3 s3 at3 in
      let (v5, c5) = C.unmap_keeps info s4 in
      let shown : List Output = w.out ++ (printf "PUT DATA IN MMAP \n" [] ∷ []) in
      let line : Output =
        printf "INPUT DATA pid: %d, count : %d\n"
          (int (C.content s4).pid ∷ int (C.content s4).count ∷ []) in
      (
        record { os = (K.munmap info sizeof_data_info s4).1; out = shown ++ (line ∷ []) },
        ground (
          arith,
          A.can_open w.os,
          A.can_map fd s1,
          run2,
          C.peek_at info s2 at2,
          run3,
          C.peek_at info s3 at3,
          run4,
          C.peek_at info s4 at4,
        ),
        v5 ∙ v4 ∙ v3 ∙ v2,
        ap (λ (d : DataInfo). d.count) c5
            ∙ c4
            ∙ ap plus_one (c3 ∙ c2 ∙ ap (λ (d : DataInfo). d.count) c0),
      )

  get_sleeps : (w : World K.State) → C.value w.os ≡ 0 → posix_unnamed_get K w ≡ none
  unfolding posix_unnamed_get
  get_sleeps w e =
      let fd : ℤ = (K.shm_open posix_unnamed_filename false w.os).0 in
      let s1 : K.State = (K.shm_open posix_unnamed_filename false w.os).1 in
      let (info, s) = reached w.os in
      let (v0, _, at) = reached_keeps w.os in
      ground (arith, A.can_open w.os, A.can_map fd s1, C.wait_sleeps info s at (v0 ∙ e))

  -- `put` raises the value by one, leaves the counter, and returns 0 without printing.
  put_up :
      (w : World K.State)
      → (w' : World K.State) × (posix_unnamed_put K w ≡ some (pos 0, w'))
        × (C.value w'.os ≡ C.value w.os + 1)
        × ((C.content w'.os).count ≡ (C.content w.os).count)
        × (w'.out ≡ w.out)
  unfolding posix_unnamed_put
  put_up w =
      let fd : ℤ = (K.shm_open posix_unnamed_filename false w.os).0 in
      let s1 : K.State = (K.shm_open posix_unnamed_filename false w.os).1 in
      let (info, s) = reached w.os in
      let (v0, c0, at) = reached_keeps w.os in
      let (ok, v1, c1) = C.post_up info s at in
      let s2 : K.State = (K.sem_post info s).1 in
      let (v2, c2) = C.unmap_keeps info s2 in
      (
        moved w (K.munmap info sizeof_data_info s2).1,
        ground (arith, A.can_open w.os, A.can_map fd s1, ok),
        omega (arith, v0, v1, v2),
        ap (λ (d : DataInfo). d.count) c2 ∙ c1 ∙ ap (λ (d : DataInfo). d.count) c0,
        refl,
      )

  gets_from :
      (n v : ℕ) (w : World K.State)
      → C.value w.os ≡ v
      → (n ≤ v
          → (w' : World K.State) × (gets K n w ≡ some (tt, w'))
            × (C.value w'.os + n ≡ v)
            × ((C.content w'.os).count ≡ raised n (C.content w.os).count))
        × (v < n → gets K n w ≡ none)
  unfolding gets raised
  gets_from zero v w e = (λ h. (w, refl, omega arith, refl), λ h. absurd (omega arith))
  gets_from (suc n) zero w e = (λ h. absurd (omega arith), λ h. ground (arith, get_sleeps w e))
  gets_from (suc n) (suc v) w e =
      let (w1, run, v1, c1) = get_down v w e in
      let (enough, few) = gets_from n v w1 v1 in
      (
        λ h.
            let (w', rest, v', c') = enough (omega arith) in
            (w', ground (arith, run, rest), omega arith, c' ∙ ap (raised n) c1),
        λ h. ground (arith, run, few (omega arith)),
      )

  -- When the object can be opened and mapped in each run, then on a semaphore of value v, n runs of
  -- `get` return if n is at most v: they take n from the value and count up n times. If n is greater,
  -- one of them waits for good.
  pub gets_total :
      (n : ℕ) (w : World K.State)
      → (n ≤ C.value w.os
          → (w' : World K.State) × (gets K n w ≡ some (tt, w'))
            × (C.value w'.os + n ≡ C.value w.os)
            × ((C.content w'.os).count ≡ raised n (C.content w.os).count))
        × (C.value w.os < n → gets K n w ≡ none)
  gets_total n w = gets_from n (C.value w.os) w refl

  -- A `put` lets one more `get` through: run behind it, `get` returns 0 and leaves the value that
  -- was there before both, and the counter is one higher.
  pub put-get :
      (w : World K.State)
      → (w1 w2 : World K.State) × (posix_unnamed_put K w ≡ some (pos 0, w1))
        × (posix_unnamed_get K w1 ≡ some (pos 0, w2))
        × (C.value w2.os ≡ C.value w.os)
        × ((C.content w2.os).count ≡ plus_one (C.content w.os).count)
  put-get w =
      let (w1, run1, v1, c1, _) = put_up w in
      let (w2, run2, v2, c2) = get_down (C.value w.os) w1 (omega arith) in
      (w1, w2, run1, run2, v2, c2 ∙ ap plus_one c1)

-- ===== src/Chat/Id/Table.antt =====
-- What `storeID` and `clearID` do to the table of rooms.
use linux_programming_exampl.Prelude.{
  ℕ, suc, ◌+◌, ◌≤◌, ◌≡◌, refl, sym, ap, ◌∙◌, ℤ, pos, true, false, none, some, List, [], ◌∷◌, ◌++◌,
  zero, length, take, drop, arith, take-append_left, drop-append_self, length-take, take_all,
}
use linux_programming_exampl.Program.{World, int, text, printf, moved, said, ◌>>=◌, ◌>>◌}
use linux_programming_exampl.CMemory.{c_str, memcpy}
use linux_programming_exampl.CMemory.Laws.{overwrite_zero}
use linux_programming_exampl.Chat.Kernel.{ChatOs}
use linux_programming_exampl.Chat.Id.{store_id}

-- The line of the file for a room.
abbrev pub line_of : ℕ → List ℕ → ℤ → linux_programming_exampl.Program.Output
line_of count buf pid = printf "%d %s %d\n" (int (pos count) ∷ text (c_str buf) ∷ int pid ∷ [])

memcpy_front : (id buf : List ℕ) → 8 ≤ length buf → memcpy id buf 8 ≡ take 8 buf ++ drop 8 id
unfolding memcpy
memcpy_front id buf h =
    let size : length (take 8 buf) ≡ 8 = omega (arith, length-take 8 buf) in
    overwrite_zero id (take 8 buf) ∙ ap (λ (k : ℕ). take 8 buf ++ drop k id) size

-- A second copy leaves nothing of the first one.
memcpy_again :
    (id a b : List ℕ) → 8 ≤ length a → 8 ≤ length b → memcpy (memcpy id a 8) b 8 ≡ memcpy id b 8
memcpy_again id a b h k =
    let size : length (take 8 a) ≡ 8 = omega (arith, length-take 8 a) in
    let rest : drop 8 (take 8 a ++ drop 8 id) ≡ drop 8 id =
      ap (λ (n : ℕ). drop n (take 8 a ++ drop 8 id)) (sym size)
      ∙ drop-append_self (take 8 a) (drop 8 id) in
    memcpy_front (memcpy id a 8) b k
    ∙ ap (λ (l : List ℕ). take 8 b ++ drop 8 l) (memcpy_front id a h)
    ∙ ap (λ (l : List ℕ). take 8 b ++ l) rest
    ∙ sym (memcpy_front id b k)

-- A part of the front of a list.
part_of_front :
    (m n k : ℕ) (b rest : List ℕ)
    → k ≡ m + n
    → k ≤ length b
    → take n (drop m (take k b ++ rest)) ≡ take n (drop m b)
part_of_front zero n k b rest e h =
    let size : length (take k b) ≡ k = omega (arith, length-take k b) in
    let same : take k b ≡ take n b = ap (λ (j : ℕ). take j b) (omega arith) in
    take-append_left n (take k b) rest (omega arith)
    ∙ ap (take n) same
    ∙ take_all n (take n b) (omega (arith, length-take n b))
part_of_front (suc m) n zero b rest e h = absurd (omega arith)
part_of_front (suc m) n (suc k) [] rest e h = absurd (omega arith)
part_of_front (suc m) n (suc k) (x ∷ b) rest e h =
    part_of_front m n k b rest (omega arith) (omega arith)

-- The field `pid` of a structure.
abbrev pub pid_field : List ℕ → List ℕ
pid_field m = take 4 (drop 4 m)

module _ (K : ChatOs) where
  pub store_id_run :
      (id buf : List ℕ) (count : ℕ) (w : World K.tcp.State) (s1 : K.tcp.State)
      → K.fopen_append w.os ≡ (true, s1)
      → store_id K id buf count w
        ≡ some
            (memcpy id buf 8, moved w (K.fclose (K.fprintf (line_of count buf (K.getpid s1)) s1)))
  unfolding store_id
  store_id_run id buf count w s1 opened = ground (arith, opened)

  -- Two rooms that are stored one after the other in the same structure, as `main` does, each with
  -- its line in the file: the structure holds the second one alone. Its field `pid` is no process
  -- but the last four characters of the identifier.
  pub store_id-store_id :
      (id a b : List ℕ) (n : ℕ) (w : World K.tcp.State) (s1 s2 : K.tcp.State)
      → 8 ≤ length a
      → 8 ≤ length b
      → K.fopen_append w.os ≡ (true, s1)
      → K.fopen_append (K.fclose (K.fprintf (line_of n a (K.getpid s1)) s1)) ≡ (true, s2)
      → (id1 : List ℕ) × (w1 : World K.tcp.State) × (id2 : List ℕ) × (w2 : World K.tcp.State)
        × (store_id K id a n w ≡ some (id1, w1))
        × (store_id K id1 b (suc n) w1 ≡ some (id2, w2))
        × (store_id K id b (suc n) w1 ≡ some (id2, w2))
        × (pid_field id2 ≡ pid_field b)
  store_id-store_id id a b n w s1 s2 h k opened again =
      let w1 : World K.tcp.State = moved w (K.fclose (K.fprintf (line_of n a (K.getpid s1)) s1)) in
      let w2 : World K.tcp.State =
        moved w (K.fclose (K.fprintf (line_of (suc n) b (K.getpid s2)) s2)) in
      (
        memcpy id a 8,
        w1,
        memcpy id b 8,
        w2,
        store_id_run id a n w s1 opened,
        store_id_run (memcpy id a 8) b (suc n) w1 s2 again
            ∙ ap (λ (l : List ℕ). some (l, w2)) (memcpy_again id a b h k),
        store_id_run id b (suc n) w1 s2 again,
        ap pid_field (memcpy_front id b k) ∙ part_of_front 4 4 8 b (drop 8 id) refl k,
      )

  -- When the file cannot be opened, `storeID` says so and then closes the null pointer: it does
  -- not return.
  store_id_faults :
      (id buf : List ℕ) (count : ℕ) (w : World K.tcp.State) (s1 : K.tcp.State)
      → K.fopen_append w.os ≡ (false, s1)
      → store_id K id buf count w ≡ none
  unfolding store_id
  store_id_faults id buf count w s1 failed = ground (arith, failed)

-- ===== src/Chat/Id/Create.antt =====
-- What `createID` stores.
use linux_programming_exampl.Prelude.{
  ℕ, zero, suc, ◌+◌, ◌%◌, ◌≤◌, ◌≡◌, refl, sym, ap, ◌∙◌, ◌⊎◌, inl, inr, false, ltb, le→ltb, tests,
  Bool-cases, some, List, [], ◌∷◌, ◌++◌, length, drop, arith, append_assoc, drop-drop, drop_all,
  length-append,
}
use linux_programming_exampl.Program.{World, text, printf, moved, said}
use linux_programming_exampl.CMemory.{c_str, overwrite}
use linux_programming_exampl.CMemory.Laws.{NoZero, c_str-append_zero}
use linux_programming_exampl.CMemory.Buffers.{overwrite_behind}
use linux_programming_exampl.Chat.Kernel.{ChatOs, success}
use linux_programming_exampl.Chat.Id.{id_char, create_loop, create_id}

-- The characters that occur: a digit, or a letter from A to P.
abbrev pub IsIdChar : ℕ → Type 0
IsIdChar c = ((b'0' ≤ c) × (c ≤ b'9')) ⊎ ((b'A' ≤ c) × (c ≤ b'P'))

abbrev pub AllIdChars : List ℕ → Type 0
AllIdChars [] = Unit
AllIdChars (c ∷ l) = IsIdChar c × AllIdChars l

-- The lower-case letters that the code means to use as well are out of reach.
id_char-IsIdChar : (r : ℕ) → IsIdChar (id_char (r % 26))
unfolding id_char
id_char-IsIdChar r = elim (Bool-cases (ltb (r % 26) 10)) [
  | inl digit ↦ rw digit (inl (omega arith, omega (tests)))
  | inr letter ↦
      let small : ltb 35 (r % 26) ≡ false = le→ltb 35 (r % 26) (omega arith) in
      rw (letter, small) (inr (omega tests, omega arith))
]

pub AllIdChars-NoZero : (l : List ℕ) → AllIdChars l → NoZero l
AllIdChars-NoZero [] h = tt
AllIdChars-NoZero (c ∷ l) h = (
  λ e. elim h.0 [ inl d ↦ absurd (omega arith) | inr l ↦ absurd (omega arith) ],
  AllIdChars-NoZero l h.1,
)

module _ (K : ChatOs) where
  -- The next characters that the generator of random numbers gives, and its state behind them.
  unfoldable pub draw : ℕ → K.tcp.State → List ℕ × K.tcp.State
  draw zero s = ([], s)
  draw (suc n) s = let rest = draw n (K.rand s).1 in (id_char ((K.rand s).0 % 26) ∷ rest.0, rest.1)

  pub draw-length : (n : ℕ) (s : K.tcp.State) → length (draw n s).0 ≡ n
  unfolding draw
  draw-length zero s = refl
  draw-length (suc n) s = ap suc (draw-length n (K.rand s).1)

  pub draw-AllIdChars : (n : ℕ) (s : K.tcp.State) → AllIdChars (draw n s).0
  unfolding draw
  draw-AllIdChars zero s = tt
  draw-AllIdChars (suc n) s = (id_char-IsIdChar (K.rand s).0, draw-AllIdChars n (K.rand s).1)

  -- The characters are stored one behind the other, and a zero byte behind the last one.
  create_loop_stores :
      (num i : ℕ) (done tail : List ℕ) (w : World K.tcp.State)
      → i ≡ length done
      → create_loop K (suc num) i (done ++ tail) w
        ≡ some (
          done ++ ((draw (suc num) w.os).0 ++ (0 ∷ drop (suc (suc num)) tail)),
          moved w (draw (suc num) w.os).1,
        )
  unfolding create_loop draw overwrite
  create_loop_stores zero i done tail w e =
      let c : ℕ = id_char ((K.rand w.os).0 % 26) in
      ap (λ (l : List ℕ). some (l, moved w (K.rand w.os).1))
        (overwrite_behind done tail (c ∷ 0 ∷ []) i e)
  create_loop_stores (suc num) i done tail w e =
      let s1 : K.tcp.State = (K.rand w.os).1 in
      let c : ℕ = id_char ((K.rand w.os).0 % 26) in
      let l : List ℕ = (draw (suc num) s1).0 in
      let tail' : List ℕ = 0 ∷ drop 2 tail in
      let stored : overwrite (done ++ tail) i (c ∷ 0 ∷ []) ≡ (done ++ (c ∷ [])) ++ tail' =
        overwrite_behind done tail (c ∷ 0 ∷ []) i e ∙ sym (append_assoc done (c ∷ []) tail') in
      let kept : drop (suc num) (drop 2 tail) ≡ drop (suc (suc (suc num))) tail =
        drop-drop 2 (suc num) (suc (suc (suc num))) tail (omega arith) in
      ap (λ (b : List ℕ). create_loop K (suc num) (i + 1) b (moved w s1)) stored
      ∙ create_loop_stores num (i + 1) (done ++ (c ∷ [])) tail' (moved w s1)
          (omega (arith, length-append done (c ∷ [])))
      ∙ ap (λ (b : List ℕ). some (b, moved w (draw (suc num) s1).1))
          (append_assoc done (c ∷ []) (l ++ (0 ∷ drop (suc num) (drop 2 tail)))
            ∙ ap (λ (r : List ℕ). done ++ (c ∷ (l ++ (0 ∷ r)))) kept)

  -- `createID` on an array with room for the characters and the zero byte, or for one byte less.
  pub create_id_draws :
      (num : ℕ) (buf : List ℕ) (w : World K.tcp.State)
      → length buf ≤ suc (suc num)
      → let drawn : List ℕ × K.tcp.State = draw (suc num) (K.srand w.os) in
        create_id K buf (suc num) w
        ≡ some (
          (success, drawn.0 ++ (0 ∷ [])),
          said
              (moved w drawn.1)
              (printf "[SERVER] - [createID] : randomID - %s\n" (text drawn.0 ∷ [])),
        )
  unfolding create_id
  create_id_draws num buf w len =
      let s1 : K.tcp.State = K.srand w.os in
      let ids : List ℕ = (draw (suc num) s1).0 in
      let s2 : K.tcp.State = (draw (suc num) s1).1 in
      let run : create_loop K (suc num) 0 buf (moved w s1) ≡ some (ids ++ (0 ∷ []), moved w s2) =
        create_loop_stores num 0 [] buf (moved w s1) refl
        ∙ ap (λ (r : List ℕ). some (ids ++ (0 ∷ r), moved w s2))
            (drop_all (suc (suc num)) buf (omega arith)) in
      let ended : c_str (ids ++ (0 ∷ [])) ≡ ids =
        c_str-append_zero ids [] (AllIdChars-NoZero ids (draw-AllIdChars (suc num) s1)) in
      ground (arith, run, ended)

  -- For an array of exactly the number of characters that it is called for, at least one,
  -- `createID` succeeds and stores that many characters, each of them a digit or one of the letters
  -- from A to P, and a zero byte behind the end of the array.
  pub create_id_overflows :
      (num : ℕ) (buf : List ℕ) (w : World K.tcp.State)
      → length buf ≡ suc num
      → (ids : List ℕ) × (w' : World K.tcp.State) × (create_id K buf (suc num) w
          ≡ some ((success, ids ++ (0 ∷ [])), w'))
        × (length ids ≡ suc num)
        × AllIdChars ids
        × (length (ids ++ (0 ∷ [])) ≡ length buf + 1)
  create_id_overflows num buf w len =
      let s1 : K.tcp.State = K.srand w.os in
      let size : length (draw (suc num) s1).0 ≡ suc num = draw-length (suc num) s1 in
      (
        (draw (suc num) s1).0,
        said (moved w (draw (suc num) s1).1)
            (printf "[SERVER] - [createID] : randomID - %s\n" (text (draw (suc num) s1).0 ∷ [])),
        create_id_draws num buf w (omega arith),
        size,
        draw-AllIdChars (suc num) s1,
        omega (arith, length-append (draw (suc num) s1).0 (0 ∷ [])),
      )

-- srand(3) and rand(3): what `rand` gives is settled by the state `gen` of the generator, which
-- `srand(time(NULL))` sets to a value that depends on nothing but the second that the clock shows.
pub record IsGenerator (K : ChatOs) : Type 1 where
  pub Gen : Type 0
  pub gen : K.tcp.State → Gen
  pub clock : K.tcp.State → ℕ
  pub seeded : (s t : K.tcp.State) → clock s ≡ clock t → gen (K.srand s) ≡ gen (K.srand t)
  pub settled :
      (s t : K.tcp.State)
      → gen s ≡ gen t
      → ((K.rand s).0 ≡ (K.rand t).0) × (gen (K.rand s).1 ≡ gen (K.rand t).1)

module _ (K : ChatOs) (G : IsGenerator K) where
  draw_settled : (n : ℕ) (s t : K.tcp.State) → G.gen s ≡ G.gen t → (draw K n s).0 ≡ (draw K n t).0
  unfolding draw
  draw_settled zero s t e = refl
  draw_settled (suc n) s t e =
      let (same, next) = G.settled s t e in
      ap (λ (r : ℕ). id_char (r % 26) ∷ (draw K n (K.rand s).1).0) same
      ∙ ap (λ (l : List ℕ). id_char ((K.rand t).0 % 26) ∷ l)
          (draw_settled n (K.rand s).1 (K.rand t).1 next)

  -- Two calls of `createID` within the same second store the same identifier, in whatever states of
  -- the machine they are made: the identifiers of two rooms are not unique.
  pub create_id_repeats :
      (num : ℕ) (buf buf' : List ℕ) (w v : World K.tcp.State)
      → length buf ≤ suc (suc num)
      → length buf' ≤ suc (suc num)
      → G.clock w.os ≡ G.clock v.os
      → (id : List ℕ) × (w' : World K.tcp.State) × (v' : World K.tcp.State) × (create_id K buf
            (suc num)
            w
          ≡ some ((success, id), w'))
        × (create_id K buf' (suc num) v ≡ some ((success, id), v'))
  create_id_repeats num buf buf' w v len len' e =
      let s1 : K.tcp.State = K.srand w.os in
      let t1 : K.tcp.State = K.srand v.os in
      let same : (draw K (suc num) s1).0 ≡ (draw K (suc num) t1).0 =
        draw_settled (suc num) s1 t1 (G.seeded w.os v.os e) in
      let last : World K.tcp.State =
        said (moved v (draw K (suc num) t1).1)
          (printf "[SERVER] - [createID] : randomID - %s\n" (text (draw K (suc num) t1).0 ∷ [])) in
      (
        (draw K (suc num) s1).0 ++ (0 ∷ []),
        said (moved w (draw K (suc num) s1).1)
            (printf "[SERVER] - [createID] : randomID - %s\n" (text (draw K (suc num) s1).0 ∷ [])),
        last,
        create_id_draws K num buf w len,
        create_id_draws K num buf' v len'
            ∙ ap (λ (l : List ℕ). some ((success, l ++ (0 ∷ [])), last)) (sym same),
      )

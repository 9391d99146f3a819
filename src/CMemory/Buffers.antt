-- ===== src/CMemory/Buffers.antt =====
-- Strings in buffers: what is at the front of a buffer behind a write, and the strings that it holds.
use linux_programming_exampl.Prelude.{
  ℕ, zero, suc, ◌+◌, ◌≤◌, ◌≡◌, refl, sym, ap, ◌∙◌, inl, inr, List, [], ◌∷◌, ◌++◌, append_assoc,
  arith, ◌==◌, Bool-cases, length, take, drop, length-append, length-take, length-drop, take_all,
  take-append_self, take-append_left, drop-append_self, drop-append_left, take-append-drop,
  drop-drop,
}
use linux_programming_exampl.CMemory.{c_str, strlen, overwrite}
use linux_programming_exampl.CMemory.Laws.{overwrite_zero, NoZero, c_str-append_zero}

-- The string lies inside the object, at its start.
pub strlen-length : (m : List ℕ) → strlen m ≤ length m
unfolding strlen c_str
strlen-length [] = omega arith
strlen-length (b ∷ bs) = elim (Bool-cases (b == 0)) [
  | inl z ↦ rw z (omega arith)
  | inr n ↦ rw n (omega (arith, strlen-length bs))
]

pub take-strlen : (m : List ℕ) → take (strlen m) m ≡ c_str m
unfolding strlen c_str
take-strlen [] = refl
take-strlen (b ∷ bs) = elim (Bool-cases (b == 0)) [
  | inl z ↦ rw z refl
  | inr n ↦ rw n (ap (λ (l : List ℕ). b ∷ l) (take-strlen bs))
]

-- The front of a buffer behind a write that goes on from there.
pub take-overwrite_more :
    (buf : List ℕ) (n : ℕ) (bytes : List ℕ)
    → n ≤ length buf
    → take (n + length bytes) (overwrite buf n bytes) ≡ take n buf ++ bytes
unfolding overwrite
take-overwrite_more buf n bytes h =
    let front : List ℕ = take n buf ++ bytes in
    let behind : List ℕ = drop (n + length bytes) buf in
    let size : n + length bytes ≡ length front =
      omega (arith, length-append (take n buf) bytes, length-take n buf) in
    ap (take (n + length bytes)) (sym (append_assoc (take n buf) bytes behind))
    ∙ ap (λ k. take k (front ++ behind)) size
    ∙ take-append_self front behind

-- A zero byte ends the string there.
pub c_str-overwrite_zero :
    (buf : List ℕ) (n : ℕ) → NoZero (take n buf) → c_str (overwrite buf n (0 ∷ [])) ≡ take n buf
unfolding overwrite
c_str-overwrite_zero buf n h = c_str-append_zero (take n buf) (drop (n + 1) buf) h

pub NoZero-append : (m l : List ℕ) → NoZero m → NoZero l → NoZero (m ++ l)
NoZero-append [] l h k = k
NoZero-append (x ∷ m) l h k = (h.0, NoZero-append m l h.1 k)

-- A write keeps what is in front of it.
pub take-overwrite_before :
    (buf : List ℕ) (n : ℕ) (bytes : List ℕ)
    → n ≤ length buf
    → take n (overwrite buf n bytes) ≡ take n buf
unfolding overwrite
take-overwrite_before buf n bytes h =
    let size : length (take n buf) ≡ n = omega (arith, length-take n buf) in
    take-append_left n (take n buf) (bytes ++ drop (n + length bytes) buf) (omega arith)
    ∙ take_all n (take n buf) (omega arith)

-- A write behind a prefix.
pub overwrite_behind :
    (done tail bytes : List ℕ) (n : ℕ)
    → n ≡ length done
    → overwrite (done ++ tail) n bytes ≡ done ++ (bytes ++ drop (length bytes) tail)
unfolding overwrite
overwrite_behind done tail bytes n e =
    rw
      (
        e,
        take-append_self done tail,
        sym (
            drop-drop (length done) (length bytes) (length done + length bytes) (done ++ tail)
              refl),
        drop-append_self done tail,
      )
      refl

-- A shorter write over a longer one keeps the end of the longer one.
pub overwrite-overwrite :
    (buf d e : List ℕ)
    → length e ≤ length d
    → overwrite (overwrite buf 0 d) 0 e ≡ (e ++ drop (length e) d) ++ drop (length d) buf
overwrite-overwrite buf d e h =
    overwrite_zero (overwrite buf 0 d) e
    ∙ ap (λ (l : List ℕ). e ++ drop (length e) l) (overwrite_zero buf d)
    ∙ ap (λ (l : List ℕ). e ++ l) (drop-append_left (length e) d (drop (length d) buf) h)
    ∙ sym (append_assoc e (drop (length e) d) (drop (length d) buf))

pub take-overwrite-overwrite :
    (buf d e : List ℕ)
    → length e ≤ length d
    → take (length d) (overwrite (overwrite buf 0 d) 0 e) ≡ e ++ drop (length e) d
take-overwrite-overwrite buf d e h =
    let front : List ℕ = e ++ drop (length e) d in
    let size : length d ≡ length front =
      omega (arith, length-append e (drop (length e) d), length-drop (length e) d) in
    ap (take (length d)) (overwrite-overwrite buf d e h)
    ∙ ap (λ (k : ℕ). take k (front ++ drop (length d) buf)) size
    ∙ take-append_self front (drop (length d) buf)

-- Storing the string that is there changes nothing.
pub overwrite-c_str : (buf : List ℕ) → overwrite buf 0 (c_str buf) ≡ buf
unfolding strlen
overwrite-c_str buf =
    overwrite_zero buf (c_str buf)
    ∙ ap (λ (l : List ℕ). l ++ drop (length (c_str buf)) buf) (sym (take-strlen buf))
    ∙ take-append-drop (length (c_str buf)) buf

NoZero-drop : (n : ℕ) (m : List ℕ) → NoZero m → NoZero (drop n m)
NoZero-drop zero m h = h
NoZero-drop (suc n) [] h = tt
NoZero-drop (suc n) (b ∷ m) h = NoZero-drop n m h.1

-- The string behind a shorter write over a longer string.
pub c_str-overwrite_older :
    (buf older line r : List ℕ)
    → buf ≡ older ++ (0 ∷ r)
    → NoZero older
    → NoZero line
    → length line ≤ length older
    → c_str (overwrite buf 0 line) ≡ line ++ drop (length line) older
c_str-overwrite_older buf older line r e h k less =
    ap c_str (
      overwrite_zero buf line
      ∙ ap (λ (l : List ℕ). line ++ drop (length line) l) e
      ∙ ap (λ (l : List ℕ). line ++ l) (drop-append_left (length line) older (0 ∷ r) less)
      ∙ sym (append_assoc line (drop (length line) older) (0 ∷ r)))
    ∙ c_str-append_zero (line ++ drop (length line) older) r
        (NoZero-append line (drop (length line) older) k (NoZero-drop (length line) older h))

-- A string that is stored with its zero byte.
pub c_str-overwrite_string :
    (buf s : List ℕ) → NoZero s → c_str (overwrite buf 0 (s ++ (0 ∷ []))) ≡ s
c_str-overwrite_string buf s h =
    ap c_str (
      overwrite_zero buf (s ++ (0 ∷ []))
      ∙ append_assoc s (0 ∷ []) (drop (length (s ++ (0 ∷ []))) buf))
    ∙ c_str-append_zero s (drop (length (s ++ (0 ∷ []))) buf) h

-- A string that comes with its zero byte and more.
pub c_str-overwrite_more :
    (buf src s r : List ℕ) → src ≡ s ++ (0 ∷ r) → NoZero s → c_str (overwrite buf 0 src) ≡ s
c_str-overwrite_more buf src s r e h =
    let behind : List ℕ = drop (length src) buf in
    ap c_str
      (overwrite_zero buf src ∙ ap (λ (l : List ℕ). l ++ behind) e ∙ append_assoc s (0 ∷ r) behind)
    ∙ c_str-append_zero s (r ++ behind) h

-- ===== src/CMemory/Laws.antt =====
-- What the functions of CMemory do to lengths and contents.
use linux_programming_exampl.Prelude.{
  ℕ, zero, suc, ◌-◌, ◌+◌, ◌≤◌, ◌<◌, ◌≡◌, refl, sym, ap, ◌∙◌, ◌≢◌, inl, inr, true, List, [], ◌∷◌,
  ◌++◌, append-nil, append_assoc, arith, ◌==◌, Bool-cases, length, take, drop, replicate,
  length-append, length-take, length-drop, length-replicate, take_all, take-append_self,
  drop-append_self, drop_all, drop-drop,
}
use linux_programming_exampl.CMemory.{c_str, bytes_eq, overwrite, memset, memcpy, strcpy, strncpy}

pub bytes_eq→eq : (a b : List ℕ) → bytes_eq a b ≡ true → a ≡ b
unfolding bytes_eq
bytes_eq→eq [] [] h = refl
bytes_eq→eq [] (b ∷ bs) h = cc
bytes_eq→eq (a ∷ r) [] h = cc
bytes_eq→eq (a ∷ r) (b ∷ bs) h = ground (arith, bytes_eq→eq r bs)

pub bytes_eq_refl : (a : List ℕ) → bytes_eq a a ≡ true
unfolding bytes_eq
bytes_eq_refl [] = refl
bytes_eq_refl (a ∷ r) = ground (arith, bytes_eq_refl r)

-- A write inside the buffer keeps the buffer's length.
pub length-overwrite :
    (buf : List ℕ) (off : ℕ) (bytes : List ℕ)
    → off + length bytes ≤ length buf
    → length (overwrite buf off bytes) ≡ length buf
unfolding overwrite
length-overwrite buf off bytes h = omega (
  arith,
  length-append (take off buf) (bytes ++ drop (off + length bytes) buf),
  length-append bytes (drop (off + length bytes) buf),
  length-take off buf,
  length-drop (off + length bytes) buf,
)

-- A write at the start of a buffer, for all of it.
pub overwrite_zero : (buf bytes : List ℕ) → overwrite buf 0 bytes ≡ bytes ++ drop (length bytes) buf
unfolding overwrite
overwrite_zero buf bytes = ap (λ k. bytes ++ drop k buf) (omega arith)

-- A write that continues a prefix extends that prefix.
pub overwrite-append :
    (done bytes buf : List ℕ) (n m : ℕ)
    → n ≡ length done
    → m ≡ n + length bytes
    → overwrite (done ++ drop n buf) n bytes ≡ (done ++ bytes) ++ drop m buf
unfolding overwrite
overwrite-append done bytes buf n m e f = rw (
  e,
  take-append_self done (drop (length done) buf),
  sym (
      drop-drop (length done) (length bytes) (length done + length bytes)
        (done ++ drop (length done) buf) refl),
  drop-append_self done (drop (length done) buf),
  drop-drop (length done) (length bytes) m buf (omega arith),
  append_assoc done bytes (drop m buf),
)

-- A string of the source: no byte of it is zero.
abbrev pub NoZero : List ℕ → Type 0
NoZero [] = Unit
NoZero (b ∷ bs) = (b ≢ 0) × NoZero bs

pub c_str-NoZero : (m : List ℕ) → NoZero (c_str m)
unfolding c_str
c_str-NoZero [] = tt
c_str-NoZero (b ∷ bs) = elim (Bool-cases (b == 0)) [
  | inl z ↦ rw z tt
  | inr n ↦ rw n (ground arith, c_str-NoZero bs)
]

-- The string in a buffer ends at the zero byte.
pub c_str-append_zero : (s r : List ℕ) → NoZero s → c_str (s ++ (0 ∷ r)) ≡ s
unfolding c_str
c_str-append_zero [] r h = refl
c_str-append_zero (b ∷ bs) r h = ground (arith, c_str-append_zero bs r h.1)

-- `strcpy` stores the string, if there is room for it and its zero byte.
pub c_str-strcpy : (dst src : List ℕ) → c_str (strcpy dst src) ≡ c_str src
unfolding strcpy overwrite
c_str-strcpy dst src =
    rw (append_assoc (c_str src) (0 ∷ [])) (c_str-append_zero (c_str src) _ (c_str-NoZero src))

pub length-strcpy :
    (dst src : List ℕ) → length (c_str src) < length dst → length (strcpy dst src) ≡ length dst
unfolding strcpy
length-strcpy dst src h =
    length-overwrite dst 0 (c_str src ++ (0 ∷ []))
      (omega (arith, length-append (c_str src) (0 ∷ [])))

pub length-memset : (dst : List ℕ) (v n : ℕ) → n ≤ length dst → length (memset dst v n) ≡ length dst
unfolding memset
length-memset dst v n h =
    length-overwrite dst 0 (replicate n v) (omega (arith, length-replicate n v))

-- Clearing a whole buffer.
pub memset_all : (dst : List ℕ) (v n : ℕ) → n ≡ length dst → memset dst v n ≡ replicate n v
unfolding memset
memset_all dst v n h =
    overwrite_zero dst (replicate n v)
    ∙ rw (drop_all (length (replicate n v)) dst (omega (arith, length-replicate n v)))
        (append-nil _)

-- Copying a whole object.
pub memcpy_all :
    (dst src : List ℕ) (n : ℕ) → n ≡ length dst → n ≡ length src → memcpy dst src n ≡ src
unfolding memcpy
memcpy_all dst src n h k =
    overwrite_zero dst (take n src)
    ∙ rw (take_all n src (omega arith), drop_all (length src) dst (omega arith)) (append-nil _)

-- A buffer that was cleared ends the string that is stored in it.
pub c_str-append_zeros : (s : List ℕ) (n : ℕ) → c_str (s ++ replicate n 0) ≡ c_str s
unfolding c_str
c_str-append_zeros [] zero = refl
c_str-append_zeros [] (suc n) = refl
c_str-append_zeros (b ∷ bs) n = ground (arith, c_str-append_zeros bs n)

pub c_str-take : (n : ℕ) (m : List ℕ) → c_str (take n m) ≡ take n (c_str m)
unfolding c_str
c_str-take zero m = refl
c_str-take (suc n) [] = refl
c_str-take (suc n) (b ∷ bs) = ground (arith, c_str-take n bs)

pub drop-replicate : (k n : ℕ) (v : ℕ) → drop k (replicate n v) ≡ replicate (n - k) v
drop-replicate zero n v = let e : n ≡ n - 0 = omega arith in ap (λ j. replicate j v) e
drop-replicate (suc k) zero v = let e : 0 ≡ 0 - suc k = omega arith in ap (λ j. replicate j v) e
drop-replicate (suc k) (suc n) v =
    let e : n - k ≡ suc n - suc k = omega arith in drop-replicate k n v ∙ ap (λ j. replicate j v) e

pub c_str-idempotent : (m : List ℕ) → c_str (c_str m) ≡ c_str m
unfolding c_str
c_str-idempotent [] = refl
c_str-idempotent (b ∷ bs) = ground (arith, c_str-idempotent bs)

-- `strncpy` over a whole array: the string in it is the beginning of the source. If the source fills
-- the array, there is no zero byte.
length-strncpy_source : (src : List ℕ) (n : ℕ) → length (take n (c_str src ++ replicate n 0)) ≡ n
length-strncpy_source src n = omega (
  arith,
  length-take n (c_str src ++ replicate n 0),
  length-append (c_str src) (replicate n 0),
  length-replicate {A = ℕ} n 0,
)

pub length-strncpy :
    (dst src : List ℕ) (n : ℕ) → n ≤ length dst → length (strncpy dst src n) ≡ length dst
unfolding strncpy
length-strncpy dst src n h =
    length-overwrite dst 0 (take n (c_str src ++ replicate n 0))
      (omega (arith, length-strncpy_source src n))

pub c_str-strncpy :
    (dst src : List ℕ) (n : ℕ) → n ≡ length dst → c_str (strncpy dst src n) ≡ take n (c_str src)
unfolding strncpy
c_str-strncpy dst src n h =
    let bytes : List ℕ = take n (c_str src ++ replicate n 0) in
    let rest : drop (length bytes) dst ≡ [] =
      drop_all (length bytes) dst (omega (arith, length-strncpy_source src n)) in
    let whole : strncpy dst src n ≡ bytes =
      overwrite_zero dst bytes ∙ ap (λ (l : List ℕ). bytes ++ l) rest ∙ append-nil bytes in
    ap c_str whole
    ∙ c_str-take n (c_str src ++ replicate n 0)
    ∙ ap (take n) (c_str-append_zeros (c_str src) n ∙ c_str-idempotent src)

-- What was stored at the start of a buffer is read back.
pub take-overwrite : (buf bytes : List ℕ) → take (length bytes) (overwrite buf 0 bytes) ≡ bytes
take-overwrite buf bytes =
    ap (take (length bytes)) (overwrite_zero buf bytes)
    ∙ take-append_self bytes (drop (length bytes) buf)

-- ===== src/StructFile/Layout.antt =====
-- `MMAP_TEST_STRUCT` of mmap_example/main.c, and its bytes in memory on a 64-bit Linux.
use linux_programming_exampl.Prelude.{
  ℕ, ◌+◌, ◌-◌, ◌*◌, ◌/◌, ◌%◌, ◌<◌, ◌≡◌, refl, sym, ap, ◌∙◌, ℤ, pos, negsuc, List, [], ◌∷◌, ◌++◌,
  arith, ltb, if◌then◌else◌, length, take, drop, get_or, take-append_self, drop-append_self,
  drop-drop, append_assoc, length-append,
}

abbrev pub sizeof_name : ℕ
sizeof_name = 20

abbrev pub sizeof_hobby : ℕ
sizeof_hobby = 30

-- With two bytes of padding at the end.
abbrev pub sizeof_struct : ℕ
sizeof_struct = sizeof_name + 4 + sizeof_hobby + 2

-- `age` is the 32-bit word of the `int`.
pub record MmapTestStruct : Type 0 where
  pub name : List ℕ
  pub age : ℕ
  pub hobby : List ℕ

-- The number that a 32-bit word stands for.
abbrev pub signed : ℕ → ℤ
signed a = if ltb a 2147483648 then pos a else negsuc (4294967295 - a)

-- The arrays have their sizes, and `age` is a word.
abbrev pub IsStruct : MmapTestStruct → Type 0
IsStruct d = (length d.name ≡ sizeof_name) × (d.age < 4294967296) × (length d.hobby ≡ sizeof_hobby)

abbrev pub word_bytes : ℕ → List ℕ
word_bytes a = a % 256 ∷ (a / 256) % 256 ∷ (a / 65536) % 256 ∷ (a / 16777216) % 256 ∷ []

abbrev pub bytes_word : List ℕ → ℕ
bytes_word l = get_or l 0 0 + 256 * get_or l 1 0 + 65536 * get_or l 2 0 + 16777216 * get_or l 3 0

-- The padding is 0 here; nothing reads it.
pub encode : MmapTestStruct → List ℕ
encode d = d.name ++ (word_bytes d.age ++ (d.hobby ++ (0 ∷ 0 ∷ [])))

pub decode : List ℕ → MmapTestStruct
decode l = record {
  name = take sizeof_name l;
  age = bytes_word (take 4 (drop sizeof_name l));
  hobby = take sizeof_hobby (drop (sizeof_name + 4) l);
}

word_roundtrip : (a : ℕ) → a < 4294967296 → bytes_word (word_bytes a) ≡ a
word_roundtrip a h = omega arith

take_exact : (n : ℕ) (xs ys : List ℕ) → length xs ≡ n → take n (xs ++ ys) ≡ xs
take_exact n xs ys e = ap (λ k. take k (xs ++ ys)) (sym e) ∙ take-append_self xs ys

drop_exact : (n : ℕ) (xs ys : List ℕ) → length xs ≡ n → drop n (xs ++ ys) ≡ ys
drop_exact n xs ys e = ap (λ k. drop k (xs ++ ys)) (sym e) ∙ drop-append_self xs ys

abbrev struct : List ℕ → ℕ → List ℕ → MmapTestStruct
struct n a h = record { name = n; age = a; hobby = h }

-- A structure is read back from its bytes, whatever follows them.
pub decode-encode :
    (d : MmapTestStruct) (rest : List ℕ) → IsStruct d → decode (encode d ++ rest) ≡ d
unfolding encode decode
decode-encode d rest (n, a, h) =
    let whole : List ℕ = encode d ++ rest in
    let behind : List ℕ = (d.hobby ++ (0 ∷ 0 ∷ [])) ++ rest in
    let shape : whole ≡ d.name ++ (word_bytes d.age ++ behind) =
      append_assoc d.name (word_bytes d.age ++ (d.hobby ++ (0 ∷ 0 ∷ []))) rest in
    let name : take sizeof_name whole ≡ d.name =
      ap (take sizeof_name) shape ∙ take_exact sizeof_name d.name (word_bytes d.age ++ behind) n in
    let tail : drop sizeof_name whole ≡ word_bytes d.age ++ behind =
      ap (drop sizeof_name) shape ∙ drop_exact sizeof_name d.name (word_bytes d.age ++ behind) n in
    let age : bytes_word (take 4 (drop sizeof_name whole)) ≡ d.age =
      ap (λ (l : List ℕ). bytes_word (take 4 l)) tail ∙ word_roundtrip d.age a in
    let hobby : take sizeof_hobby (drop (sizeof_name + 4) whole) ≡ d.hobby =
      ap (take sizeof_hobby)
        (sym (drop-drop sizeof_name 4 (sizeof_name + 4) whole refl) ∙ ap (drop 4) tail)
      ∙ ap (take sizeof_hobby) (append_assoc d.hobby (0 ∷ 0 ∷ []) rest)
      ∙ take_exact sizeof_hobby d.hobby ((0 ∷ 0 ∷ []) ++ rest) h in
    ap
      (λ (x : List ℕ).
        struct x (bytes_word (take 4 (drop sizeof_name whole)))
          (take sizeof_hobby (drop (sizeof_name + 4) whole)))
      name
    ∙ ap (λ (x : ℕ). struct d.name x (take sizeof_hobby (drop (sizeof_name + 4) whole))) age
    ∙ ap (struct d.name d.age) hobby

pub length-encode : (d : MmapTestStruct) → IsStruct d → length (encode d) ≡ sizeof_struct
unfolding encode
length-encode d (n, a, h) = omega (
  arith,
  length-append d.name (word_bytes d.age ++ (d.hobby ++ (0 ∷ 0 ∷ []))),
  length-append d.hobby (0 ∷ 0 ∷ []),
)

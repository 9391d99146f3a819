-- ===== src/CMemory.antt =====
-- The C library's functions on memory that the programs call (string.h, and snprintf of stdio.h).
-- A pointer is the list of bytes from its address to the end of the object that it points into,
-- so a write that is out of bounds makes the list longer.
pub mod Laws
pub mod Buffers
use Prim.Native.Char.{code}
use Prim.Native.String.{String}
use linux_programming_exampl.Prelude.{
  ℕ, zero, suc, ◌+◌, ◌-◌, ◌*◌, ℤ, pos, negsuc, Bool, true, false, ◌&&◌, ◌||◌, leb, List, [], ◌∷◌,
  ◌++◌, ◌==◌, if◌then◌else◌, length, take, drop, replicate,
}

-- The bytes of a text of the source, without the final zero byte.
abbrev pub codes : String → List ℕ
codes String.[] = []
codes (String.◌∷◌ c s) = code c ∷ codes s

-- The string that a pointer stands for: the bytes before the first zero byte.
unfoldable pub c_str : List ℕ → List ℕ
c_str [] = []
c_str (b ∷ bs) = if b == 0 then [] else b ∷ c_str bs

unfoldable pub bytes_eq : List ℕ → List ℕ → Bool
bytes_eq [] [] = true
bytes_eq (a ∷ r) (b ∷ bs) = a == b && bytes_eq r bs
bytes_eq _ _ = false

-- `strcmp(a, b) == 0`
unfoldable pub strcmp_eq : List ℕ → List ℕ → Bool
unfolding c_str bytes_eq
strcmp_eq a b = bytes_eq (c_str a) (c_str b)

-- `memcmp(a, b, n) == 0`
unfoldable pub memcmp_eq : List ℕ → List ℕ → ℕ → Bool
unfolding bytes_eq
memcmp_eq a b n = bytes_eq (take n a) (take n b)

unfoldable pub strlen : List ℕ → ℕ
unfolding c_str
strlen s = length (c_str s)

-- Stores `bytes` from offset `off` on.
unfoldable pub overwrite : List ℕ → ℕ → List ℕ → List ℕ
overwrite buf off bytes = take off buf ++ (bytes ++ drop (off + length bytes) buf)

unfoldable pub memset : List ℕ → ℕ → ℕ → List ℕ
unfolding overwrite
memset dst v n = overwrite dst 0 (replicate n v)

unfoldable pub memcpy : List ℕ → List ℕ → ℕ → List ℕ
unfolding overwrite
memcpy dst src n = overwrite dst 0 (take n src)

unfoldable pub strcpy : List ℕ → List ℕ → List ℕ
unfolding overwrite c_str
strcpy dst src = overwrite dst 0 (c_str src ++ (0 ∷ []))

-- At most `n` bytes of the string, and zero bytes up to `n`.
unfoldable pub strncpy : List ℕ → List ℕ → ℕ → List ℕ
unfolding overwrite c_str
strncpy dst src n = overwrite dst 0 (take n (c_str src ++ replicate n 0))

-- `snprintf(dst, n, ...)` where the directives give `src`: at most `n - 1` bytes and a zero byte.
unfoldable pub snprintf : List ℕ → ℕ → List ℕ → List ℕ
unfolding overwrite
snprintf dst zero src = dst
snprintf dst (suc n) src = overwrite dst 0 (take n src ++ (0 ∷ []))

abbrev is_space : ℕ → Bool
is_space c = c == 32 || leb 9 c && leb c 13

abbrev pub is_digit : ℕ → Bool
is_digit c = leb b'0' c && leb c b'9'

-- The digits from the front of a string on, behind the number `acc`.
pub digits_value : ℕ → List ℕ → ℕ
digits_value acc [] = acc
digits_value acc (c ∷ cs) =
    let rest = digits_value (10 * acc + (c - b'0')) cs in if is_digit c then rest else acc

abbrev negated : ℕ → ℤ
negated zero = pos 0
negated (suc n) = negsuc n

pub signed_value : List ℕ → ℤ
signed_value [] = pos 0
signed_value (c ∷ cs) =
    if c == b'-'
    then negated (digits_value 0 cs)
    else if c == b'+'
    then pos (digits_value 0 cs)
    else pos (digits_value 0 (c ∷ cs))

-- `atoi`, on numbers that an `int` can hold.
unfoldable pub atoi : List ℕ → ℤ
unfolding digits_value signed_value
atoi [] = pos 0
atoi (c ∷ cs) = let rest = atoi cs in if is_space c then rest else signed_value (c ∷ cs)

-- ===== src/Prelude/Int.antt =====
-- The C type `int` of results: `negsuc n` is -(n + 1), so -1 is `negsuc 0`.
use Prim.Native.Nat.{ℕ, zero}
use mathlib.Core.Path.{◌≡◌}
use mathlib.Core.Bool.{Bool, true, false}
use linux_programming_exampl.Prelude.Tests.{◌==◌}
use native.Mathlib.Omega.{arith}

pub data ℤ : Type 0 where
  pos : ℕ → ℤ
  negsuc : ℕ → ℤ

abbrev pub minus_one : ℤ
minus_one = negsuc 0

-- The test `x == -1`.
abbrev pub is_minus_one : ℤ → Bool
is_minus_one (negsuc zero) = true
is_minus_one _ = false

-- The test `x < 0`.
abbrev pub is_negative : ℤ → Bool
is_negative (pos n) = false
is_negative (negsuc n) = true

-- The test `x == 0`.
abbrev pub is_zero : ℤ → Bool
is_zero (pos zero) = true
is_zero _ = false

pub is_minus_one→eq : (x : ℤ) → is_minus_one x ≡ true → x ≡ minus_one
is_minus_one→eq x h = ground arith

-- The test `x == y`.
abbrev pub int_eq : ℤ → ℤ → Bool
int_eq (pos a) (pos b) = a == b
int_eq (negsuc a) (negsuc b) = a == b
int_eq _ _ = false

pub int_eq→eq : (x y : ℤ) → int_eq x y ≡ true → x ≡ y
int_eq→eq x y h = ground arith

pub int_eq_refl : (x : ℤ) → int_eq x x ≡ true
int_eq_refl x = ground arith

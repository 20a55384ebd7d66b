-- ===== src/Prelude/Integers.antt =====
-- Signed integers over the native numbers.
use Prim.Native.Nat.{ℕ, zero, suc, ◌+◌, ◌-◌}
use mathlib.Core.Path.{◌≡◌, refl}
use native.Mathlib.Omega.{arith}
use omnidat.Prelude.Tests.{leb, if◌then◌else◌}

-- `negsuc n` is -(n + 1).
pub data ℤ : Type 0 where
  pos : ℕ → ℤ
  negsuc : ℕ → ℤ

-- the difference of two numbers, as an integer
abbrev pub sub_ℕ : ℕ → ℕ → ℤ
sub_ℕ a b = if leb b a then pos (a - b) else negsuc (b - a - 1)

abbrev pub pos_part : ℤ → ℕ
pos_part (pos n) = n
pos_part (negsuc n) = 0

abbrev pub neg_part : ℤ → ℕ
neg_part (pos n) = 0
neg_part (negsuc n) = suc n

-- the integer `-n`, and `z - n`
abbrev pub neg : ℕ → ℤ
neg zero = pos 0
neg (suc n) = negsuc n

abbrev pub minus : ℤ → ℕ → ℤ
minus (pos m) n = if leb n m then pos (m - n) else negsuc (n - m - 1)
minus (negsuc m) n = negsuc (m + n)

pub minus-minus : (z : ℤ) (a b : ℕ) → minus (minus z a) b ≡ minus z (a + b)
minus-minus (pos m) a b = ground arith
minus-minus (negsuc m) a b = ground arith

pub minus_nothing : (z : ℤ) → minus z 0 ≡ z
minus_nothing (pos m) = ground arith
minus_nothing (negsuc m) = ground arith

pub neg_part-neg : (n : ℕ) → neg_part (neg n) ≡ n
neg_part-neg zero = refl
neg_part-neg (suc n) = refl

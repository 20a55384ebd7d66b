-- ===== src/Prelude/Numerals.antt =====
-- Numbers as text: `String(n)`, `n.toString(36)`, `padStart` with zeros, and what they read back as.
use Prim.Native.Nat.{ℕ, zero, suc, ◌+◌, ◌-◌, ◌*◌, ◌/◌, ◌%◌, ◌≤◌, ◌<◌}
use Prim.Native.Char.{code}
use Prim.Native.String.{String, char_at, count, ◌++◌}
use Prim.Native.String.append
use Prim.Native.String as Text
use mathlib.Core.Path.{◌≡◌, refl, ap, sym, ◌∙◌}
use mathlib.Core.Bool.{Bool, true, false, ◌&&◌}
use native.Mathlib.Nat.{div-lt_self}
use native.Mathlib.Omega.{arith}
use mathlib.Core.Logic.{inl, inr}
use omnidat.Prelude.Tests.{Bool-cases, ltb, leb, nat_beq, if◌then◌else◌, nat_beq_iff}

abbrev pub digit_table : String
digit_table = "0123456789abcdefghijklmnopqrstuvwxyz"

-- the digit `d < 36`, as a text of one character
unfoldable pub digit : ℕ → String
digit d = Text.◌∷◌ (char_at digit_table d) Text.[]

-- The digits of `n` in base `b`; the fuel is one more than `n`.
unfoldable pub print : ℕ → ℕ → ℕ → String
print zero b n = ""
print (suc fuel) b n =
    let higher = print fuel b (n / b) in if ltb n b then digit n else higher ++ digit (n % b)

-- `n.toString(b)`
unfoldable pub numeral : ℕ → ℕ → String
numeral b n = print (suc n) b n

unfoldable pub zeros : ℕ → String
zeros zero = ""
zeros (suc n) = Text.◌∷◌ (char_at digit_table 0) (zeros n)

-- `s.padStart(width, "0")`
unfoldable pub pad_start : ℕ → String → String
pad_start width s = zeros (width - count s) ++ s

digit_value : ℕ → ℕ
digit_value c = if leb c 57 then c - 48 else c - 87

-- The number that a text of digits stands for, after the digits read so far.
value : ℕ → ℕ → String → ℕ
value b acc Text.[] = acc
value b acc (Text.◌∷◌ c s) = value b (acc * b + digit_value (code c)) s

-- `test` passes at every number under a bound.
passes_under : (test : ℕ → Bool) → ℕ → Bool
passes_under test zero = true
passes_under test (suc bound) = passes_under test bound && test bound

passes_under_at :
    (test : ℕ → Bool) (bound d : ℕ) → d < bound → passes_under test bound ≡ true → test d ≡ true
unfolding passes_under
passes_under_at test zero d under passes = absurd (omega arith)
passes_under_at test (suc bound) d under passes = ground (arith, passes_under_at test bound d)

digit_values : passes_under (λ d. nat_beq (digit_value (code (char_at digit_table d))) d) 36 ≡ true
unfolding passes_under digit_value
digit_values = refl

digit_value-digit : (d : ℕ) → d < 36 → digit_value (code (char_at digit_table d)) ≡ d
digit_value-digit d h = (nat_beq_iff _ d).0 (passes_under_at _ 36 d h digit_values)

value-digit : (b acc d : ℕ) → d < 36 → value b acc (digit d) ≡ acc * b + d
unfolding value digit
value-digit b acc d h = ap (λ v. acc * b + v) (digit_value-digit d h)

value-append : (b acc : ℕ) (s t : String) → value b acc (s ++ t) ≡ value b (value b acc s) t
unfolding value
value-append b acc Text.[] t = ap (value b acc) (append.nil t)
value-append b acc (Text.◌∷◌ c s) t =
    ap (value b acc) (append.cons c s t) ∙ value-append b (acc * b + digit_value (code c)) s t

digit_small : (n b : ℕ) → 2 ≤ b → b ≤ 36 → n % b < 36
digit_small n b lo hi = grind arith

higher_small : (n b fuel : ℕ) → 2 ≤ b → ltb n b ≡ false → n < suc fuel → n / b < fuel
higher_small n b fuel lo large h = omega (arith, div-lt_self {n = n} {k = b} (ground arith) lo)

regroup : (n b : ℕ) → n / b * b + n % b ≡ n
regroup n b = grind arith

value-print : (b : ℕ) → 2 ≤ b → b ≤ 36 → (fuel n : ℕ) → n < fuel → value b 0 (print fuel b n) ≡ n
unfolding print
value-print b lo hi zero n h = absurd (omega arith)
value-print b lo hi (suc fuel) n h = elim (Bool-cases (ltb n b)) [
  | inl small ↦ rw small (value-digit b 0 n (ground arith) ∙ omega arith)
  | inr large ↦ rw large (
      value-append b 0 (print fuel b (n / b)) (digit (n % b))
      ∙ value-digit b (value b 0 (print fuel b (n / b))) (n % b) (digit_small n b lo hi)
      ∙ rw (value-print b lo hi fuel (n / b) (higher_small n b fuel lo large h)) (regroup n b))
]

zero_digit : (b : ℕ) → 0 * b + digit_value 48 ≡ 0
unfolding digit_value
zero_digit b = omega arith

value-zeros : (b n : ℕ) (s : String) → value b 0 (zeros n ++ s) ≡ value b 0 s
unfolding zeros value
value-zeros b zero s = ap (value b 0) (append.nil s)
value-zeros b (suc n) s =
    ap (value b 0) (append.cons (char_at digit_table 0) (zeros n) s)
    ∙ ap (λ v. value b v (zeros n ++ s)) (zero_digit b)
    ∙ value-zeros b n s

append_left_cancel : (p s t : String) → p ++ s ≡ p ++ t → s ≡ t
append_left_cancel Text.[] s t h = sym (append.nil s) ∙ h ∙ append.nil t
append_left_cancel (Text.◌∷◌ c p) s t h =
    append_left_cancel p s t (cc (append.cons c p s, append.cons c p t, h))

-- Two numbers with the same print after the same prefix are equal.
pub numeral_injective :
    (b : ℕ)
    → 2 ≤ b
    → b ≤ 36
    → (prefix : String) (m n : ℕ) → prefix ++ numeral b m ≡ prefix ++ numeral b n
    → m ≡ n
unfolding numeral
numeral_injective b lo hi prefix m n h =
    sym (value-print b lo hi (suc m) m (omega arith))
    ∙ ap (value b 0) (append_left_cancel prefix _ _ h)
    ∙ value-print b lo hi (suc n) n (omega arith)

value-pad_start : (width n : ℕ) → value 10 0 (pad_start width (numeral 10 n)) ≡ n
unfolding pad_start numeral
value-pad_start width n =
    value-zeros 10 (width - count (numeral 10 n)) (numeral 10 n)
    ∙ value-print 10 (omega arith) (omega arith) (suc n) n (omega arith)

pub pad_start_injective :
    (width : ℕ) (prefix : String) (m n : ℕ)
    → prefix ++ pad_start width (numeral 10 m) ≡ prefix ++ pad_start width (numeral 10 n)
    → m ≡ n
unfolding pad_start numeral
pad_start_injective width prefix m n h =
    sym (value-pad_start width m)
    ∙ ap (value 10 0) (append_left_cancel prefix _ _ h)
    ∙ value-pad_start width n

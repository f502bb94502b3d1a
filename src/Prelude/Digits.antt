-- ===== src/Prelude/Digits.antt =====
-- The bitwise operations of the native numbers, as one equation for the lowest digit each.
use Prim.Native.Nat.{
  ℕ, zero, suc, ◌+◌, ◌*◌, ◌/◌, ◌%◌, ◌≤◌, min, max, differ, digits, bit_and, bit_or, bit_xor,
  bit_and-bitwise, bit_or-bitwise, bit_xor-bitwise,
}
use mathlib.Core.Path.{◌≡◌, refl, sym, ap, ◌∙◌}
use native.Mathlib.Omega.{arith}

-- For any operation `f` on two digits, with `ends` for the digits that the first number lacks.
module _ (ends : ℕ → ℕ) (f : ℕ → ℕ → ℕ) where
  nothing_left : (fuel b : ℕ) → digits ends f fuel 0 b ≡ ends b
  nothing_left zero b = refl
  nothing_left (suc fuel) b = refl

  any_fuel :
      (long short a b : ℕ) → a ≤ long → a ≤ short → digits ends f long a b ≡ digits ends f short a b
  any_fuel long short zero b hl hs = nothing_left long b ∙ sym (nothing_left short b)
  any_fuel (suc long) (suc short) (suc a) b hl hs =
      ap (λ upper. upper * 2 + f (suc a % 2) (b % 2))
        (any_fuel long short (suc a / 2) (b / 2) (omega arith) (omega arith))
  any_fuel zero short (suc a) b hl hs = absurd (omega arith)
  any_fuel (suc long) zero (suc a) b hl hs = absurd (omega arith)

  lowest :
      (a b : ℕ)
      → digits ends f (suc a) (suc a) b
        ≡ digits ends f (suc a / 2) (suc a / 2) (b / 2) * 2 + f (suc a % 2) (b % 2)
  lowest a b =
      ap (λ upper. upper * 2 + f (suc a % 2) (b % 2))
        (any_fuel a (suc a / 2) (suc a / 2) (b / 2) (omega arith) (omega arith))

abbrev same_digit : ℕ → ℕ
same_digit b = b

pub and_step : (a b : ℕ) → bit_and a b ≡ bit_and (a / 2) (b / 2) * 2 + min (a % 2) (b % 2)
and_step zero b = omega (arith, bit_and-bitwise 0 b, bit_and-bitwise 0 (b / 2))
and_step (suc a) b =
    bit_and-bitwise (suc a) b
    ∙ lowest (λ _. 0) min a b
    ∙ ap (λ upper. upper * 2 + min (suc a % 2) (b % 2)) (sym (bit_and-bitwise (suc a / 2) (b / 2)))

pub or_step : (a b : ℕ) → bit_or a b ≡ bit_or (a / 2) (b / 2) * 2 + max (a % 2) (b % 2)
or_step zero b = omega (arith, bit_or-bitwise 0 b, bit_or-bitwise 0 (b / 2))
or_step (suc a) b =
    bit_or-bitwise (suc a) b
    ∙ lowest same_digit max a b
    ∙ ap (λ upper. upper * 2 + max (suc a % 2) (b % 2)) (sym (bit_or-bitwise (suc a / 2) (b / 2)))

pub differ_step : (a b : ℕ) → bit_xor a b ≡ bit_xor (a / 2) (b / 2) * 2 + differ (a % 2) (b % 2)
differ_step zero b = omega (arith, bit_xor-bitwise 0 b, bit_xor-bitwise 0 (b / 2))
differ_step (suc a) b =
    bit_xor-bitwise (suc a) b
    ∙ lowest same_digit differ a b
    ∙ ap (λ upper. upper * 2 + differ (suc a % 2) (b % 2))
        (sym (bit_xor-bitwise (suc a / 2) (b / 2)))

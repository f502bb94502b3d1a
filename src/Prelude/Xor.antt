-- ===== src/Prelude/Xor.antt =====
-- Exclusive or, of numbers and of byte strings.
use Prim.Native.Nat.{ℕ, zero, suc, ◌+◌, ◌*◌, ◌/◌, ◌%◌, ◌≤◌, bit_xor, differ, bit_xor-bitwise}
use mathlib.Core.Path.{◌≡◌, refl, ◌∙◌, ap, ap₂}
use mathlib.Core.List.{[], ◌∷◌}
use native.Mathlib.Omega.{arith}
use kawasekit_dkls.Prelude.Digits.{differ_step}
use kawasekit_dkls.Prelude.Encoding.{Bytes}

pub zero-xor : (b : ℕ) → bit_xor 0 b ≡ b
zero-xor b = bit_xor-bitwise 0 b

-- The lowest digit of an exclusive or.
abbrev bit_differ : ℕ → ℕ → ℕ
bit_differ a b = (a + b) % 2

differ_bits : (a b : ℕ) → differ (a % 2) (b % 2) ≡ bit_differ a b
differ_bits a b = by_bits (a % 2) (b % 2) (omega arith) (omega arith) ∙ omega arith
  where
    by_bits : (x y : ℕ) → x ≤ 1 → y ≤ 1 → differ x y ≡ (x + y) % 2
    by_bits zero zero p q = refl
    by_bits zero (suc zero) p q = refl
    by_bits (suc zero) zero p q = refl
    by_bits (suc zero) (suc zero) p q = refl
    by_bits (suc (suc x)) y p q = absurd (omega arith)
    by_bits zero (suc (suc y)) p q = absurd (omega arith)
    by_bits (suc zero) (suc (suc y)) p q = absurd (omega arith)

pub xor_step : (a b : ℕ) → bit_xor a b ≡ bit_xor (a / 2) (b / 2) * 2 + bit_differ a b
xor_step a b = differ_step a b ∙ ap (λ d. bit_xor (a / 2) (b / 2) * 2 + d) (differ_bits a b)

xor_comm_fuel : (n a b : ℕ) → a + b ≤ n → bit_xor a b ≡ bit_xor b a
xor_comm_fuel zero zero zero h = refl
xor_comm_fuel zero zero (suc b) h = absurd (omega arith)
xor_comm_fuel zero (suc a) b h = absurd (omega arith)
xor_comm_fuel (suc n) zero zero h = refl
xor_comm_fuel (suc n) zero (suc b) h =
    omega
      (arith, xor_step 0 (suc b), xor_step (suc b) 0, xor_comm_fuel n 0 (suc b / 2) (omega arith))
xor_comm_fuel (suc n) (suc a) b h = omega (
  arith,
  xor_step (suc a) b,
  xor_step b (suc a),
  xor_comm_fuel n (suc a / 2) (b / 2) (omega arith),
)

pub xor_comm : (a b : ℕ) → bit_xor a b ≡ bit_xor b a
xor_comm a b = xor_comm_fuel (a + b) a b (omega arith)

-- `x[i] ^= y[i]` for every index of two arrays of one length.
unfoldable pub xor_bytes : Bytes → Bytes → Bytes
xor_bytes [] ys = []
xor_bytes (x ∷ xs) [] = []
xor_bytes (x ∷ xs) (y ∷ ys) = bit_xor x y ∷ xor_bytes xs ys

pub xor_bytes_comm : (xs ys : Bytes) → xor_bytes xs ys ≡ xor_bytes ys xs
unfolding xor_bytes
xor_bytes_comm [] [] = refl
xor_bytes_comm [] (y ∷ ys) = refl
xor_bytes_comm (x ∷ xs) [] = refl
xor_bytes_comm (x ∷ xs) (y ∷ ys) = ap₂ ◌∷◌ (xor_comm x y) (xor_bytes_comm xs ys)

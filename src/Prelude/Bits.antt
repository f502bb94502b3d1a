-- ===== src/Prelude/Bits.antt =====
-- Numbers as sequences of binary digits, lowest first: what `|`, `<<`, `>>` and `^` do to them.
use Prim.Native.Nat.{ℕ, zero, suc, ◌+◌, ◌*◌, ◌/◌, ◌%◌, ◌^◌, ◌≤◌, ◌<◌, bit_or, bit_xor}
use native.Mathlib.Nat.{pow-suc, div-div-eq-div-mul}
use mathlib.Core.Path.{◌≡◌, refl, sym, ap, ap₂, ◌∙◌}
use mathlib.Core.Bool.{Bool, true, false}
use native.Mathlib.Omega.{arith}
use kawasekit_dkls.Prelude.Digits.{or_step}
use kawasekit_dkls.Prelude.Xor.{xor_step, zero-xor, xor_comm}

-- `u8::from(b)`
abbrev pub bit : Bool → ℕ
bit true = 1
bit false = 0

-- `(n >> s) & 1`
unfoldable pub nth_bit : ℕ → ℕ → ℕ
nth_bit n s = n / 2 ^ s % 2

-- The loop `for i in k..k + n { acc |= f(i) << i }`.
unfoldable pub or_shifted : ℕ → (ℕ → ℕ) → ℕ → ℕ → ℕ
or_shifted acc f k zero = acc
or_shifted acc f k (suc n) = or_shifted (bit_or acc (f k * 2 ^ k)) f (suc k) n

-- The number with the digits `f k, f (k + 1), ...`.
unfoldable of_digits : (ℕ → ℕ) → ℕ → ℕ → ℕ
of_digits f k zero = 0
of_digits f k (suc n) = f k + 2 * of_digits f (suc k) n

or-zero_fuel : (n a : ℕ) → a ≤ n → bit_or a 0 ≡ a
or-zero_fuel zero zero h = refl
or-zero_fuel zero (suc a) h = absurd (omega arith)
or-zero_fuel (suc n) zero h = refl
or-zero_fuel (suc n) (suc a) h =
    omega (arith, or_step (suc a) 0, or-zero_fuel n (suc a / 2) (omega arith))

or-zero : (a : ℕ) → bit_or a 0 ≡ a
or-zero a = or-zero_fuel a a (omega arith)

or-pow : (k a : ℕ) → a < 2 ^ k → bit_or a (2 ^ k) ≡ a + 2 ^ k
or-pow zero zero h = refl
or-pow zero (suc a) h = absurd (omega arith)
or-pow (suc k) a h =
    ground
      (arith, or_step a (2 ^ suc k), pow-suc 2 k, or-pow k (a / 2) (omega (arith, pow-suc 2 k)))

-- Writing one digit above the others.
or_digit : (k a d : ℕ) → a < 2 ^ k → d ≤ 1 → bit_or a (d * 2 ^ k) ≡ a + d * 2 ^ k
or_digit k a zero h p =
    ap (bit_or a) {x = 0 * 2 ^ k} {y = 0} (omega arith) ∙ (or-zero a ∙ omega arith)
or_digit k a (suc zero) h p =
    ap (bit_or a) {x = 1 * 2 ^ k} {y = 2 ^ k} (omega arith) ∙ (or-pow k a h ∙ omega arith)
or_digit k a (suc (suc d)) h p = absurd (omega arith)

below_pow : (k a d : ℕ) → a < 2 ^ k → d ≤ 1 → a + d * 2 ^ k < 2 ^ suc k
below_pow k a zero h p = omega (arith, pow-suc 2 k)
below_pow k a (suc zero) h p = omega (arith, pow-suc 2 k)
below_pow k a (suc (suc d)) h p = absurd (omega arith)

regroup : (acc d k m : ℕ) → acc + d * 2 ^ k + 2 ^ suc k * m ≡ acc + 2 ^ k * (d + 2 * m)
regroup acc d k m = omega (arith, ap (λ (t : ℕ). t * m) (pow-suc 2 k))

or_shifted_from :
    (f : ℕ → ℕ)
    → ((i : ℕ) → f i ≤ 1)
    → (n acc k : ℕ) → acc < 2 ^ k
    → or_shifted acc f k n ≡ acc + 2 ^ k * of_digits f k n
unfolding or_shifted of_digits
or_shifted_from f h zero acc k p = omega arith
or_shifted_from f h (suc n) acc k p =
    ap (λ t. or_shifted t f (suc k) n) (or_digit k acc (f k) p (h k))
    ∙ or_shifted_from f h n (acc + f k * 2 ^ k) (suc k) (below_pow k acc (f k) p (h k))
    ∙ regroup acc (f k) k (of_digits f (suc k) n)

or_shifted_lem : (f : ℕ → ℕ) → ((i : ℕ) → f i ≤ 1) → (n : ℕ) → or_shifted 0 f 0 n ≡ of_digits f 0 n
or_shifted_lem f h n = or_shifted_from f h n 0 0 (omega arith) ∙ omega arith

nth_bit-suc : (a s : ℕ) → nth_bit a (suc s) ≡ nth_bit (a / 2) s
unfolding nth_bit
nth_bit-suc a s =
    ap (λ t. t % 2)
      (ap (λ t. a / t) {y = 2 * 2 ^ s} (omega (arith, pow-suc 2 s))
        ∙ sym (div-div-eq-div-mul a 2 (2 ^ s)))

nth_bit-zero : (a : ℕ) → nth_bit a 0 ≡ a % 2
unfolding nth_bit
nth_bit-zero a = omega arith

nth_bit-of_digits :
    (f : ℕ → ℕ)
    → ((i : ℕ) → f i ≤ 1)
    → (n k s : ℕ) → s < n
    → nth_bit (of_digits f k n) s ≡ f (k + s)
unfolding of_digits
nth_bit-of_digits f h zero k s p = absurd (omega arith)
nth_bit-of_digits f h (suc n) k zero p =
    nth_bit-zero _ ∙ omega (arith, h k, ap f {x = k + 0} {y = k} (omega arith))
nth_bit-of_digits f h (suc n) k (suc s) p =
    nth_bit-suc _ s
    ∙ ap (λ t. nth_bit t s) {x = (f k + 2 * of_digits f (suc k) n) / 2} {y = of_digits f (suc k) n}
        (omega (arith, h k))
    ∙ nth_bit-of_digits f h n (suc k) s (omega arith)
    ∙ ap f {x = suc k + s} {y = k + suc s} (omega arith)

-- A digit of a number that a loop of `|=` wrote.
pub nth_bit-or_shifted :
    (f : ℕ → ℕ) → ((i : ℕ) → f i ≤ 1) → (n s : ℕ) → s < n → nth_bit (or_shifted 0 f 0 n) s ≡ f s
nth_bit-or_shifted f h n s p =
    ap (λ t. nth_bit t s) (or_shifted_lem f h n)
    ∙ nth_bit-of_digits f h n 0 s p
    ∙ ap f {x = 0 + s} {y = s} (omega arith)

pub nth_bit-xor : (a b s : ℕ) → nth_bit (bit_xor a b) s ≡ (nth_bit a s + nth_bit b s) % 2
nth_bit-xor a b zero =
    omega (arith, xor_step a b, nth_bit-zero (bit_xor a b), nth_bit-zero a, nth_bit-zero b)
nth_bit-xor a b (suc s) =
    nth_bit-suc _ s
    ∙ ap (λ t. nth_bit t s) {x = bit_xor a b / 2} {y = bit_xor (a / 2) (b / 2)}
        (omega (arith, xor_step a b))
    ∙ nth_bit-xor (a / 2) (b / 2) s
    ∙ sym (ap₂ (λ x y. (x + y) % 2) (nth_bit-suc a s) (nth_bit-suc b s))

of_digits_xor :
    (f g : ℕ → ℕ)
    → ((i : ℕ) → f i ≤ 1)
    → ((i : ℕ) → g i ≤ 1)
    → (n k : ℕ) → bit_xor (of_digits f k n) (of_digits g k n) ≡ of_digits (λ i. (f i + g i) % 2) k n
unfolding of_digits
of_digits_xor f g hf hg zero k = zero-xor 0
of_digits_xor f g hf hg (suc n) k =
    let df = of_digits f (suc k) n in
    let dg = of_digits g (suc k) n in
    xor_step (f k + 2 * df) (g k + 2 * dg)
    ∙ ap₂ (λ s t. bit_xor s t * 2 + (f k + 2 * df + (g k + 2 * dg)) % 2) {x = (f k + 2 * df) / 2}
        {y = df} {u = (g k + 2 * dg) / 2} {v = dg} (omega (arith, hf k)) (omega (arith, hg k))
    ∙ omega (arith, of_digits_xor f g hf hg n (suc k))

pub or_shifted_xor :
    (f g : ℕ → ℕ)
    → ((i : ℕ) → f i ≤ 1)
    → ((i : ℕ) → g i ≤ 1)
    → (n : ℕ)
    → bit_xor (or_shifted 0 f 0 n) (or_shifted 0 g 0 n) ≡ or_shifted 0 (λ i. (f i + g i) % 2) 0 n
or_shifted_xor f g hf hg n =
    ap₂ bit_xor (or_shifted_lem f hf n) (or_shifted_lem g hg n)
    ∙ of_digits_xor f g hf hg n 0
    ∙ sym (or_shifted_lem (λ i. (f i + g i) % 2) (λ i. omega arith) n)

pub or_shifted_congr :
    (f g : ℕ → ℕ) (acc k n : ℕ)
    → ((i : ℕ) → i < k + n → f i ≡ g i)
    → or_shifted acc f k n ≡ or_shifted acc g k n
unfolding or_shifted
or_shifted_congr f g acc k zero h = refl
or_shifted_congr f g acc k (suc n) h =
    ap (λ t. or_shifted (bit_or acc (t * 2 ^ k)) f (suc k) n) (h k (omega arith))
    ∙ or_shifted_congr f g (bit_or acc (g k * 2 ^ k)) (suc k) n (λ i p. h i (omega arith))

pub nth_bit-le_one : (a s : ℕ) → nth_bit a s ≤ 1
unfolding nth_bit
nth_bit-le_one a s = omega arith

pub bit-le_one : (b : Bool) → bit b ≤ 1
bit-le_one true = omega arith
bit-le_one false = omega arith

-- Exclusive or is associative and its own inverse.
xor_assoc_fuel : (n a b c : ℕ) → a + b + c ≤ n → bit_xor (bit_xor a b) c ≡ bit_xor a (bit_xor b c)
xor_assoc_fuel zero a b c h =
    let a_zero : a ≡ 0 = omega arith in
    let b_zero : b ≡ 0 = omega arith in
    let c_zero : c ≡ 0 = omega arith in rw (a_zero, b_zero, c_zero) refl
xor_assoc_fuel (suc n) a b c h = omega (
  arith,
  xor_step (bit_xor a b) c,
  xor_step a (bit_xor b c),
  xor_step a b,
  xor_step b c,
  ap₂ bit_xor {x = bit_xor a b / 2} {y = bit_xor (a / 2) (b / 2)} {u = c / 2} {v = c / 2}
      (omega (arith, xor_step a b)) refl,
  ap₂ bit_xor {x = a / 2} {y = a / 2} {u = bit_xor b c / 2} {v = bit_xor (b / 2) (c / 2)} refl
      (omega (arith, xor_step b c)),
  xor_assoc_fuel n (a / 2) (b / 2) (c / 2) (omega arith),
)

pub xor_assoc : (a b c : ℕ) → bit_xor (bit_xor a b) c ≡ bit_xor a (bit_xor b c)
xor_assoc a b c = xor_assoc_fuel (a + b + c) a b c (omega arith)

xor-self_fuel : (n a : ℕ) → a ≤ n → bit_xor a a ≡ 0
xor-self_fuel zero zero h = refl
xor-self_fuel zero (suc a) h = absurd (omega arith)
xor-self_fuel (suc n) a h = omega (arith, xor_step a a, xor-self_fuel n (a / 2) (omega arith))

pub xor_self : (a : ℕ) → bit_xor a a ≡ 0
xor_self a = xor-self_fuel a a (omega arith)

pub xor-zero : (a : ℕ) → bit_xor a 0 ≡ a
xor-zero a = xor_comm a 0 ∙ zero-xor a

pub xor_left_comm : (a b c : ℕ) → bit_xor a (bit_xor b c) ≡ bit_xor b (bit_xor a c)
xor_left_comm a b c = sym (xor_assoc a b c) ∙ ap (λ t. bit_xor t c) (xor_comm a b) ∙ xor_assoc b a c

of_digits-lt_pow : (f : ℕ → ℕ) → ((i : ℕ) → f i ≤ 1) → (n k : ℕ) → of_digits f k n < 2 ^ n
unfolding of_digits
of_digits-lt_pow f h zero k = omega arith
of_digits-lt_pow f h (suc n) k = omega (arith, h k, pow-suc 2 n, of_digits-lt_pow f h n (suc k))

pub or_shifted-lt_pow : (f : ℕ → ℕ) → ((i : ℕ) → f i ≤ 1) → (n : ℕ) → or_shifted 0 f 0 n < 2 ^ n
or_shifted-lt_pow f h n = rw (or_shifted_lem f h n) (of_digits-lt_pow f h n 0)

-- ===== src/Utilities/Ot/Extension/Words.antt =====
-- Operations on words are linear over exclusive or.
use Prim.Native.Nat.{min, max, bit_and, bit_and-bitwise, bit_or-bitwise}
use native.Mathlib.Nat.{
  pow-suc, div-div-eq-div-mul, mod-add-div', one-le-pow, pow-le-pow_right, mul-lt-mul_of_pos_right,
}
use kawasekit_dkls.Prelude.{
  ℕ, zero, suc, ◌+◌, ◌*◌, ◌/◌, ◌%◌, ◌^◌, ◌≤◌, ◌<◌, ◌≡◌, sym, ap, ap₂, ◌∙◌, arith, bit_or, bit_xor,
  xor_step, and_step, xor_self, xor-zero, zero-xor, or_step, and_step,
}
use kawasekit_dkls.Utilities.Ot.Extension.FieldMul.{shl, shr, mask_of}

pow-times : (q k : ℕ) → q * 2 ^ suc k ≡ 2 * (q * 2 ^ k)
pow-times q k = omega (arith, ap (λ (t : ℕ). q * t) (pow-suc 2 k))

div-pow : (a k : ℕ) → a / 2 ^ suc k ≡ a / 2 / 2 ^ k
div-pow a k =
    ap (λ (t : ℕ). a / t) (pow-suc 2 k ∙ omega arith) ∙ sym (div-div-eq-div-mul a 2 (2 ^ k))

xor-half : (a b : ℕ) → bit_xor a b / 2 ≡ bit_xor (a / 2) (b / 2)
xor-half a b = omega (arith, xor_step a b)

xor-times : (k a b : ℕ) → bit_xor a b * 2 ^ k ≡ bit_xor (a * 2 ^ k) (b * 2 ^ k)
xor-times zero a b =
    omega (
      arith,
      ap₂ bit_xor {x = a} {y = a * 2 ^ 0} {u = b} {v = b * 2 ^ 0} (omega arith) (omega arith),
    )
xor-times (suc k) a b =
    let halves : bit_xor (a * 2 ^ suc k / 2) (b * 2 ^ suc k / 2) ≡ bit_xor (a * 2 ^ k) (b * 2 ^ k) =
      ap₂ bit_xor (omega (arith, pow-times a k)) (omega (arith, pow-times b k)) in
    omega (
      arith,
      xor_step (a * 2 ^ suc k) (b * 2 ^ suc k),
      pow-times (bit_xor a b) k,
      pow-times a k,
      pow-times b k,
      xor-times k a b,
      halves,
    )

xor-div : (k a b : ℕ) → bit_xor a b / 2 ^ k ≡ bit_xor (a / 2 ^ k) (b / 2 ^ k)
xor-div zero a b =
    omega (
      arith,
      ap₂ bit_xor {x = a} {y = a / 2 ^ 0} {u = b} {v = b / 2 ^ 0} (omega arith) (omega arith),
    )
xor-div (suc k) a b =
    div-pow (bit_xor a b) k
    ∙ ap (λ (t : ℕ). t / 2 ^ k) (xor-half a b)
    ∙ xor-div k (a / 2) (b / 2)
    ∙ sym (ap₂ bit_xor (div-pow a k) (div-pow b k))

pub xor-lt_pow : (k a b : ℕ) → a < 2 ^ k → b < 2 ^ k → bit_xor a b < 2 ^ k
xor-lt_pow zero a b ha hb =
    let same : bit_xor a b ≡ bit_xor 0 0 =
      ap₂ bit_xor {y = 0} {v = 0} (omega arith) (omega arith) in
    omega (arith, same, zero-xor 0)
xor-lt_pow (suc k) a b ha hb = omega (
  arith,
  xor_step a b,
  pow-suc 2 k,
  xor-lt_pow k (a / 2) (b / 2) (omega (arith, pow-suc 2 k)) (omega (arith, pow-suc 2 k)),
)

mod-pow : (a k : ℕ) → a % 2 ^ suc k ≡ 2 * (a / 2 % 2 ^ k) + a % 2
mod-pow a k = omega (
  arith,
  mod-add-div' a (2 ^ suc k),
  mod-add-div' (a / 2) (2 ^ k),
  pow-times (a / 2 / 2 ^ k) k,
  ap (λ (t : ℕ). t * 2 ^ suc k) (div-pow a k),
)

xor-mod : (k a b : ℕ) → bit_xor a b % 2 ^ k ≡ bit_xor (a % 2 ^ k) (b % 2 ^ k)
xor-mod zero a b =
    let same : bit_xor (a % 2 ^ 0) (b % 2 ^ 0) ≡ bit_xor 0 0 =
      ap₂ bit_xor {y = 0} {v = 0} (omega arith) (omega arith) in
    omega (arith, same, zero-xor 0)
xor-mod (suc k) a b =
    let halves : bit_xor (a % 2 ^ suc k / 2) (b % 2 ^ suc k / 2)
        ≡ bit_xor (a / 2 % 2 ^ k) (b / 2 % 2 ^ k) =
      ap₂ bit_xor (omega (arith, mod-pow a k)) (omega (arith, mod-pow b k)) in
    let half : bit_xor a b / 2 % 2 ^ k ≡ bit_xor (a / 2) (b / 2) % 2 ^ k =
      ap (λ (t : ℕ). t % 2 ^ k) (xor-half a b) in
    omega (
      arith,
      xor_step (a % 2 ^ suc k) (b % 2 ^ suc k),
      xor_step a b,
      mod-pow (bit_xor a b) k,
      mod-pow a k,
      mod-pow b k,
      xor-mod k (a / 2) (b / 2),
      halves,
      half,
    )

pub shl-xor : (a b n : ℕ) → shl (bit_xor a b) n ≡ bit_xor (shl a n) (shl b n)
unfolding shl
shl-xor a b n = ap (λ (t : ℕ). t % 2 ^ 64) (xor-times n a b) ∙ xor-mod 64 (a * 2 ^ n) (b * 2 ^ n)

pub shr-xor : (a b n : ℕ) → shr (bit_xor a b) n ≡ bit_xor (shr a n) (shr b n)
unfolding shr
shr-xor a b n = xor-div n a b

and-half : (a b : ℕ) → bit_and a b / 2 ≡ bit_and (a / 2) (b / 2)
and-half a b = ground (arith, and_step a b)

and-low : (a b : ℕ) → bit_and a b % 2 ≡ min (a % 2) (b % 2)
and-low a b = ground (arith, and_step a b)

and-zero_fuel : (n a : ℕ) → a ≤ n → bit_and a 0 ≡ 0
and-zero_fuel zero a h = ap (λ t. bit_and t 0) {y = 0} (omega arith)
and-zero_fuel (suc n) a h = ground (arith, and_step a 0, and-zero_fuel n (a / 2) (omega arith))

and-zero : (a : ℕ) → bit_and a 0 ≡ 0
and-zero a = and-zero_fuel a a (omega arith)

and_digit :
    (x y z : ℕ) → min ((x + y) % 2) (z % 2) ≡ (min (x % 2) (z % 2) + min (y % 2) (z % 2)) % 2
and_digit x y z = ground arith

and-xor_fuel :
    (n a b m : ℕ) → a + b ≤ n → bit_and (bit_xor a b) m ≡ bit_xor (bit_and a m) (bit_and b m)
and-xor_fuel zero a b m h =
    let a_zero : a ≡ 0 = omega arith in
    let b_zero : b ≡ 0 = omega arith in
    rw (a_zero, b_zero, zero-xor 0) (bit_and-bitwise 0 m ∙ sym (xor_self (bit_and 0 m)))
and-xor_fuel (suc n) a b m h =
    let half : bit_and (bit_xor a b / 2) (m / 2) ≡ bit_and (bit_xor (a / 2) (b / 2)) (m / 2) =
      ap (λ t. bit_and t (m / 2)) (xor-half a b) in
    let halves : bit_xor (bit_and a m / 2) (bit_and b m / 2)
        ≡ bit_xor (bit_and (a / 2) (m / 2)) (bit_and (b / 2) (m / 2)) =
      ap₂ bit_xor (and-half a m) (and-half b m) in
    let low_digit : min (bit_xor a b % 2) (m % 2) ≡ (bit_and a m + bit_and b m) % 2 =
      ap (λ t. min t (m % 2)) {y = (a + b) % 2} (omega (arith, xor_step a b))
      ∙ and_digit a b m
      ∙ omega (arith, and-low a m, and-low b m) in
    omega (
      arith,
      and_step (bit_xor a b) m,
      xor_step (bit_and a m) (bit_and b m),
      and-xor_fuel n (a / 2) (b / 2) (m / 2) (omega arith),
      half,
      halves,
      low_digit,
    )

pub and-xor : (a b m : ℕ) → bit_and (bit_xor a b) m ≡ bit_xor (bit_and a m) (bit_and b m)
and-xor a b m = and-xor_fuel (a + b) a b m (omega arith)

-- The mask of a digit keeps a word or clears it.
pub masked-xor :
    (w p q : ℕ)
    → p ≤ 1
    → q ≤ 1
    → bit_and w (mask_of ((p + q) % 2)) ≡ bit_xor (bit_and w (mask_of p)) (bit_and w (mask_of q))
unfolding mask_of
masked-xor w zero zero hp hq = and-zero w ∙ sym (ap₂ bit_xor (and-zero w) (and-zero w) ∙ zero-xor 0)
masked-xor w zero (suc zero) hp hq =
    sym (ap (λ t. bit_xor t (bit_and w (mask_of 1))) (and-zero w) ∙ zero-xor _)
masked-xor w (suc zero) zero hp hq =
    sym (ap (bit_xor (bit_and w (mask_of 1))) (and-zero w) ∙ xor-zero _)
masked-xor w (suc zero) (suc zero) hp hq = and-zero w ∙ sym (xor_self (bit_and w (mask_of 1)))
masked-xor w (suc (suc p)) q hp hq = absurd (omega arith)
masked-xor w zero (suc (suc q)) hp hq = absurd (omega arith)
masked-xor w (suc zero) (suc (suc q)) hp hq = absurd (omega arith)

-- `|` on disjoint digits is exclusive or.
or-xor : (k a q : ℕ) → a < 2 ^ k → bit_or a (q * 2 ^ k) ≡ bit_xor a (q * 2 ^ k)
or-xor zero a q h =
    let a_zero : a ≡ 0 = omega arith in
    rw a_zero (bit_or-bitwise 0 (q * 2 ^ 0) ∙ sym (zero-xor (q * 2 ^ 0)))
or-xor (suc k) a q h =
    let half : q * 2 ^ suc k / 2 ≡ q * 2 ^ k = omega (arith, pow-times q k) in
    let even : q * 2 ^ suc k % 2 ≡ 0 = omega (arith, pow-times q k) in
    let or_half : bit_or (a / 2) (q * 2 ^ suc k / 2) ≡ bit_or (a / 2) (q * 2 ^ k) =
      ap (bit_or (a / 2)) half in
    let xor_half : bit_xor (a / 2) (q * 2 ^ suc k / 2) ≡ bit_xor (a / 2) (q * 2 ^ k) =
      ap (bit_xor (a / 2)) half in
    let low : max (a % 2) (q * 2 ^ suc k % 2) ≡ a % 2 = ground arith in
    omega (
      arith,
      or_step a (q * 2 ^ suc k),
      xor_step a (q * 2 ^ suc k),
      or-xor k (a / 2) q (omega (arith, pow-suc 2 k)),
      or_half,
      xor_half,
      even,
      low,
    )

pow-eight : (m : ℕ) → 2 ^ (suc m * 8) ≡ 256 * 2 ^ (m * 8)
pow-eight m =
    let k = m * 8 in
    ap (λ (t : ℕ). 2 ^ t) {y = suc (suc (suc (suc (suc (suc (suc (suc k)))))))} (omega arith)
    ∙ omega (
      arith,
      pow-suc 2 k,
      pow-suc 2 (suc k),
      pow-suc 2 (suc (suc k)),
      pow-suc 2 (suc (suc (suc k))),
      pow-suc 2 (suc (suc (suc (suc k)))),
      pow-suc 2 (suc (suc (suc (suc (suc k))))),
      pow-suc 2 (suc (suc (suc (suc (suc (suc k)))))),
      pow-suc 2 (suc (suc (suc (suc (suc (suc (suc k))))))),
    )

shl_exact :
    (m q : ℕ)
    → m < 8
    → q < 256
    → (shl q (m * 8) ≡ q * 2 ^ (m * 8)) × (shl q (m * 8) < 2 ^ (suc m * 8))
unfolding shl
shl_exact m q h hq =
    let below : q * 2 ^ (m * 8) < 256 * 2 ^ (m * 8) =
      mul-lt-mul_of_pos_right hq (one-le-pow (m * 8) 2 (omega arith)) in
    let fits : 2 ^ (suc m * 8) ≤ 2 ^ 64 =
      pow-le-pow_right (omega arith) {i = suc m * 8} {j = 64} (omega arith) in
    (omega (arith, below, fits, pow-eight m), omega (arith, below, fits, pow-eight m))

-- A byte is written above the bytes of a word.
pub or_byte :
    (m a q : ℕ)
    → m < 8
    → q < 256
    → a < 2 ^ (m * 8)
    → (bit_or a (shl q (m * 8)) ≡ bit_xor a (shl q (m * 8)))
      × (bit_xor a (shl q (m * 8)) < 2 ^ (suc m * 8))
or_byte m a q hm hq ha =
    let (exact, bound) = shl_exact m q hm hq in
    (
      ap (bit_or a) exact ∙ or-xor (m * 8) a q ha ∙ ap (bit_xor a) (sym exact),
      xor-lt_pow (suc m * 8) a (shl q (m * 8)) (omega (arith, ha, pow-eight m)) bound,
    )

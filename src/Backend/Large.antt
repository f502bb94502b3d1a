-- ===== src/Backend/Large.antt =====
-- A backend with 67 scalars, as many as the commitments of a proof of a discrete logarithm need to
-- be distinct. The hash is constant.
use kawasekit_dkls.Prelude.{
  ℕ, zero, suc, ◌+◌, ◌*◌, ◌-◌, ◌%◌, ◌/◌, ◌<◌, ◌≡◌, ◌≢◌, ◌↔◌, refl, sym, ap, ap₂, ◌∙◌, Bool, true,
  ◌&&◌, ◌||◌, [], ◌∷◌, Option, none, some, arith, ◌==◌, ==_iff, ==_false, false, Bool-cases, inl,
  inr, subst, ltb, if◌then◌else◌, from_be_bytes,
}
use mathlib.Core.HLevel.{Σ_prop_path}
use native.Mathlib.Bridge.{le_prop}
use native.Mathlib.Nat.{mul_comm, mul_assoc, mul-add, add-mul, mul-add-mod_self_left}
use kawasekit_dkls.Backend.{Backend, FieldLaws, GroupLaws}

abbrev pub Residue : Type 0
Residue = (n : ℕ) × (n < 67)

abbrev pub residue : ℕ → Residue
residue n = (n % 67, omega arith)

Residue_ext : (a b : Residue) → a.0 ≡ b.0 → a ≡ b
Residue_ext a b e = Σ_prop_path (λ n. le_prop) e

residue_small : (a : Residue) → residue a.0 ≡ a
residue_small a = Residue_ext _ _ (omega (arith, a.1))

mod-mul : (x c : ℕ) → (x % 67 * c) % 67 ≡ (x * c) % 67
mod-mul x c =
    let q = x / 67 in
    let r = x % 67 in
    let split : x * c ≡ 67 * (q * c) + r * c =
      ap (λ t. t * c) {x = x} {y = 67 * q + r} (omega arith)
      ∙ add-mul (67 * q) r c
      ∙ ap (λ t. t + r * c) (mul_assoc 67 q c) in
    sym (ap (λ t. t % 67) split ∙ mul-add-mod_self_left 67 (q * c) (r * c))

mul_mod : (c x : ℕ) → (c * (x % 67)) % 67 ≡ (c * x) % 67
mul_mod c x = ap (λ t. t % 67) (mul_comm c (x % 67)) ∙ mod-mul x c ∙ ap (λ t. t % 67) (mul_comm x c)

sum_mod : (x y : ℕ) → (x + y) % 67 ≡ (x % 67 + y % 67) % 67
sum_mod x y = omega arith

abbrev power : ℕ → ℕ → ℕ
power zero a = 1
power (suc n) a = (power n a * a) % 67

-- The test of the numbers below a bound, by evaluation.
abbrev every_below : ℕ → (ℕ → Bool) → Bool
every_below zero p = true
every_below (suc n) p = p n && every_below n p

every_below_sound : (n : ℕ) (p : ℕ → Bool) (i : ℕ) → every_below n p ≡ true → i < n → p i ≡ true
every_below_sound zero p i h lt = elim lt [ ]
every_below_sound (suc n) p i h lt = elim (Bool-cases (i == n)) [
  | inl e ↦ subst (λ k. p k ≡ true) (sym ((==_iff i n).0 e)) (ground arith)
  | inr e ↦ every_below_sound n p i (ground arith) (ground arith)
]

abbrev inverse_of : ℕ → ℕ
inverse_of a = power 65 a

inverse_of_lem : (a : ℕ) → a < 67 → a ≢ 0 → (a * inverse_of a) % 67 ≡ 1
inverse_of_lem a lt ne =
    let tested : ((a == 0) || ((a * inverse_of a) % 67 == 1)) ≡ true =
      every_below_sound 67 (λ n. (n == 0) || ((n * inverse_of n) % 67 == 1)) a refl lt in
    from_test (a == 0) _ (==_false a 0 ne) tested
  where
    from_test : (b : Bool) (n : ℕ) → b ≡ false → (b || (n == 1)) ≡ true → n ≡ 1
    from_test b n e h = ground (arith)

abbrev plus : Residue → Residue → Residue
plus a b = residue (a.0 + b.0)

abbrev times : Residue → Residue → Residue
times a b = residue (a.0 * b.0)

abbrev invert : Residue → Option Residue
invert a = if a.0 == 0 then none else some (residue (inverse_of a.0))

instance abbrev pub large : Backend
large = record {
  Scalar = Residue;
  zero = residue 0;
  one = residue 1;
  add = plus;
  mul = times;
  neg = λ a. residue (67 - a.0);
  invert = invert;
  from_u64 = residue;
  eq_scalar = λ a b. a.0 == b.0;
  is_high = λ a. ltb 33 a.0;
  to_repr = λ a. a.0 ∷ [];
  from_repr = λ bs. let n = from_be_bytes 0 bs in if ltb n 67 then some (residue n) else none;
  reduce = λ bs. residue (from_be_bytes 0 bs);
  Point = Residue;
  identity = residue 0;
  generator = residue 1;
  point_add = plus;
  point_neg = λ a. residue (67 - a.0);
  point_mul = times;
  eq_point = λ a b. a.0 == b.0;
  point_to_bytes = λ p. p.0 ∷ [];
  x = λ p. p.0 ∷ [];
  sha256 = λ bs. 7 ∷ [];
}

times_assoc : (a b c : Residue) → times (times a b) c ≡ times a (times b c)
times_assoc a b c = Residue_ext _ _ (
    mod-mul (a.0 * b.0) c.0
    ∙ ap (λ t. t % 67) (mul_assoc a.0 b.0 c.0)
    ∙ sym (mul_mod a.0 (b.0 * c.0)))

times-plus : (a b c : Residue) → times a (plus b c) ≡ plus (times a b) (times a c)
times-plus a b c = Residue_ext _ _ (
    mul_mod a.0 (b.0 + c.0)
    ∙ ap (λ t. t % 67) (mul-add a.0 b.0 c.0)
    ∙ sum_mod (a.0 * b.0) (a.0 * c.0))

invert_ne :
    (a : Residue) → a ≢ residue 0 → (i : Residue) × (invert a ≡ some i) × (times a i ≡ residue 1)
invert_ne a h =
    let ne : a.0 ≢ 0 = λ e. h (Residue_ext _ _ e) in
    (
      residue (inverse_of a.0),
      rw (==_false a.0 0 ne) refl,
      Residue_ext _ _ (mul_mod a.0 (inverse_of a.0) ∙ inverse_of_lem a.0 a.1 ne),
    )

same_iff : (a b : Residue) → ((a.0 == b.0) ≡ true) ↔ (a ≡ b)
same_iff a b =
    ((λ e. Residue_ext a b ((==_iff a.0 b.0).0 e)), λ e. (==_iff a.0 b.0).1 (ap (λ t. t.0) e))

one_times : (a : Residue) → times (residue 1) a ≡ a
one_times a = Residue_ext _ _ (omega (arith, a.1))

times_one : (a : Residue) → times a (residue 1) ≡ a
times_one a = Residue_ext _ _ (omega (arith, a.1))

times_comm : (a b : Residue) → times a b ≡ times b a
times_comm a b = Residue_ext _ _ (ap (λ t. t % 67) (mul_comm a.0 b.0))

plus_assoc : (a b c : Residue) → plus (plus a b) c ≡ plus a (plus b c)
plus_assoc a b c = Residue_ext _ _ (omega arith)

plus_comm : (a b : Residue) → plus a b ≡ plus b a
plus_comm a b = Residue_ext _ _ (omega arith)

zero_plus : (a : Residue) → plus (residue 0) a ≡ a
zero_plus a = Residue_ext _ _ (omega (arith, a.1))

neg_plus : (a : Residue) → plus (residue (67 - a.0)) a ≡ residue 0
neg_plus a = Residue_ext _ _ (omega (arith, a.1))

instance pub large_field : FieldLaws large
large_field = record {
  add_assoc = plus_assoc;
  add_comm = plus_comm;
  zero-add = zero_plus;
  neg-add = neg_plus;
  mul_assoc = times_assoc;
  mul_comm = times_comm;
  one-mul = one_times;
  mul-add = times-plus;
  one-ne-zero = λ e. omega (arith, ap (λ t. t.0) e);
  invert-zero = refl;
  invert_ne = invert_ne;
  eq_scalar_iff = same_iff;
}

instance pub large_group : GroupLaws large
large_group = record {
  point_add_assoc = plus_assoc;
  point_add_comm = plus_comm;
  identity-point_add = zero_plus;
  point_neg-point_add = neg_plus;
  point_mul-add = times-plus;
  point_add-mul = λ p q a.
      times_comm (plus p q) a ∙ times-plus a p q ∙ ap₂ plus (times_comm a p) (times_comm a q);
  point_mul-mul = λ p a b. sym (times_assoc p a b);
  point_mul-one = times_one;
  eq_point_iff = same_iff;
}

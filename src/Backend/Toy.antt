-- ===== src/Backend/Toy.antt =====
-- A small backend at which the theorems are evaluated: the field of seven elements, as scalars
-- and as points.
use kawasekit_dkls.Prelude.{
  ℕ, zero, suc, ◌+◌, ◌*◌, ◌-◌, ◌%◌, ◌≡◌, ◌≢◌, ◌↔◌, refl, Bool, true, ◌&&◌, [], ◌∷◌, Option, none,
  some, arith, ◌==◌, ltb, if◌then◌else◌,
}
use kawasekit_dkls.Backend.{Backend, FieldLaws, GroupLaws, Bytes}

pub data Seven : Type 0 where
  n0 n1 n2 n3 n4 n5 n6 : Seven

abbrev pub to_nat : Seven → ℕ
to_nat n0 = 0
to_nat n1 = 1
to_nat n2 = 2
to_nat n3 = 3
to_nat n4 = 4
to_nat n5 = 5
to_nat n6 = 6

abbrev next : Seven → Seven
next n0 = n1
next n1 = n2
next n2 = n3
next n3 = n4
next n4 = n5
next n5 = n6
next n6 = n0

-- Counts up from zero, so it takes a small number only.
abbrev pub of_nat : ℕ → Seven
of_nat zero = n0
of_nat (suc n) = next (of_nat n)

abbrev plus : Seven → Seven → Seven
plus a b = of_nat ((to_nat a + to_nat b) % 7)

abbrev pub times : Seven → Seven → Seven
times a b = of_nat ((to_nat a * to_nat b) % 7)

abbrev minus : Seven → Seven
minus a = of_nat ((7 - to_nat a) % 7)

abbrev inverse : Seven → Option Seven
inverse n0 = none
inverse n1 = some n1
inverse n2 = some n4
inverse n3 = some n5
inverse n4 = some n2
inverse n5 = some n3
inverse n6 = some n6

abbrev same : Seven → Seven → Bool
same a b = to_nat a == to_nat b

-- A check of all elements, by evaluation.
abbrev every : (Seven → Bool) → Bool
every p = p n0 && (p n1 && (p n2 && (p n3 && (p n4 && (p n5 && p n6)))))

every_sound : (p : Seven → Bool) (a : Seven) → every p ≡ true → p a ≡ true
every_sound p a h = ground arith

same_iff : (a b : Seven) → (same a b ≡ true) ↔ (a ≡ b)
same_iff a b = (to b, λ e. rw e (every_sound (λ c. same c c) b refl))
  where
    to : (b : Seven) → same a b ≡ true → a ≡ b
    to b h = ground arith

law₁ : (f g : Seven → Seven) → every (λ a. same (f a) (g a)) ≡ true → (a : Seven) → f a ≡ g a
law₁ f g h a = (same_iff _ _).0 (every_sound (λ a. same (f a) (g a)) a h)

law₂ :
    (f g : Seven → Seven → Seven)
    → every (λ a. every (λ b. same (f a b) (g a b))) ≡ true
    → (a b : Seven) → f a b ≡ g a b
law₂ f g h a = law₁ (f a) (g a) (every_sound (λ a. every (λ b. same (f a b) (g a b))) a h)

law₃ :
    (f g : Seven → Seven → Seven → Seven)
    → every (λ a. every (λ b. every (λ c. same (f a b c) (g a b c)))) ≡ true
    → (a b c : Seven) → f a b c ≡ g a b c
law₃ f g h a =
    law₂ (f a) (g a) (every_sound (λ a. every (λ b. every (λ c. same (f a b c) (g a b c)))) a h)

inverse_ne : (a : Seven) → a ≢ n0 → (i : Seven) × (inverse a ≡ some i) × (times a i ≡ n1)
inverse_ne n0 h = absurd (h refl)
inverse_ne n1 h = (n1, refl, refl)
inverse_ne n2 h = (n4, refl, refl)
inverse_ne n3 h = (n5, refl, refl)
inverse_ne n4 h = (n2, refl, refl)
inverse_ne n5 h = (n3, refl, refl)
inverse_ne n6 h = (n6, refl, refl)

-- Any function will do for the hash: this one adds the bytes up with weights.
abbrev pub digest : ℕ → Bytes → ℕ
digest acc [] = acc
digest acc (b ∷ bs) = digest ((acc * 31 + b + 1) % 251) bs

abbrev pub head_byte : Bytes → ℕ
head_byte [] = 0
head_byte (b ∷ bs) = b

abbrev pub parse : Bytes → Option Seven
parse [] = none
parse (b ∷ bs) = if ltb b 7 then some (of_nat b) else none

instance abbrev pub toy : Backend
toy = record {
  Scalar = Seven;
  zero = n0;
  one = n1;
  add = plus;
  mul = times;
  neg = minus;
  invert = inverse;
  from_u64 = λ n. of_nat (n % 7);
  eq_scalar = same;
  is_high = λ a. ltb 3 (to_nat a);
  to_repr = λ a. to_nat a ∷ [];
  from_repr = parse;
  reduce = λ bs. of_nat (head_byte bs % 7);
  Point = Seven;
  identity = n0;
  generator = n1;
  point_add = plus;
  point_neg = minus;
  point_mul = times;
  eq_point = same;
  point_to_bytes = λ p. to_nat p ∷ [];
  x = λ p. to_nat p ∷ [];
  sha256 = λ bs. digest 0 bs ∷ [];
}

instance pub toy_field : FieldLaws toy
toy_field = record {
  add_assoc = law₃ (λ a b c. plus (plus a b) c) (λ a b c. plus a (plus b c)) refl;
  add_comm = law₂ plus (λ a b. plus b a) refl;
  zero-add = law₁ (plus n0) (λ a. a) refl;
  neg-add = law₁ (λ a. plus (minus a) a) (λ a. n0) refl;
  mul_assoc = law₃ (λ a b c. times (times a b) c) (λ a b c. times a (times b c)) refl;
  mul_comm = law₂ times (λ a b. times b a) refl;
  one-mul = law₁ (times n1) (λ a. a) refl;
  mul-add = law₃ (λ a b c. times a (plus b c)) (λ a b c. plus (times a b) (times a c)) refl;
  one-ne-zero = λ e. cc;
  invert-zero = refl;
  invert_ne = inverse_ne;
  eq_scalar_iff = same_iff;
}

instance pub toy_group : GroupLaws toy
toy_group = record {
  point_add_assoc = law₃ (λ a b c. plus (plus a b) c) (λ a b c. plus a (plus b c)) refl;
  point_add_comm = law₂ plus (λ a b. plus b a) refl;
  identity-point_add = law₁ (plus n0) (λ a. a) refl;
  point_neg-point_add = law₁ (λ a. plus (minus a) a) (λ a. n0) refl;
  point_mul-add = law₃ (λ a b c. times a (plus b c)) (λ a b c. plus (times a b) (times a c)) refl;
  point_add-mul = law₃ (λ a b c. times (plus a b) c) (λ a b c. plus (times a c) (times b c)) refl;
  point_mul-mul = law₃ (λ a b c. times a (times b c)) (λ a b c. times (times a b) c) refl;
  point_mul-one = law₁ (λ a. times a n1) (λ a. a) refl;
  eq_point_iff = same_iff;
}

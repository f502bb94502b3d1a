-- ===== src/Backend.antt =====
-- What the crates take from third-party code (dkls23-core/src/curve.rs names it in the trait
-- `DklsCurve`): the scalar field and the group of an elliptic curve, their encodings, and SHA-256.
-- A theorem that needs a documented law of them takes `FieldLaws`, `GroupLaws` or `HashLaws` as a
-- hypothesis.
pub mod Large
pub mod Polynomial
pub mod Ring
pub mod Toy
pub mod Wide
use kawasekit_dkls.Prelude.{
  ℕ, Bool, true, ◌≡◌, ◌≢◌, ◌↔◌, Bytes, Option, none, some, length, All, ◌<◌,
}

-- `AffinePoint` and `ProjectivePoint` are two representations of one group, so both are `Point`
-- and `to_affine` is the identity.
pub record Backend : Type 1 where
  pub Scalar : Type 0
  pub zero : Scalar
  pub one : Scalar
  pub add : Scalar → Scalar → Scalar
  pub mul : Scalar → Scalar → Scalar
  pub neg : Scalar → Scalar
  pub invert : Scalar → Option Scalar
  pub from_u64 : ℕ → Scalar
  pub eq_scalar : Scalar → Scalar → Bool
  pub is_high : Scalar → Bool
  pub to_repr : Scalar → Bytes
  pub from_repr : Bytes → Option Scalar
  pub reduce : Bytes → Scalar
  pub Point : Type 0
  pub identity : Point
  pub generator : Point
  pub point_add : Point → Point → Point
  pub point_neg : Point → Point
  pub point_mul : Point → Scalar → Point
  pub eq_point : Point → Point → Bool
  pub point_to_bytes : Point → Bytes
  pub x : Point → Bytes
  pub sha256 : Bytes → Bytes

module _ ⦃B : Backend⦄ where
  infixl 65 ◌⊕◌ ◌⊖◌
  infixl 70 ◌⊗◌
  infixl 65 ◌⊞◌
  infixl 70 ◌•◌
  infix 50 ◌=ₛ◌ ◌=ₚ◌
  abbrev pub ◌⊕◌ : B.Scalar → B.Scalar → B.Scalar
  a ⊕ b = B.add a b

  abbrev pub ◌⊗◌ : B.Scalar → B.Scalar → B.Scalar
  a ⊗ b = B.mul a b

  abbrev pub ◌⊖◌ : B.Scalar → B.Scalar → B.Scalar
  a ⊖ b = B.add a (B.neg b)

  abbrev pub ◌⊞◌ : B.Point → B.Point → B.Point
  p ⊞ q = B.point_add p q

  -- `point * scalar`
  abbrev pub ◌•◌ : B.Point → B.Scalar → B.Point
  p • a = B.point_mul p a

  abbrev pub ◌=ₛ◌ : B.Scalar → B.Scalar → Bool
  a =ₛ b = B.eq_scalar a b

  abbrev pub ◌=ₚ◌ : B.Point → B.Point → Bool
  p =ₚ q = B.eq_point p q

-- The scalars are a field with decidable equality; `invert` fails at zero only.
pub record FieldLaws (B : Backend) : Type 0 where
  pub add_assoc : (a b c : B.Scalar) → B.add (B.add a b) c ≡ B.add a (B.add b c)
  pub add_comm : (a b : B.Scalar) → B.add a b ≡ B.add b a
  pub zero-add : (a : B.Scalar) → B.add B.zero a ≡ a
  pub neg-add : (a : B.Scalar) → B.add (B.neg a) a ≡ B.zero
  pub mul_assoc : (a b c : B.Scalar) → B.mul (B.mul a b) c ≡ B.mul a (B.mul b c)
  pub mul_comm : (a b : B.Scalar) → B.mul a b ≡ B.mul b a
  pub one-mul : (a : B.Scalar) → B.mul B.one a ≡ a
  pub mul-add : (a b c : B.Scalar) → B.mul a (B.add b c) ≡ B.add (B.mul a b) (B.mul a c)
  pub one-ne-zero : B.one ≢ B.zero
  pub invert-zero : B.invert B.zero ≡ none
  pub invert_ne :
      (a : B.Scalar) → a ≢ B.zero → (i : B.Scalar) × (B.invert a ≡ some i) × (B.mul a i ≡ B.one)
  pub eq_scalar_iff : (a b : B.Scalar) → (B.eq_scalar a b ≡ true) ↔ (a ≡ b)

-- The points are a module over the scalars.
pub record GroupLaws (B : Backend) : Type 0 where
  pub point_add_assoc :
      (p q r : B.Point) → B.point_add (B.point_add p q) r ≡ B.point_add p (B.point_add q r)
  pub point_add_comm : (p q : B.Point) → B.point_add p q ≡ B.point_add q p
  pub identity-point_add : (p : B.Point) → B.point_add B.identity p ≡ p
  pub point_neg-point_add : (p : B.Point) → B.point_add (B.point_neg p) p ≡ B.identity
  pub point_mul-add :
      (p : B.Point) (a b : B.Scalar)
      → B.point_mul p (B.add a b) ≡ B.point_add (B.point_mul p a) (B.point_mul p b)
  pub point_add-mul :
      (p q : B.Point) (a : B.Scalar)
      → B.point_mul (B.point_add p q) a ≡ B.point_add (B.point_mul p a) (B.point_mul q a)
  pub point_mul-mul :
      (p : B.Point) (a b : B.Scalar) → B.point_mul p (B.mul a b) ≡ B.point_mul (B.point_mul p a) b
  pub point_mul-one : (p : B.Point) → B.point_mul p B.one ≡ p
  pub eq_point_iff : (p q : B.Point) → (B.eq_point p q ≡ true) ↔ (p ≡ q)

-- A digest has 32 bytes.
pub record HashLaws (B : Backend) : Type 0 where
  pub digest_length : (message : Bytes) → length (B.sha256 message) ≡ 32
  pub digest_bytes : (message : Bytes) → All (λ b. b < 256) (B.sha256 message)

-- ===== src/Protocols/Signing/Equation.antt =====
-- The equation of ECDSA for a signature that is assembled from the key and the nonce.
use kawasekit_dkls.Prelude.{◌≡◌, ◌≢◌, refl, sym, ap, ◌∙◌, true, false, Bytes, some}
use kawasekit_dkls.Backend.{Backend, FieldLaws, GroupLaws, ◌⊕◌, ◌⊞◌, ◌⊗◌, ◌•◌}
use kawasekit_dkls.Backend.Ring.{
  mul_assoc, mul_comm, mul-one, neg-mul, mul-neg, neg-neg, neg-zero, add-mul, eq_scalar_false,
  eq_point_false, eq_scalar_refl, add-neg, point_add_comm, point_mul-zero, point_add_cancel,
}
use kawasekit_dkls.Protocols.Signature.{Hex}
use kawasekit_dkls.Protocols.Signing.{reduce_hash_bytes, verify_scalars}

-- Documented behaviour of the encodings of a curve: a scalar's representation is parsed to the
-- scalar and reduced to it, opposite points have one x coordinate, and the opposite of a high
-- scalar is not high.
pub record CurveLaws (B : Backend) : Type 0 where
  pub from-to_repr : (a : B.Scalar) → B.from_repr (B.to_repr a) ≡ some a
  pub reduce-repr : (bytes : Bytes) (a : B.Scalar) → B.from_repr bytes ≡ some a → B.reduce bytes ≡ a
  pub x-point_neg : (p : B.Point) → B.x (B.point_neg p) ≡ B.x p
  pub is_high-neg : (a : B.Scalar) → B.is_high a ≡ true → B.is_high (B.neg a) ≡ false

module _ ⦃B : Backend⦄ ⦃L : FieldLaws B⦄ ⦃G : GroupLaws B⦄ where
  pub neg-ne_zero : (a : B.Scalar) → a ≢ B.zero → B.neg a ≢ B.zero
  neg-ne_zero a h e = h (sym (neg-neg a) ∙ ap B.neg e ∙ neg-zero)

  point_mul-neg : (p : B.Point) (a : B.Scalar) → p • B.neg a ≡ B.point_neg (p • a)
  point_mul-neg p a = point_add_cancel (p • a) (p • B.neg a) (B.point_neg (p • a)) (
      sym (G.point_mul-add p a (B.neg a))
      ∙ ap (λ t. p • t) (add-neg a)
      ∙ point_mul-zero p
      ∙ sym (point_add_comm (p • a) _ ∙ G.point_neg-point_add (p • a)))

  -- The point of the verification.
  abbrev pub check_point : B.Scalar → B.Point → B.Scalar → B.Scalar → B.Point
  check_point m pk rx i = B.generator • (m ⊗ i) ⊞ pk • (rx ⊗ i)

  check_point_lem :
      (m sk rx i : B.Scalar)
      → check_point m (B.generator • sk) rx i ≡ B.generator • ((m ⊕ rx ⊗ sk) ⊗ i)
  check_point_lem m sk rx i =
      ap (λ t. B.generator • (m ⊗ i) ⊞ t) (sym (G.point_mul-mul B.generator sk (rx ⊗ i)))
      ∙ sym (G.point_mul-add B.generator (m ⊗ i) (sk ⊗ (rx ⊗ i)))
      ∙ ap (λ t. B.generator • t)
          (ap (λ t. m ⊗ i ⊕ t) (sym (mul_assoc sk rx i) ∙ ap (λ t. t ⊗ i) (mul_comm sk rx))
            ∙ sym (add-mul m (rx ⊗ sk) i))

  -- If s k = m + rx sk, the verification of s recovers the nonce point.
  pub check_point-s :
      (m sk rx s k i : B.Scalar)
      → s ⊗ k ≡ m ⊕ rx ⊗ sk
      → s ⊗ i ≡ B.one
      → check_point m (B.generator • sk) rx i ≡ B.generator • k
  check_point-s m sk rx s k i h inv =
      check_point_lem m sk rx i
      ∙ ap (λ t. B.generator • t)
          (ap (λ t. t ⊗ i) (sym h ∙ mul_comm s k)
            ∙ mul_assoc k s i
            ∙ ap (λ t. k ⊗ t) inv
            ∙ mul-one k)

  -- And that of -s its opposite.
  pub check_point-neg :
      (m sk rx s k i : B.Scalar)
      → s ⊗ k ≡ m ⊕ rx ⊗ sk
      → B.neg s ⊗ i ≡ B.one
      → check_point m (B.generator • sk) rx i ≡ B.point_neg (B.generator • k)
  check_point-neg m sk rx s k i h inv =
      check_point-s m sk rx (B.neg s) (B.neg k) i
        (neg-mul s (B.neg k) ∙ ap B.neg (mul-neg s k) ∙ neg-neg (s ⊗ k) ∙ h) inv
      ∙ point_mul-neg B.generator k

  pub verify_scalars-true :
      ⦃X : Hex⦄ (msg : Bytes) (pk : B.Point) (rx s i : B.Scalar) (r : B.Point)
      → rx ≢ B.zero
      → s ≢ B.zero
      → B.invert s ≡ some i
      → check_point (reduce_hash_bytes msg) pk rx i ≡ r
      → r ≢ B.identity
      → B.reduce (B.x r) ≡ rx
      → verify_scalars msg pk rx s ≡ true
  unfolding verify_scalars
  verify_scalars-true msg pk rx s i r hr hs hi hp hne hx =
      rw
        (
          eq_scalar_false rx B.zero hr,
          eq_scalar_false s B.zero hs,
          hi,
          hp,
          eq_point_false r B.identity hne,
          hx,
          eq_scalar_refl rx,
        )
        refl

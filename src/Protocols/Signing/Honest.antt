-- ===== src/Protocols/Signing/Honest.antt =====
-- Phase 4 of signing (dkls23-core/src/protocols/signing.rs) on the broadcasts of honest parties.
use kawasekit_dkls.Prelude.{
  ℕ, ◌≡◌, ◌≢◌, ◌⊎◌, refl, sym, ap, ◌∙◌, inl, inr, List, Bool, true, ◌&&◌, Bool-cases, Bytes, some,
  ok,
}
use kawasekit_dkls.Backend.{Backend, FieldLaws, GroupLaws, ◌⊕◌, ◌⊗◌, ◌•◌}
use kawasekit_dkls.Backend.Ring.{
  mul_assoc, mul_comm, mul_left_comm, mul-one, mul_cancel, mul_ne_zero, zero-mul,
}
use kawasekit_dkls.Protocols.Signature.{Hex, HexLaws}
use kawasekit_dkls.Protocols.Signing.{
  Party, SignData, Broadcast3to4, reduce_hash_bytes, reduce_hex_bytes, parse_hex_to_scalar,
  verify_scalars, verify_ecdsa_signature,
}
use kawasekit_dkls.Protocols.Signing.PhaseFour.{
  assemble, normalized, signature_point, recovery_id_of, recover, sign_phase4,
}
use kawasekit_dkls.Protocols.Signing.Equation.{
  CurveLaws, neg-ne_zero, check_point, check_point-s, check_point-neg, verify_scalars-true,
}

module _ ⦃B : Backend⦄ ⦃X : Hex⦄ where
  -- What the broadcasts of honest parties add up to: the key sk, the nonce k and a mask phi that
  -- all parties share, with r the canonical x coordinate of the nonce point.
  pub record HonestBroadcasts (party : Party B) (sign_data : SignData) (x_coord : X.Text)
      (received : List (Broadcast3to4 B)) (sk k phi rx : B.Scalar) : Type 0 where
    pub key : party.pk ≡ B.generator • sk
    pub numerator :
        (assemble B.zero B.zero received).0
        ≡ phi ⊗ (reduce_hash_bytes sign_data.message_hash ⊕ rx ⊗ sk)
    pub denominator : (assemble B.zero B.zero received).1 ≡ phi ⊗ k
    pub x_decodes : X.decode x_coord ≡ some (B.x (B.generator • k))
    pub x_canonical : B.from_repr (B.x (B.generator • k)) ≡ some rx
    pub point_ne : B.generator • k ≢ B.identity
    pub k_ne : k ≢ B.zero
    pub phi_ne : phi ≢ B.zero
    pub rx_ne : rx ≢ B.zero
    pub sum_ne : reduce_hash_bytes sign_data.message_hash ⊕ rx ⊗ sk ≢ B.zero

  normalized_cases :
      (normalize : Bool) (s : B.Scalar)
      → (normalized normalize s ≡ s) ⊎ (normalized normalize s ≡ B.neg s)
  unfolding normalized
  normalized_cases normalize s = elim (Bool-cases (normalize && B.is_high s)) [
    | inl e ↦ inr (rw e refl)
    | inr e ↦ inl (rw e refl)
  ]

  module _ ⦃L : FieldLaws B⦄ ⦃G : GroupLaws B⦄ ⦃C : CurveLaws B⦄ ⦃E : HexLaws B X⦄ where
    point_neg-identity : (p : B.Point) → B.point_neg p ≡ B.identity → p ≡ B.identity
    point_neg-identity p e =
        sym (G.identity-point_add p) ∙ ap (λ t. B.point_add t p) (sym e) ∙ G.point_neg-point_add p

    quotient_lem :
        (phi k z d : B.Scalar) → phi ≢ B.zero → (phi ⊗ k) ⊗ d ≡ B.one → (phi ⊗ z ⊗ d) ⊗ k ≡ z
    quotient_lem phi k z d h inv = mul_cancel phi _ z h (
        mul_left_comm phi (phi ⊗ z ⊗ d) k
        ∙ mul_assoc (phi ⊗ z) d (phi ⊗ k)
        ∙ ap (λ t. phi ⊗ z ⊗ t) (mul_comm d (phi ⊗ k) ∙ inv)
        ∙ mul-one (phi ⊗ z))

    -- A scalar that solves the equation of ECDSA verifies, and so does its opposite.
    verifies :
        (msg : Bytes) (pk : B.Point) (sk k rx s t : B.Scalar)
        → pk ≡ B.generator • sk
        → s ⊗ k ≡ reduce_hash_bytes msg ⊕ rx ⊗ sk
        → (t ≡ s) ⊎ (t ≡ B.neg s)
        → t ≢ B.zero
        → rx ≢ B.zero
        → B.generator • k ≢ B.identity
        → B.reduce (B.x (B.generator • k)) ≡ rx
        → verify_scalars msg pk rx t ≡ true
    verifies msg pk sk k rx s t hk he (inl same) ht hr hne hx =
        let (i, inverse, unit) = L.invert_ne t ht in
        verify_scalars-true msg pk rx t i (B.generator • k) hr ht inverse
          (ap (λ p. check_point (reduce_hash_bytes msg) p rx i) hk
            ∙ check_point-s _ sk rx s k i he (ap (λ a. a ⊗ i) (sym same) ∙ unit))
          hne hx
    verifies msg pk sk k rx s t hk he (inr opposite) ht hr hne hx =
        let (i, inverse, unit) = L.invert_ne t ht in
        verify_scalars-true msg pk rx t i (B.point_neg (B.generator • k)) hr ht inverse
          (ap (λ p. check_point (reduce_hash_bytes msg) p rx i) hk
            ∙ check_point-neg _ sk rx s k i he (ap (λ a. a ⊗ i) (sym opposite) ∙ unit))
          (λ e. hne (point_neg-identity (B.generator • k) e))
          (ap B.reduce (C.x-point_neg (B.generator • k)) ∙ hx)

    -- A verified scalar, in hexadecimal.
    verify-scalars :
        (msg : Bytes) (pk : B.Point) (x_coord : X.Text) (bytes : Bytes) (rx s : B.Scalar)
        → X.decode x_coord ≡ some bytes
        → B.from_repr bytes ≡ some rx
        → verify_ecdsa_signature msg pk x_coord (X.encode (B.to_repr s))
          ≡ verify_scalars msg pk rx s
    unfolding verify_ecdsa_signature parse_hex_to_scalar
    verify-scalars msg pk x_coord bytes rx s hd hr =
        rw
          (verify_ecdsa_signature, parse_hex_to_scalar, hd, hr, E.decode-encode s, C.from-to_repr s)
          refl

    recover-ok :
        (party : Party B) (sign_data : SignData) (x_coord : X.Text) (bytes : Bytes) (s : B.Scalar)
        → X.decode x_coord ≡ some bytes
        → s ≢ B.zero
        → (rec_id : ℕ) × (recover party sign_data x_coord s ≡ ok rec_id)
    unfolding recover reduce_hex_bytes
    recover-ok party sign_data x_coord bytes s hd hs =
        let (i, inverse, _) = L.invert_ne s hs in
        (
          recovery_id_of (signature_point sign_data.message_hash party.pk (B.reduce bytes) i) bytes
              (B.reduce bytes),
          rw (hd, inverse) refl,
        )

    nonzero : (s t : B.Scalar) → (t ≡ s) ⊎ (t ≡ B.neg s) → s ≢ B.zero → t ≢ B.zero
    nonzero s t (inl e) h z = h (sym e ∙ z)
    nonzero s t (inr e) h z = neg-ne_zero s h (sym e ∙ z)

    -- Let the broadcasts add up to phi (m + r sk) and phi k, for the key sk, the nonce k and a mask
    -- phi, with r the x coordinate of the nonce point, and let x_coord be this r. Then phase 4
    -- returns a signature, normalized or not, and the signature verifies. The conditions are that
    -- k, phi, r and m + r sk are not zero, that r is less than the order of the group, and that the
    -- nonce point is not the point at infinity.
    pub sign_phase4-HonestBroadcasts :
        (party : Party B) (sign_data : SignData) (x_coord : X.Text)
        (received : List (Broadcast3to4 B)) (normalize : Bool) (sk k phi rx : B.Scalar)
        → HonestBroadcasts party sign_data x_coord received sk k phi rx
        → (signature : X.Text) × (rec_id : ℕ) × (sign_phase4 party sign_data x_coord received
              normalize
            ≡ ok (signature, rec_id))
          × (verify_ecdsa_signature sign_data.message_hash party.pk x_coord signature ≡ true)
    unfolding sign_phase4
    sign_phase4-HonestBroadcasts party sign_data x_coord received normalize sk k phi rx h =
        let z = reduce_hash_bytes sign_data.message_hash ⊕ rx ⊗ sk in
        let (d, inverse, unit) = L.invert_ne (phi ⊗ k) (mul_ne_zero phi k h.phi_ne h.k_ne) in
        let s0 = phi ⊗ z ⊗ d in
        let s = normalized normalize s0 in
        let solves : s0 ⊗ k ≡ z = quotient_lem phi k z d h.phi_ne unit in
        let s0_ne : s0 ≢ B.zero = λ e. h.sum_ne (sym solves ∙ ap (λ t. t ⊗ k) e ∙ zero-mul k) in
        let s_ne : s ≢ B.zero = nonzero s0 s (normalized_cases normalize s0) s0_ne in
        let verified : verify_ecdsa_signature sign_data.message_hash party.pk x_coord
              (X.encode (B.to_repr s))
            ≡ true =
          verify-scalars sign_data.message_hash party.pk x_coord _ rx s h.x_decodes h.x_canonical
          ∙ verifies sign_data.message_hash party.pk sk k rx s0 s h.key solves
              (normalized_cases normalize s0) s_ne h.rx_ne h.point_ne
              (C.reduce-repr _ rx h.x_canonical) in
        let (rec_id, recovers) = recover-ok party sign_data x_coord _ s h.x_decodes s_ne in
        (
          X.encode (B.to_repr s),
          rec_id,
          rw (h.denominator, h.numerator, inverse, h.x_decodes, verified, recovers) refl,
          verified,
        )

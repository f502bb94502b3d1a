-- ===== src/Protocols/Signing/Sound.antt =====
-- What phase 4 of signing guarantees for any broadcasts.
use kawasekit_dkls.Prelude.{
  ℕ, ◌≡◌, ◌≢◌, refl, sym, ap, ◌∙◌, inl, inr, List, Bool, true, false, not, Bool-cases, Option-cases,
  Bytes, Option, none, some, Result, ok, err, ok_or, ok_or-eq-ok, ◌>>=◌, ◌>>◌, fail_if, >>=-eq-ok,
  >>=-eq-err, fail_if-not-eq-ok,
}
use kawasekit_dkls.Backend.{Backend, FieldLaws, ◌⊗◌, ◌=ₛ◌}
use kawasekit_dkls.Backend.Ring.{eq_scalar_refl}
use kawasekit_dkls.Protocols.{
  Failure, panics, aborts, Abort, recoverable, signature_verification_failed, zero_denominator,
  invalid_x_coordinate_hex,
}
use kawasekit_dkls.Protocols.Signature.{Hex, HexLaws}
use kawasekit_dkls.Protocols.Signing.{
  Party, SignData, Broadcast3to4, parse_hex_to_scalar, reduce_hex_bytes, verify_scalars,
  verify_ecdsa_signature,
}
use kawasekit_dkls.Protocols.Signing.PhaseFour.{assemble, normalized, recover, sign_phase4}
use kawasekit_dkls.Protocols.Signing.Equation.{CurveLaws}

module _ ⦃B : Backend⦄ where
  normalized-is_high : ⦃C : CurveLaws B⦄ (s : B.Scalar) → B.is_high (normalized true s) ≡ false
  unfolding normalized
  normalized-is_high ⦃C = C⦄ s = elim (Bool-cases (B.is_high s)) [
    | inl e ↦ rw e (C.is_high-neg s e)
    | inr e ↦ rw e e
  ]

  verify_scalars-zero :
      ⦃X : Hex⦄ ⦃L : FieldLaws B⦄ (msg : Bytes) (pk : B.Point) (rx : B.Scalar)
      → verify_scalars msg pk rx B.zero ≡ false
  unfolding verify_scalars
  verify_scalars-zero msg pk rx = elim (Bool-cases (rx =ₛ B.zero)) [
    | inl e ↦ rw e refl
    | inr e ↦ rw (e, eq_scalar_refl B.zero) refl
  ]

module _ ⦃B : Backend⦄ ⦃X : Hex⦄ ⦃L : FieldLaws B⦄ ⦃C : CurveLaws B⦄ ⦃E : HexLaws B X⦄ where
  -- The zero scalar is never accepted.
  verify-zero :
      (msg : Bytes) (pk : B.Point) (x_coord : X.Text)
      → verify_ecdsa_signature msg pk x_coord (X.encode (B.to_repr B.zero)) ≡ false
  unfolding parse_hex_to_scalar verify_ecdsa_signature
  verify-zero msg pk x_coord = elim (Option-cases (parse_hex_to_scalar x_coord)) [
    | inl e ↦ rw (verify_ecdsa_signature, e) refl
    | inr (rx, e) ↦
        rw (verify_ecdsa_signature, e, parse-encode B.zero) (verify_scalars-zero msg pk rx)
  ]
    where
      parse-encode : (a : B.Scalar) → parse_hex_to_scalar (X.encode (B.to_repr a)) ≡ some a
      parse-encode a = rw (parse_hex_to_scalar, E.decode-encode a, C.from-to_repr a) refl

  -- The verification in phase 4.
  abbrev accepted : Party B → SignData → X.Text → B.Scalar → Bool
  accepted party sign_data x_coord s =
      verify_ecdsa_signature sign_data.message_hash party.pk x_coord (X.encode (B.to_repr s))

  recover-total :
      (party : Party B) (sign_data : SignData) (x_coord : X.Text) (bytes : Bytes) (s : B.Scalar)
      → X.decode x_coord ≡ some bytes
      → s ≢ B.zero
      → recover party sign_data x_coord s ≢ err panics
  unfolding recover reduce_hex_bytes
  recover-total party sign_data x_coord bytes s hd hs =
      let (i, inverse, _) = L.invert_ne s hs in rw (hd, inverse) (λ e. cc)

  verified_ne :
      (msg : Bytes) (pk : B.Point) (x_coord : X.Text) (s : B.Scalar)
      → verify_ecdsa_signature msg pk x_coord (X.encode (B.to_repr s)) ≡ true
      → s ≢ B.zero
  verified_ne msg pk x_coord s h e =
      let zero_verified : verify_ecdsa_signature msg pk x_coord (X.encode (B.to_repr B.zero))
          ≡ true =
        ap (λ t. verify_ecdsa_signature msg pk x_coord (X.encode (B.to_repr t))) (sym e) ∙ h in
      let refused = verify-zero msg pk x_coord in cc

  -- The part of phase 4 after the inversion of the denominator and the check of x_coord.
  abbrev finish : Party B → SignData → X.Text → B.Scalar → Result Failure (X.Text × ℕ)
  finish party sign_data x_coord s =
      fail_if (not (accepted party sign_data x_coord s))
        (aborts (recoverable party.party_index signature_verification_failed))
      >> recover party sign_data x_coord s
      >>= λ rec_id. ok (X.encode (B.to_repr s), rec_id)

  finish-total :
      (party : Party B) (sign_data : SignData) (x_coord : X.Text) (bytes : Bytes) (s : B.Scalar)
      → X.decode x_coord ≡ some bytes
      → finish party sign_data x_coord s ≢ err panics
  finish-total party sign_data x_coord bytes s hd h =
      elim (Bool-cases (accepted party sign_data x_coord s)) [
        | inl e ↦ elim (>>=-eq-err (recover party sign_data x_coord s) _ (rw e at h)) [
          | inl p ↦ absurd (
              recover-total party sign_data x_coord bytes s hd
                (verified_ne sign_data.message_hash party.pk x_coord s e) p)
          | inr (rec_id, _, p) ↦ cc
        ]
        | inr e ↦
            let refused : err (aborts (recoverable party.party_index signature_verification_failed))
                ≡ err panics =
              rw e at h in
            cc
      ]

  finish-ok :
      (party : Party B) (sign_data : SignData) (x_coord : X.Text) (s : B.Scalar)
      (signature : X.Text) (rec_id : ℕ)
      → finish party sign_data x_coord s ≡ ok (signature, rec_id)
      → (accepted party sign_data x_coord s ≡ true) × (signature ≡ X.encode (B.to_repr s))
  finish-ok party sign_data x_coord s signature rec_id h =
      let (id, recovers, same) =
        >>=-eq-ok
          (fail_if (not (accepted party sign_data x_coord s))
              (aborts (recoverable party.party_index signature_verification_failed))
            >> recover party sign_data x_coord s)
          _ h in
      let (done, checked, _) =
        >>=-eq-ok
          (fail_if (not (accepted party sign_data x_coord s))
            (aborts (recoverable party.party_index signature_verification_failed)))
          _ recovers in
      let pairs : ◌≡◌ {A = X.Text × ℕ} (X.encode (B.to_repr s), id) (signature, rec_id) = cc in
      (fail_if-not-eq-ok (accepted party sign_data x_coord s) _ checked, sym (ap (λ p. p.0) pairs))

  opens-no-panic : {A : Type 0} (a : Abort) (o : Option A) → ok_or (aborts a) o ≢ err panics
  opens-no-panic a none h = cc
  opens-no-panic a (some v) h = cc

  -- Whatever was broadcast, phase 4 does not panic.
  pub sign_phase4-total :
      (party : Party B) (sign_data : SignData) (x_coord : X.Text)
      (received : List (Broadcast3to4 B)) (normalize : Bool)
      → sign_phase4 party sign_data x_coord received normalize ≢ err panics
  unfolding sign_phase4
  sign_phase4-total party sign_data x_coord received normalize h =
      let (numerator, denominator) = assemble B.zero B.zero received in
      elim (>>=-eq-err
        (ok_or (aborts (recoverable party.party_index zero_denominator)) (B.invert denominator)) _
        h) [
          | inl p ↦ opens-no-panic _ (B.invert denominator) p
          | inr (d, _, rest) ↦
              elim (>>=-eq-err
                (ok_or (aborts (recoverable party.party_index invalid_x_coordinate_hex))
                  (X.decode x_coord))
                _ rest) [
                  | inl p ↦ opens-no-panic _ (X.decode x_coord) p
                  | inr (bytes, decoded, p) ↦
                      finish-total party sign_data x_coord bytes
                        (normalized normalize (numerator ⊗ d))
                        (ok_or-eq-ok _ (X.decode x_coord) bytes decoded) p
                ]
        ]

  -- Whatever was broadcast, a signature that phase 4 returns verifies, and it is the hexadecimal
  -- form of a scalar, which is not high if normalization is asked for.
  pub sign_phase4-verify_ecdsa_signature :
      (party : Party B) (sign_data : SignData) (x_coord : X.Text)
      (received : List (Broadcast3to4 B)) (normalize : Bool) (signature : X.Text) (rec_id : ℕ)
      → sign_phase4 party sign_data x_coord received normalize ≡ ok (signature, rec_id)
      → (verify_ecdsa_signature sign_data.message_hash party.pk x_coord signature ≡ true)
        × (s : B.Scalar) × (signature ≡ X.encode (B.to_repr s))
        × (normalize ≡ true → B.is_high s ≡ false)
  unfolding sign_phase4
  sign_phase4-verify_ecdsa_signature party sign_data x_coord received normalize signature rec_id h =
      let (numerator, denominator) = assemble B.zero B.zero received in
      let (d, _, rest) =
        >>=-eq-ok
          (ok_or (aborts (recoverable party.party_index zero_denominator)) (B.invert denominator)) _
          h in
      let (bytes, _, last) =
        >>=-eq-ok
          (ok_or (aborts (recoverable party.party_index invalid_x_coordinate_hex))
            (X.decode x_coord))
          _ rest in
      let s = normalized normalize (numerator ⊗ d) in
      let (verified, same) = finish-ok party sign_data x_coord s signature rec_id last in
      (
        ap (verify_ecdsa_signature sign_data.message_hash party.pk x_coord) same ∙ verified,
        s,
        same,
        λ n.
            ap (λ b. B.is_high (normalized b (numerator ⊗ d))) n
            ∙ normalized-is_high (numerator ⊗ d),
      )

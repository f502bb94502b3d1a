-- ===== src/Protocols/Signing/PhaseFour.antt =====
-- `sign_phase4` of dkls23-core/src/protocols/signing.rs.
use kawasekit_dkls.Prelude.{
  ℕ, ◌*◌, List, [], ◌∷◌, Bool, not, ◌&&◌, ◌==◌, if◌then◌else◌, Bytes, bytes_eq, bit, bit_or, Result,
  ok, ok_or, ◌>>=◌, ◌>>◌, fail_if, at,
}
use kawasekit_dkls.Backend.{Backend, ◌⊕◌, ◌⊗◌, ◌⊞◌, ◌•◌}
use kawasekit_dkls.Utilities.Hashes.{point_to_bytes}
use kawasekit_dkls.Protocols.{
  Failure, aborts, panics, recoverable, zero_denominator, invalid_x_coordinate_hex,
  signature_verification_failed,
}
use kawasekit_dkls.Protocols.Signature.{Hex}
use kawasekit_dkls.Protocols.Signing.{
  Party, SignData, Broadcast3to4, reduce_hash_bytes, reduce_hex_bytes, verify_ecdsa_signature,
}

module _ ⦃B : Backend⦄ where
  -- The sums of the broadcast values: numerator and denominator.
  unfoldable pub assemble : B.Scalar → B.Scalar → List (Broadcast3to4 B) → B.Scalar × B.Scalar
  assemble numerator denominator [] = (numerator, denominator)
  assemble numerator denominator (m ∷ ms) = assemble (numerator ⊕ m.w) (denominator ⊕ m.u) ms

  -- The "low S" form, if it is asked for.
  unfoldable pub normalized : Bool → B.Scalar → B.Scalar
  normalized normalize s = if normalize && B.is_high s then B.neg s else s

  -- The signature point R = (G * msg_hash + pk * r_x) / s.
  unfoldable pub signature_point : Bytes → B.Point → B.Scalar → B.Scalar → B.Point
  signature_point message_hash pk rx_scalar s_inverse =
      (B.generator • reduce_hash_bytes message_hash ⊞ pk • rx_scalar) • s_inverse

  -- Bit 0 of the recovery id is the parity of y, bit 1 says that x is not reduced.
  unfoldable pub recovery_id_of : B.Point → Bytes → B.Scalar → ℕ
  recovery_id_of point x_bytes_original rx_scalar =
      let is_y_odd = at 0 (point_to_bytes point) 0 == 3 in
      let is_x_reduced = not (bytes_eq x_bytes_original (B.to_repr rx_scalar)) in
      bit_or (bit is_y_odd) (bit is_x_reduced * 2)

module _ ⦃B : Backend⦄ ⦃X : Hex⦄ where
  -- The recovery id of a verified signature.
  unfoldable pub recover : Party B → SignData → X.Text → B.Scalar → Result Failure ℕ
  recover party sign_data x_coord s = reduce_hex_bytes x_coord >>= λ rx_scalar.
      ok_or panics (B.invert s) >>= λ s_inverse.
      ok_or panics (X.decode x_coord) >>= λ x_bytes_original. ok (
        recovery_id_of (signature_point sign_data.message_hash party.pk rx_scalar s_inverse)
          x_bytes_original rx_scalar)

  unfoldable pub sign_phase4 :
      Party B → SignData → X.Text → List (Broadcast3to4 B) → Bool → Result Failure (X.Text × ℕ)
  sign_phase4 party sign_data x_coord received normalize =
      let own = party.party_index in
      let (numerator, denominator) = assemble B.zero B.zero received in
      ok_or (aborts (recoverable own zero_denominator)) (B.invert denominator)
      >>= λ denominator_inverse.
          ok_or (aborts (recoverable own invalid_x_coordinate_hex)) (X.decode x_coord)
          >>= λ x_coord_bytes.
              let s = normalized normalize (numerator ⊗ denominator_inverse) in
              let signature = X.encode (B.to_repr s) in
              fail_if
                (not (verify_ecdsa_signature sign_data.message_hash party.pk x_coord signature))
                (aborts (recoverable own signature_verification_failed))
              >> recover party sign_data x_coord s
              >>= λ rec_id. ok (signature, rec_id)

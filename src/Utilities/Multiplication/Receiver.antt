-- ===== src/Utilities/Multiplication/Receiver.antt =====
-- `MulReceiver` of dkls23-core/src/utilities/multiplication.rs.
use kawasekit_dkls.Prelude.{
  ℕ, zero, suc, List, Bool, false, not, ◌||◌, Bytes, length, take, drop, table, at, ◌==◌, bytes_eq,
  if◌then◌else◌, Result, ok, ◌>>=◌, ◌>>◌, fail_if,
}
use kawasekit_dkls.Backend.{Backend, ◌⊕◌, ◌⊖◌, ◌⊗◌}
use kawasekit_dkls.Utilities.Proofs.DLog.{DLogProof, DLogDraws, ProofSearchExhausted}
use kawasekit_dkls.Utilities.Proofs.Enc.{EncProof}
use kawasekit_dkls.Utilities.Ot.{ErrorOt}
use kawasekit_dkls.Utilities.Ot.Base.{OtSender}
use kawasekit_dkls.Utilities.Ot.Extension.{batch_size, OteDataToSender}
use kawasekit_dkls.Utilities.Ot.Extension.Receiver.{
  ote_receiver_init_phase1, ote_receiver_init_phase2, ote_receiver_run_phase1,
  ote_receiver_run_phase2,
}
use kawasekit_dkls.Utilities.Multiplication.{
  l, ot_width, MulReceiver, MulDataToReceiver, MulDataToKeepReceiver, MulFailure, mul_fails,
  mul_panics, too_short, mul_malformed, mul_consistency, map_from_ot, ote_session_id, transcript_of,
  gadget_of, chi_tilde_of, chi_hat_of, cell, verify_r_of, gadget_sum,
}

module _ ⦃B : Backend⦄ where
  -- The nonce is drawn.
  unfoldable pub mul_receiver_init_phase1 :
      ℕ
      → (ℕ → B.Scalar)
      → DLogDraws B
      → B.Scalar
      → Bytes
      → Result ProofSearchExhausted (OtSender B × DLogProof B × B.Scalar)
  mul_receiver_init_phase1 tries draw d nonce session_id =
      ote_receiver_init_phase1 tries draw d session_id >>= λ made. ok (made.0, made.1, nonce)

  unfoldable pub mul_receiver_init_phase2 :
      OtSender B → Bytes → Bytes → List (EncProof B) → B.Scalar → Result ErrorOt (MulReceiver B)
  mul_receiver_init_phase2 ot_sender session_id seed enc_proofs nonce =
      ote_receiver_init_phase2 ot_sender session_id seed enc_proofs >>= λ ote_receiver.
      ok (record { public_gadget = gadget_of session_id nonce; ote_receiver = ote_receiver })

  -- The loop that adds the gadget's entries at the set bits, for a vector that has them all.
  unfoldable pub pad_loop : B.Scalar → ℕ → ℕ → List B.Scalar → (ℕ → Bool) → B.Scalar
  pad_loop b i zero public_gadget bits = b
  pad_loop b i (suc n) public_gadget bits =
      pad_loop (if bits i then b ⊕ at B.zero public_gadget i else b) (suc i) n public_gadget bits

  -- The choice bits are drawn, and the extra ones of the OT extension. The loop reads the gadget
  -- vector at all indices, whatever the bits are, and panics if one is missing.
  unfoldable pub mul_receiver_run_phase1 :
      (ℕ → Bool)
      → (ℕ → Bool)
      → MulReceiver B
      → Bytes
      → Result MulFailure (B.Scalar × MulDataToKeepReceiver B × OteDataToSender)
  mul_receiver_run_phase1 bits extra receiver session_id =
      let choice_bits = table batch_size bits in
      let b = pad_loop B.zero 0 batch_size receiver.public_gadget bits in
      fail_if (too_short receiver.public_gadget batch_size) mul_panics
      >> map_from_ot (
          ote_receiver_run_phase1 extra receiver.ote_receiver (ote_session_id session_id)
            choice_bits)
      >>= λ result.
          let transcript = transcript_of result.1 in
          ok (
            b,
            record {
              b = b;
              choice_bits = choice_bits;
              extended_seeds = result.0;
              chi_tilde = chi_tilde_of session_id transcript;
              chi_hat = chi_hat_of session_id transcript;
            },
            result.1,
          )

  -- An entry of the matrix r, adjusted at the set bits.
  unfoldable pub receiver_entry :
      MulDataToKeepReceiver B
      → List B.Scalar
      → List (List B.Scalar)
      → List (List B.Scalar)
      → ℕ
      → ℕ
      → B.Scalar
  receiver_entry kept verify_u z_tilde z_hat i j =
      let entry =
        B.neg (at B.zero kept.chi_tilde i ⊗ cell z_tilde i j)
        ⊖ at B.zero kept.chi_hat i ⊗ cell z_hat i j in
      if at false kept.choice_bits j then entry ⊕ at B.zero verify_u i else entry

  -- The shared random values panic before the consistency check if they are too few, and the gadget
  -- vector after it.
  unfoldable pub mul_receiver_run_phase2 :
      MulReceiver B
      → Bytes
      → MulDataToKeepReceiver B
      → MulDataToReceiver B
      → Result MulFailure (List B.Scalar)
  mul_receiver_run_phase2 receiver session_id kept received =
      fail_if (not (length received.verify_u == l) || not (length received.gamma_sender == l))
        (mul_fails (mul_malformed "Received data has incorrect dimensions"))
      >> map_from_ot (
          ote_receiver_run_phase2 (ote_session_id session_id) ot_width kept.choice_bits
            kept.extended_seeds received.vector_of_tau)
      >>= λ ot_outputs.
          let z_tilde = take l ot_outputs in
          let z_hat = drop l ot_outputs in
          let expected_verify_r =
            verify_r_of session_id (receiver_entry kept received.verify_u z_tilde z_hat) in
          fail_if (too_short kept.chi_tilde l || too_short kept.chi_hat l) mul_panics
          >> fail_if (not (bytes_eq received.verify_r expected_verify_r)) (
              mul_fails (
                mul_consistency
                  "Sender cheated in multiplication protocol: Consistency check failed!"))
          >> fail_if (too_short receiver.public_gadget batch_size) mul_panics
          >> ok (
              table l (λ i.
                kept.b ⊗ at B.zero received.gamma_sender i
                ⊕ gadget_sum receiver.public_gadget z_tilde i))

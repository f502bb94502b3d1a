-- ===== src/Utilities/Multiplication/Sender.antt =====
-- `MulSender` of dkls23-core/src/utilities/multiplication.rs.
use kawasekit_dkls.Prelude.{
  ℕ, List, ◌++◌, Bool, Bytes, take, drop, table, at, Result, ok, ◌>>=◌, ◌>>◌, ◌||◌, fail_if,
}
use kawasekit_dkls.Backend.{Backend, ◌⊕◌, ◌⊖◌, ◌⊗◌}
use kawasekit_dkls.Utilities.Proofs.DLog.{DLogProof}
use kawasekit_dkls.Utilities.Proofs.Enc.{EncProof}
use kawasekit_dkls.Utilities.Ot.{ErrorOt}
use kawasekit_dkls.Utilities.Ot.Base.{OtReceiver, ReceiverDraws}
use kawasekit_dkls.Utilities.Ot.Extension.{batch_size, OteDataToSender}
use kawasekit_dkls.Utilities.Ot.Extension.Sender.{
  ote_sender_init_phase1, ote_sender_init_phase2, ote_sender_run,
}
use kawasekit_dkls.Utilities.Multiplication.{
  l, ot_width, MulSender, MulDataToReceiver, MulFailure, mul_panics, too_short, map_from_ot,
  ote_session_id, transcript_of, gadget_of, chi_tilde_of, chi_hat_of, cell, verify_r_of, gadget_sum,
}

module _ ⦃B : Backend⦄ where
  unfoldable pub mul_sender_init_phase1 :
      Bytes
      → (ℕ → ReceiverDraws B)
      → (ℕ → Bool)
      → Bytes
      → Result ErrorOt (OtReceiver × List Bool × List B.Scalar × List (EncProof B))
  mul_sender_init_phase1 seed draws correlation_bits session_id =
      ote_sender_init_phase1 seed draws correlation_bits session_id

  unfoldable pub mul_sender_init_phase2 :
      OtReceiver
      → Bytes
      → List Bool
      → List B.Scalar
      → DLogProof B
      → B.Scalar
      → Result ErrorOt (MulSender B)
  mul_sender_init_phase2 ot_receiver session_id correlation vec_r dlog_proof nonce =
      ote_sender_init_phase2 ot_receiver session_id correlation vec_r dlog_proof >>= λ ote_sender.
      ok (record { public_gadget = gadget_of session_id nonce; ote_sender = ote_sender })

  -- `BATCH_SIZE` copies of each pad, then of each check value.
  unfoldable pub correlations_of : List B.Scalar → List B.Scalar → List (List B.Scalar)
  correlations_of a_tilde a_hat =
      table l (λ i. table batch_size (λ _. at B.zero a_tilde i))
      ++ table l (λ i. table batch_size (λ _. at B.zero a_hat i))

  -- An entry of the matrix r.
  unfoldable pub sender_entry :
      List B.Scalar → List B.Scalar → List (List B.Scalar) → List (List B.Scalar) → ℕ → ℕ → B.Scalar
  sender_entry chi_tilde chi_hat z_tilde z_hat i j =
      at B.zero chi_tilde i ⊗ cell z_tilde i j ⊕ at B.zero chi_hat i ⊗ cell z_hat i j

  -- The pads and the check values are drawn. After the OT extension, an input or a gadget vector
  -- that is too short panics at its first missing element, and nothing else can end the run.
  unfoldable pub mul_sender_run :
      (ℕ → B.Scalar)
      → (ℕ → B.Scalar)
      → MulSender B
      → Bytes
      → List B.Scalar
      → OteDataToSender
      → Result MulFailure (List B.Scalar × MulDataToReceiver B)
  mul_sender_run pads check_values sender session_id input received =
      let a_tilde = table l pads in
      let a_hat = table l check_values in
      map_from_ot (
        ote_sender_run sender.ote_sender (ote_session_id session_id) ot_width
          (correlations_of a_tilde a_hat) received)
      >>= λ result.
          let z_tilde = take l result.0 in
          let z_hat = drop l result.0 in
          let transcript = transcript_of received in
          let chi_tilde = chi_tilde_of session_id transcript in
          let chi_hat = chi_hat_of session_id transcript in
          fail_if (too_short input l || too_short sender.public_gadget batch_size) mul_panics
          >> ok (
            table l (gadget_sum sender.public_gadget z_tilde),
            record {
              vector_of_tau = result.1;
              verify_r = verify_r_of session_id (sender_entry chi_tilde chi_hat z_tilde z_hat);
              verify_u = table l (λ i.
                  at B.zero chi_tilde i ⊗ at B.zero a_tilde i
                  ⊕ at B.zero chi_hat i ⊗ at B.zero a_hat i);
              gamma_sender = table l (λ i. at B.zero input i ⊖ at B.zero a_tilde i);
            },
          )

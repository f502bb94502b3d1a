-- ===== src/Utilities/Ot/Extension/Receiver.antt =====
-- `OTEReceiver` of dkls23-core/src/utilities/ot/extension.rs.
use kawasekit_dkls.Prelude.{
  ℕ, List, [], ◌++◌, Bool, false, not, ◌||◌, Bytes, ascii, length, concat, ◌==◌, if◌then◌else◌,
  Result, ok, ◌>>=◌, ◌>>◌, fail_if, traverse, table, at, bit_xor,
}
use kawasekit_dkls.Backend.{Backend, ◌⊕◌}
use kawasekit_dkls.Utilities.Proofs.DLog.{DLogProof, DLogDraws, ProofSearchExhausted}
use kawasekit_dkls.Utilities.Proofs.Enc.{EncProof}
use kawasekit_dkls.Utilities.Ot.{ErrorOt, malformed}
use kawasekit_dkls.Utilities.Ot.Base.{
  OtSender, sender_init, sender_run_phase1, sender_run_phase2_batch,
}
use kawasekit_dkls.Utilities.Ot.Extension.{
  kappa, ot_security, batch_size, prg_data_size, OteReceiver, OteDataToSender, compress,
  extend_seeds, chi, randomize,
}
use kawasekit_dkls.Utilities.Ot.Extension.Sender.{weigh, all_have_length}
use kawasekit_dkls.Utilities.Ot.Extension.Transpose.{cut_and_transpose}

-- The matrix u.
unfoldable pub u_matrix : List Bytes → List Bytes → Bytes → List Bytes
u_matrix extended_seeds0 extended_seeds1 compressed_extended_bits = table kappa (λ i.
    table prg_data_size (λ j.
      bit_xor (bit_xor (at 0 (at [] extended_seeds0 i) j) (at 0 (at [] extended_seeds1 i) j))
        (at 0 compressed_extended_bits j)))

module _ ⦃B : Backend⦄ where
  unfoldable pub ote_receiver_init_phase1 :
      ℕ
      → (ℕ → B.Scalar)
      → DLogDraws B
      → Bytes
      → Result ProofSearchExhausted (OtSender B × DLogProof B)
  ote_receiver_init_phase1 tries draw d session_id =
      sender_init tries draw d session_id >>= λ ot_sender.
      ok (ot_sender, sender_run_phase1 ot_sender)

  unfoldable pub ote_receiver_init_phase2 :
      OtSender B → Bytes → Bytes → List (EncProof B) → Result ErrorOt OteReceiver
  ote_receiver_init_phase2 ot_sender session_id seed enc_proofs =
      sender_run_phase2_batch ot_sender session_id seed enc_proofs >>= λ seeds.
      ok (record { seeds0 = seeds.0; seeds1 = seeds.1 })

  -- The extended seeds of both vectors, row by row.
  unfoldable pub receiver_extended_seeds : OteReceiver → Bytes → ℕ → Bytes × Bytes
  receiver_extended_seeds receiver session_id i =
      extend_seeds session_id i (at [] receiver.seeds0 i) (at [] receiver.seeds1 i)

  -- The random choice bits are drawn.
  unfoldable pub ote_receiver_run_phase1 :
      (ℕ → Bool) → OteReceiver → Bytes → List Bool → Result ErrorOt (List Bytes × OteDataToSender)
  ote_receiver_run_phase1 draw receiver session_id choice_bits =
      let extended_choice_bits = choice_bits ++ table ot_security draw in
      let compressed_extended_bits = compress prg_data_size extended_choice_bits in
      let extended_seeds0 = table kappa (λ i. (receiver_extended_seeds receiver session_id i).0) in
      let extended_seeds1 = table kappa (λ i. (receiver_extended_seeds receiver session_id i).1) in
      let u = u_matrix extended_seeds0 extended_seeds1 compressed_extended_bits in
      let msg = concat u in
      let chi1 = chi session_id (ascii "chi1") msg in
      let chi2 = chi session_id (ascii "chi2") msg in
      fail_if (not (length choice_bits == batch_size))
        (malformed "Choice bits vector has incorrect length")
      >> fail_if (not (length receiver.seeds0 == kappa) || not (length receiver.seeds1 == kappa))
          (malformed "OTE receiver seed vectors have incorrect dimensions")
      >> weigh chi1 chi2 compressed_extended_bits
      >>= λ verify_x. traverse (weigh chi1 chi2) extended_seeds0 >>= λ verify_t.
          ok (extended_seeds0, record { u = u; verify_x = verify_x; verify_t = verify_t })

  unfoldable pub v_of : Bytes → ℕ → List Bytes → List (List B.Scalar)
  v_of session_id ot_width transposed_t =
      table ot_width (λ iteration.
        table batch_size (λ j. randomize session_id iteration j (at [] transposed_t j)))

  unfoldable pub t_b_of :
      ℕ → List Bool → List (List B.Scalar) → List (List B.Scalar) → List (List B.Scalar)
  t_b_of ot_width choice_bits vector_of_v vector_of_tau = table ot_width (λ iteration.
      let v = at [] vector_of_v iteration in
      let tau = at [] vector_of_tau iteration in
      table batch_size (λ j.
        let t_b_j = B.neg (at B.zero v j) in
        if at false choice_bits j then at B.zero tau j ⊕ t_b_j else t_b_j))

  unfoldable pub ote_receiver_run_phase2 :
      Bytes
      → ℕ
      → List Bool
      → List Bytes
      → List (List B.Scalar)
      → Result ErrorOt (List (List B.Scalar))
  ote_receiver_run_phase2 session_id ot_width choice_bits extended_seeds vector_of_tau =
      fail_if (not (length choice_bits == batch_size))
        (malformed "Choice bits vector has incorrect length")
      >> fail_if (not (length extended_seeds == kappa))
          (malformed "Extended seed matrix has incorrect dimensions")
      >> fail_if (not (length vector_of_tau == ot_width))
          (malformed "The vector sent by the sender does not have the expected size!")
      >> fail_if (not (all_have_length batch_size vector_of_tau))
          (malformed "Tau vector has incorrect inner length")
      >> cut_and_transpose extended_seeds
      >>= λ transposed_t.
          ok (t_b_of ot_width choice_bits (v_of session_id ot_width transposed_t) vector_of_tau)

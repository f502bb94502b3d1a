-- ===== src/Utilities/Ot/Extension/Sender.antt =====
-- `OTESender` of dkls23-core/src/utilities/ot/extension.rs.
use kawasekit_dkls.Prelude.{
  ℕ, ◌+◌, ◌*◌, ◌/◌, List, [], ◌∷◌, Bool, true, false, not, ◌&&◌, ◌||◌, Bytes, ascii, length, take,
  drop, concat, ◌==◌, Result, ok, ◌>>=◌, ◌>>◌, fail_if, traverse, table, at, bit, bit_xor, bytes_eq,
}
use kawasekit_dkls.Backend.{Backend, ◌⊕◌, ◌⊖◌}
use kawasekit_dkls.Utilities.Proofs.DLog.{DLogProof}
use kawasekit_dkls.Utilities.Proofs.Enc.{EncProof}
use kawasekit_dkls.Utilities.Ot.{ErrorOt, malformed, consistency}
use kawasekit_dkls.Utilities.Ot.Base.{
  OtReceiver, ReceiverDraws, receiver_init, receiver_run_phase1_batch, receiver_run_phase2_batch,
}
use kawasekit_dkls.Utilities.Ot.Extension.{
  kappa, batch_size, prg_data_size, field_size, OteSender, OteDataToSender, compress, extend_seed,
  chi, randomize,
}
use kawasekit_dkls.Utilities.Ot.Extension.FieldMul.{field_mul}
use kawasekit_dkls.Utilities.Ot.Extension.Transpose.{cut_and_transpose}

-- The sum of the products of the first two parts of a row with chi1 and chi2, and the third part.
unfoldable pub weigh : Bytes → Bytes → Bytes → Result ErrorOt Bytes
weigh chi1 chi2 row = field_mul (take field_size row) chi1 >>= λ prod_1.
    field_mul (take field_size (drop field_size row)) chi2 >>= λ prod_2. ok (
      table field_size
        (λ k. bit_xor (bit_xor (at 0 prod_1 k) (at 0 prod_2 k)) (at 0 row (2 * field_size + k))))

-- The comparison with `ct_eq`, over two vectors of one length.
unfoldable pub rows_eq : List Bytes → List Bytes → Bool
rows_eq (x ∷ xs) (y ∷ ys) = bytes_eq x y && rows_eq xs ys
rows_eq xs ys = true

-- The test of the inner lengths of a vector of vectors.
unfoldable pub all_have_length {ℓ} : {A : Type ℓ} → ℕ → List (List A) → Bool
all_have_length n [] = true
all_have_length n (xs ∷ xss) = (length xs == n) && all_have_length n xss

-- The matrix q.
unfoldable pub q_matrix : List Bool → List Bytes → List Bytes → List Bytes
q_matrix correlation u extended_seeds = table kappa (λ i. table prg_data_size (λ j.
    bit_xor (bit (at false correlation i) * at 0 (at [] u i) j) (at 0 (at [] extended_seeds i) j)))

unfoldable pub verify_sender : List Bool → OteDataToSender → List Bytes
verify_sender correlation received = table kappa (λ i. table field_size (λ k.
    bit_xor (at 0 (at [] received.verify_t i) k)
      (bit (at false correlation i) * at 0 received.verify_x k)))

-- A row of the transposed matrix, plus the correlation.
unfoldable pub plus_correlation : List Bool → Bytes → Bytes
plus_correlation correlation row =
    let compressed_correlation = compress (kappa / 8) correlation in
    table (kappa / 8) (λ i. bit_xor (at 0 row i) (at 0 compressed_correlation i))

module _ ⦃B : Backend⦄ where
  -- Random draws: those of the base OT, and the correlation.
  unfoldable pub ote_sender_init_phase1 :
      Bytes
      → (ℕ → ReceiverDraws B)
      → (ℕ → Bool)
      → Bytes
      → Result ErrorOt (OtReceiver × List Bool × List B.Scalar × List (EncProof B))
  ote_sender_init_phase1 seed draws correlation_bits session_id =
      let ot_receiver = receiver_init seed in
      let correlation = table kappa correlation_bits in
      receiver_run_phase1_batch draws ot_receiver session_id correlation >>= λ sent.
      ok (ot_receiver, correlation, sent.0, sent.1)

  unfoldable pub ote_sender_init_phase2 :
      OtReceiver → Bytes → List Bool → List B.Scalar → DLogProof B → Result ErrorOt OteSender
  ote_sender_init_phase2 ot_receiver session_id correlation vec_r dlog_proof =
      receiver_run_phase2_batch session_id vec_r dlog_proof >>= λ seeds.
      ok (record { correlation = correlation; seeds = seeds })

  unfoldable pub sender_extended_seeds : OteSender → Bytes → List Bytes
  sender_extended_seeds sender session_id =
      table kappa (λ i. extend_seed session_id i (at [] sender.seeds i))

  unfoldable pub v0_of : Bytes → ℕ → List Bytes → List (List B.Scalar)
  v0_of session_id ot_width transposed_q =
      table ot_width (λ iteration.
        table batch_size (λ j. randomize session_id iteration j (at [] transposed_q j)))

  unfoldable pub v1_of : Bytes → ℕ → List Bool → List Bytes → List (List B.Scalar)
  v1_of session_id ot_width correlation transposed_q = table ot_width (λ iteration.
      table batch_size (λ j.
        randomize session_id iteration j (plus_correlation correlation (at [] transposed_q j))))

  unfoldable pub tau_of :
      ℕ → List (List B.Scalar) → List (List B.Scalar) → List (List B.Scalar) → List (List B.Scalar)
  tau_of ot_width vector_of_v0 vector_of_v1 input_correlations = table ot_width (λ iteration.
      let v0 = at [] vector_of_v0 iteration in
      let v1 = at [] vector_of_v1 iteration in
      let input_correlation = at [] input_correlations iteration in
      table batch_size (λ j. at B.zero v1 j ⊖ at B.zero v0 j ⊕ at B.zero input_correlation j))

  -- The consistency check.
  unfoldable pub check_rows :
      OteSender → Bytes → OteDataToSender → List Bytes → Result ErrorOt (Unit {0})
  check_rows sender session_id received q =
      let msg = concat received.u in
      traverse (weigh (chi session_id (ascii "chi1") msg) (chi session_id (ascii "chi2") msg)) q
      >>= λ verify_q.
          fail_if (not (rows_eq verify_q (verify_sender sender.correlation received)))
            (consistency "Receiver cheated in OTE: Consistency check failed!")

  unfoldable pub check_dimensions :
      OteSender → ℕ → List (List B.Scalar) → OteDataToSender → Result ErrorOt (Unit {0})
  check_dimensions sender ot_width input_correlations received =
      fail_if (not (length input_correlations == ot_width))
        (malformed "The vector of input correlations does not have the expected size!")
      >> fail_if (not (all_have_length batch_size input_correlations))
          (malformed "A correlation vector has incorrect inner length")
      >> fail_if (not (length sender.correlation == kappa) || not (length sender.seeds == kappa))
          (malformed "OTE sender state has incorrect dimensions")
      >> fail_if (not (length received.u == kappa) || not (length received.verify_t == kappa))
          (malformed "OTE data has incorrect dimensions")

  unfoldable pub ote_sender_run :
      OteSender
      → Bytes
      → ℕ
      → List (List B.Scalar)
      → OteDataToSender
      → Result ErrorOt (List (List B.Scalar) × List (List B.Scalar))
  ote_sender_run sender session_id ot_width input_correlations received =
      let q = q_matrix sender.correlation received.u (sender_extended_seeds sender session_id) in
      check_dimensions sender ot_width input_correlations received
      >> check_rows sender session_id received q
      >> cut_and_transpose q
      >>= λ transposed_q.
          let vector_of_v0 = v0_of session_id ot_width transposed_q in
          let vector_of_v1 = v1_of session_id ot_width sender.correlation transposed_q in
          ok (vector_of_v0, tau_of ot_width vector_of_v0 vector_of_v1 input_correlations)

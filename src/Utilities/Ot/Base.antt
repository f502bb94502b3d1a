-- ===== src/Utilities/Ot/Base.antt =====
-- dkls23-core/src/utilities/ot/base.rs: the endemic base OT. Random draws are arguments.
pub mod Agree
use kawasekit_dkls.Prelude.{
  ℕ, suc, List, [], ◌∷◌, ◌++◌, Bool, true, false, not, ◌||◌, Bytes, length, to_be_bytes, ltb,
  if◌then◌else◌, Result, ok, err, ◌>>=◌, ◌>>◌, fail_if,
}
use kawasekit_dkls.Backend.{Backend, ◌⊞◌, ◌•◌, ◌=ₚ◌}
use kawasekit_dkls.Utilities.OracleTags.{tag_ot_base_h, tag_ot_base_msg}
use kawasekit_dkls.Utilities.Hashes.{tagged_hash, tagged_hash_as_scalar, point_to_bytes}
use kawasekit_dkls.Utilities.Proofs.{nonzero_draw}
use kawasekit_dkls.Utilities.Proofs.DLog.{DLogProof, DLogDraws, ProofSearchExhausted, prove, verify}
use kawasekit_dkls.Utilities.Proofs.Enc.{EncProof, enc_prove, enc_verify, get_u_and_v}
use kawasekit_dkls.Utilities.Ot.{ErrorOt, malformed}

pub record OtSender (B : Backend) : Type 0 where
  pub s : B.Scalar
  pub proof : DLogProof B

pub record OtReceiver : Type 0 where
  pub seed : Bytes

-- The draws of one run of the receiver: the scalar, and those of the encryption proof.
pub record ReceiverDraws (B : Backend) : Type 0 where
  pub r : B.Scalar
  pub tries : ℕ
  pub nonce : ℕ → B.Scalar
  pub fake_challenge : B.Scalar
  pub fake_response : B.Scalar

module _ ⦃B : Backend⦄ where
  -- `h`, from the receiver's seed.
  unfoldable pub base_h_of : Bytes → Bytes → B.Point
  base_h_of session_id seed =
      B.generator • tagged_hash_as_scalar tag_ot_base_h (session_id ∷ seed ∷ [])

  unfoldable pub sender_init :
      ℕ → (ℕ → B.Scalar) → DLogDraws B → Bytes → Result ProofSearchExhausted (OtSender B)
  sender_init tries draw d session_id =
      let s = nonzero_draw tries draw in
      prove s session_id d >>= λ proof. ok (record { s = s; proof = proof })

  unfoldable pub sender_run_phase1 : OtSender B → DLogProof B
  sender_run_phase1 sender = sender.proof

  unfoldable pub sender_run_phase2 :
      OtSender B → Bytes → Bytes → EncProof B → Result ErrorOt (Bytes × Bytes)
  sender_run_phase2 sender session_id seed enc_proof =
      let h = base_h_of session_id seed in
      let verification = enc_verify enc_proof session_id in
      let v = (get_u_and_v enc_proof).1 in
      let value_for_m0 = v • sender.s in
      let value_for_m1 = (v ⊞ B.point_neg h) • sender.s in
      if not verification || not (h =ₚ enc_proof.proof0.base_h)
      then err (malformed "Receiver cheated in OT: Encryption proof failed!")
      else ok (
        tagged_hash tag_ot_base_msg (session_id ∷ point_to_bytes value_for_m0 ∷ []),
        tagged_hash tag_ot_base_msg (session_id ∷ point_to_bytes value_for_m1 ∷ []),
      )

  -- The id of the i-th iteration of a batch.
  unfoldable pub batch_sid : ℕ → Bytes → Bytes
  batch_sid i session_id = to_be_bytes 2 i ++ session_id

  -- `u16::try_from(len)`
  abbrev pub fits_u16 : ℕ → Bool
  fits_u16 n = ltb n 65536

  unfoldable pub sender_batch_from :
      OtSender B → Bytes → Bytes → ℕ → List (EncProof B) → Result ErrorOt (List Bytes × List Bytes)
  sender_batch_from sender session_id seed i [] = ok ([], [])
  sender_batch_from sender session_id seed i (p ∷ ps) =
      let rest = sender_batch_from sender session_id seed (suc i) ps in
      sender_run_phase2 sender (batch_sid i session_id) seed p >>= λ m.
      rest >>= λ ms. ok (m.0 ∷ ms.0, m.1 ∷ ms.1)

  unfoldable pub sender_run_phase2_batch :
      OtSender B → Bytes → Bytes → List (EncProof B) → Result ErrorOt (List Bytes × List Bytes)
  sender_run_phase2_batch sender session_id seed enc_proofs =
      if fits_u16 (length enc_proofs)
      then sender_batch_from sender session_id seed 0 enc_proofs
      else err (malformed "Batch size exceeds maximum (65535)")

  unfoldable pub receiver_init : Bytes → OtReceiver
  receiver_init seed = record { seed = seed }

  unfoldable pub receiver_run_phase1 :
      ReceiverDraws B → OtReceiver → Bytes → Bool → B.Scalar × EncProof B
  receiver_run_phase1 d receiver session_id bit =
      let h = base_h_of session_id receiver.seed in
      (d.r, enc_prove d.tries d.nonce d.fake_challenge d.fake_response session_id h d.r bit)

  unfoldable pub receiver_batch_from :
      (ℕ → ReceiverDraws B) → OtReceiver → Bytes → ℕ → List Bool → List B.Scalar × List (EncProof B)
  receiver_batch_from d receiver session_id i [] = ([], [])
  receiver_batch_from d receiver session_id i (bit ∷ bits) =
      let (r, proof) = receiver_run_phase1 (d i) receiver (batch_sid i session_id) bit in
      let (vec_r, vec_proof) = receiver_batch_from d receiver session_id (suc i) bits in
      (r ∷ vec_r, proof ∷ vec_proof)

  unfoldable pub receiver_run_phase1_batch :
      (ℕ → ReceiverDraws B)
      → OtReceiver
      → Bytes
      → List Bool
      → Result ErrorOt (List B.Scalar × List (EncProof B))
  receiver_run_phase1_batch d receiver session_id bits =
      if fits_u16 (length bits)
      then ok (receiver_batch_from d receiver session_id 0 bits)
      else err (malformed "Batch size exceeds maximum (65535)")

  unfoldable pub receiver_run_phase2_step1 : Bytes → DLogProof B → Result ErrorOt B.Point
  receiver_run_phase2_step1 session_id dlog_proof =
      if verify dlog_proof session_id
      then ok dlog_proof.point
      else err (malformed "Sender cheated in OT: Proof of discrete logarithm failed!")

  unfoldable pub receiver_run_phase2_step2 : Bytes → B.Scalar → B.Point → Bytes
  receiver_run_phase2_step2 session_id r z =
      tagged_hash tag_ot_base_msg (session_id ∷ point_to_bytes (z • r) ∷ [])

  unfoldable pub receiver_messages_from : Bytes → B.Point → ℕ → List B.Scalar → List Bytes
  receiver_messages_from session_id z i [] = []
  receiver_messages_from session_id z i (r ∷ rs) =
      receiver_run_phase2_step2 (batch_sid i session_id) r z
      ∷ receiver_messages_from session_id z (suc i) rs

  unfoldable pub receiver_run_phase2_batch :
      Bytes → List B.Scalar → DLogProof B → Result ErrorOt (List Bytes)
  receiver_run_phase2_batch session_id vec_r dlog_proof =
      receiver_run_phase2_step1 session_id dlog_proof >>= λ z.
      if fits_u16 (length vec_r)
      then ok (receiver_messages_from session_id z 0 vec_r)
      else err (malformed "Batch size exceeds maximum (65535)")

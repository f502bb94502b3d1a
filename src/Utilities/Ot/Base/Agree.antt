-- ===== src/Utilities/Ot/Base/Agree.antt =====
-- The two sides of the base OT agree on the chosen message.
use kawasekit_dkls.Prelude.{
  ◌≡◌, ◌≢◌, refl, sym, ap, ◌∙◌, Bool, true, false, [], ◌∷◌, Bytes, if◌then◌else◌, ok,
}
use kawasekit_dkls.Backend.{Backend, FieldLaws, GroupLaws, ◌⊞◌, ◌•◌}
use kawasekit_dkls.Backend.Ring.{mul_comm, point_add_assoc, point_add_comm, point_add-identity}
use kawasekit_dkls.Utilities.OracleTags.{tag_ot_base_msg}
use kawasekit_dkls.Utilities.Hashes.{tagged_hash, point_to_bytes}
use kawasekit_dkls.Utilities.Proofs.Enc.{
  EncProof, enc_prove, enc_verify, get_u_and_v, cp_simulate, cp_prove_step1, cp_prove_step2,
}
use kawasekit_dkls.Utilities.Proofs.Enc.Complete.{enc_prove-verify}
use kawasekit_dkls.Utilities.Ot.Base.{
  OtSender, OtReceiver, ReceiverDraws, base_h_of, sender_run_phase2, receiver_run_phase1,
  receiver_run_phase2_step2,
}

module _ ⦃B : Backend⦄ ⦃L : FieldLaws B⦄ ⦃G : GroupLaws B⦄ where
  -- No point that the receiver shows in a session is the point at infinity.
  pub record NonTrivial (sid seed : Bytes) (r : B.Scalar) (bit : Bool) : Type 0 where
    pub h_ne : base_h_of sid seed ≢ B.identity
    pub u_ne : base_h_of sid seed • r ≢ B.identity
    pub g_ne : B.generator • r ≢ B.identity
    pub fake_ne :
        (if bit
          then B.generator • r ⊞ base_h_of sid seed
          else B.generator • r ⊞ B.point_neg (base_h_of sid seed))
        ≢ B.identity

  exchange : (r s : B.Scalar) → B.generator • r • s ≡ B.generator • s • r
  exchange r s =
      sym (G.point_mul-mul _ r s) ∙ ap (λ t. B.generator • t) (mul_comm r s) ∙ G.point_mul-mul _ s r

  cancel : (p h : B.Point) → p ⊞ h ⊞ B.point_neg h ≡ p
  cancel p h =
      point_add_assoc p h _
      ∙ ap (λ t. p ⊞ t) (point_add_comm h _ ∙ G.point_neg-point_add h)
      ∙ point_add-identity p

  -- The sender's two messages for a point of the receiver.
  message : Bytes → B.Point → Bytes
  message sid p = tagged_hash tag_ot_base_msg (sid ∷ point_to_bytes p ∷ [])

  sender_accepts :
      (sender : OtSender B) (sid seed : Bytes) (p : EncProof B)
      → enc_verify p sid ≡ true
      → base_h_of sid seed ≡ p.proof0.base_h
      → sender_run_phase2 sender sid seed p
        ≡ ok (
          message sid (p.proof0.point_u • sender.s),
          message sid ((p.proof0.point_u ⊞ B.point_neg (base_h_of sid seed)) • sender.s),
        )
  unfolding sender_run_phase2 get_u_and_v message
  sender_accepts sender sid seed p hv hb =
      rw (hv, (G.eq_point_iff (base_h_of sid seed) p.proof0.base_h).1 hb)

  -- For either choice bit, the sender's phase 2 accepts the proof of the receiver's phase 1 in
  -- the same session, and the message that the receiver computes in phase 2 from the point
  -- `generator * s` of the sender is the sender's second message if the bit is set and his first
  -- if not. The condition is that no point that the receiver shows is the point at infinity.
  pub base_ot_agree :
      (sender : OtSender B) (receiver : OtReceiver) (d : ReceiverDraws B) (sid : Bytes) (bit : Bool)
      → NonTrivial sid receiver.seed d.r bit
      → let (r, proof) = receiver_run_phase1 d receiver sid bit in
        (m0 : Bytes) × (m1 : Bytes) × (sender_run_phase2 sender sid receiver.seed proof
          ≡ ok (m0, m1))
        × ((if bit then m1 else m0) ≡ receiver_run_phase2_step2 sid r (B.generator • sender.s))
  unfolding receiver_run_phase1 receiver_run_phase2_step2 message enc_prove cp_simulate
      cp_prove_step1 cp_prove_step2
  base_ot_agree sender receiver d sid true n =
      let h = base_h_of sid receiver.seed in
      (
        _,
        _,
        sender_accepts sender sid receiver.seed
            (enc_prove d.tries d.nonce d.fake_challenge d.fake_response sid h d.r true)
            (enc_prove-verify d.tries d.nonce d.fake_challenge d.fake_response sid h d.r true n.h_ne
              n.u_ne n.g_ne n.fake_ne)
            refl,
        ap (message sid) (ap (λ t. t • sender.s) (cancel _ h) ∙ exchange d.r sender.s),
      )
  base_ot_agree sender receiver d sid false n =
      let h = base_h_of sid receiver.seed in
      (
        _,
        _,
        sender_accepts sender sid receiver.seed
            (enc_prove d.tries d.nonce d.fake_challenge d.fake_response sid h d.r false)
            (enc_prove-verify d.tries d.nonce d.fake_challenge d.fake_response sid h d.r false
              n.h_ne n.u_ne n.g_ne n.fake_ne)
            refl,
        ap (message sid) (exchange d.r sender.s),
      )

-- ===== src/Utilities/Proofs/Enc/Sound.antt =====
-- Special soundness of the Chaum-Pedersen protocol: a prover who can answer two challenges for
-- one commitment knows the witness.
use kawasekit_dkls.Prelude.{◌≡◌, ◌≢◌, sym, ◌∙◌, true, arith}
use kawasekit_dkls.Backend.{Backend, FieldLaws, GroupLaws, ◌⊖◌, ◌⊞◌, ◌•◌}
use kawasekit_dkls.Backend.Ring.{sub_zero→eq}
use kawasekit_dkls.Utilities.Proofs.Schnorr.{witness, extracts}
use kawasekit_dkls.Utilities.Proofs.Enc.{RandomCommitments, CpProof, cp_verify}

module _ ⦃B : Backend⦄ ⦃L : FieldLaws B⦄ ⦃G : GroupLaws B⦄ where
  -- What an accepted proof satisfies.
  cp_equations :
      (p : CpProof B) (rc : RandomCommitments B) (c : B.Scalar)
      → cp_verify p rc c ≡ true
      → (p.base_g • p.challenge_response ⊞ p.point_u • c ≡ rc.rc_g)
        × (p.base_h • p.challenge_response ⊞ p.point_v • c ≡ rc.rc_h)
  unfolding cp_verify
  cp_equations p rc c h =
      ((G.eq_point_iff _ _).0 (ground arith), (G.eq_point_iff _ _).0 (ground arith))

  -- If `CPProof::verify` accepts two proofs of one statement, with the same commitments and with
  -- different challenges, then some scalar takes `base_g` to `point_u` and `base_h` to `point_v`.
  pub cp_special_soundness :
      (p q : CpProof B) (rc : RandomCommitments B) (c d : B.Scalar)
      → q.base_g ≡ p.base_g
      → q.base_h ≡ p.base_h
      → q.point_u ≡ p.point_u
      → q.point_v ≡ p.point_v
      → c ≢ d
      → cp_verify p rc c ≡ true
      → cp_verify q rc d ≡ true
      → (w : B.Scalar) × (p.point_u ≡ p.base_g • w) × (p.point_v ≡ p.base_h • w)
  cp_special_soundness p q rc c d eg eh eu ev differ hp hq =
      let (i, _, inv) = L.invert_ne (c ⊖ d) (λ z. differ (sub_zero→eq c d z)) in
      let (pg, ph) = cp_equations p rc c hp in
      let (qg, qh) = cp_equations q rc d hq in
      (
        witness p.challenge_response q.challenge_response i,
        extracts p.base_g p.point_u _ c _ d i inv (pg ∙ sym (rw (eg, eu) at qg)),
        extracts p.base_h p.point_v _ c _ d i inv (ph ∙ sym (rw (eh, ev) at qh)),
      )

-- ===== src/Utilities/Proofs/Enc/Complete.antt =====
-- Honest and simulated encryption proofs verify, and a cheating prover would have to give away
-- the witness.
use kawasekit_dkls.Prelude.{
  ℕ, [], ◌∷◌, ◌≡◌, ◌≢◌, refl, sym, ap, ◌∙◌, Bool, true, false, Bytes, if◌then◌else◌, arith,
}
use kawasekit_dkls.Backend.{Backend, FieldLaws, GroupLaws, ◌⊕◌, ◌⊞◌, ◌•◌}
use kawasekit_dkls.Backend.Ring.{
  add_comm, eq_point_refl, eq_point_false, point_add_assoc, point_add-identity,
}
use kawasekit_dkls.Utilities.OracleTags.{tag_encproof_fs}
use kawasekit_dkls.Utilities.Hashes.{tagged_hash_as_scalar}
use kawasekit_dkls.Utilities.Proofs.Schnorr.{schnorr, sub-add}
use kawasekit_dkls.Utilities.Proofs.{nonzero_draw}
use kawasekit_dkls.Utilities.Proofs.Enc.{
  RandomCommitments, CpProof, EncProof, cp_prove_step1, cp_prove_step2, cp_verify, cp_simulate,
  enc_prove, enc_verify, incompatible, msg_for_challenge,
}

module _ ⦃B : Backend⦄ ⦃L : FieldLaws B⦄ ⦃G : GroupLaws B⦄ where
  -- `cp_verify` accepts when no point is trivial and both equations hold.
  cp_accepts :
      (p : CpProof B) (rc : RandomCommitments B) (challenge : B.Scalar)
      → p.point_u ≢ B.identity
      → p.point_v ≢ B.identity
      → p.base_h ≢ B.identity
      → p.base_g • p.challenge_response ⊞ p.point_u • challenge ≡ rc.rc_g
      → p.base_h • p.challenge_response ⊞ p.point_v • challenge ≡ rc.rc_h
      → cp_verify p rc challenge ≡ true
  unfolding cp_verify
  cp_accepts p rc challenge hu hv hh eg eh = rw (
    eq_point_false p.point_u B.identity hu,
    eq_point_false p.point_v B.identity hv,
    eq_point_false p.base_h B.identity hh,
    eg,
    eh,
    eq_point_refl rc.rc_g,
    eq_point_refl rc.rc_h,
  )

  cp_prove-verify :
      (g h : B.Point) (scalar nonce challenge : B.Scalar)
      → g • scalar ≢ B.identity
      → h • scalar ≢ B.identity
      → h ≢ B.identity
      → cp_verify
          (cp_prove_step2 g h scalar nonce challenge)
          (record { rc_g = g • nonce; rc_h = h • nonce })
          challenge
        ≡ true
  unfolding cp_prove_step2
  cp_prove-verify g h scalar nonce challenge hu hv hh =
      cp_accepts _ _ challenge hu hv hh (schnorr g nonce challenge scalar)
        (schnorr h nonce challenge scalar)

  cp_simulate-verify :
      (challenge response : B.Scalar) (g h u v : B.Point)
      → u ≢ B.identity
      → v ≢ B.identity
      → h ≢ B.identity
      → let (rc, c, p) = cp_simulate challenge response g h u v in cp_verify p rc c ≡ true
  unfolding cp_simulate
  cp_simulate-verify challenge response g h u v hu hv hh =
      cp_accepts _ _ challenge hu hv hh refl refl

  -- `incompatible` accepts proofs of one statement.
  compatible :
      (e : EncProof B)
      → e.proof0.base_g ≡ B.generator
      → e.proof0.base_g ≡ e.proof1.base_g
      → e.proof0.base_h ≡ e.proof1.base_h
      → e.proof0.point_v ≡ e.proof1.point_v
      → e.proof0.point_u ≡ e.proof1.point_u ⊞ e.proof1.base_h
      → incompatible e ≡ false
  unfolding incompatible
  compatible e hg hg' hh hv hu = ground (
    arith,
    (G.eq_point_iff e.proof0.base_g B.generator).1 hg,
    (G.eq_point_iff e.proof0.base_g e.proof1.base_g).1 hg',
    (G.eq_point_iff e.proof0.base_h e.proof1.base_h).1 hh,
    (G.eq_point_iff e.proof0.point_v e.proof1.point_v).1 hv,
    (G.eq_point_iff e.proof0.point_u (e.proof1.point_u ⊞ e.proof1.base_h)).1 hu,
  )

  -- The challenge that `enc_verify` computes.
  expected : EncProof B → Bytes → B.Scalar
  expected e sid = tagged_hash_as_scalar tag_encproof_fs (
      sid
      ∷ msg_for_challenge e.proof0.base_g e.proof0.base_h e.proof0.point_v e.proof0.point_u
          e.commitments0 e.commitments1
      ∷ [])

  enc_accepts :
      (e : EncProof B) (sid : Bytes)
      → incompatible e ≡ false
      → expected e sid ≡ e.challenge0 ⊕ e.challenge1
      → cp_verify e.proof0 e.commitments0 e.challenge0 ≡ true
      → cp_verify e.proof1 e.commitments1 e.challenge1 ≡ true
      → enc_verify e sid ≡ true
  unfolding enc_verify expected
  enc_accepts e sid hi hc h0 h1 =
      ground (arith, (L.eq_scalar_iff (expected e sid) (e.challenge0 ⊕ e.challenge1)).1 hc)

  -- The proof of `EncProof::prove` for either bit is accepted by `EncProof::verify` in the same
  -- session, whatever was drawn, unless one of the points that it shows is the point at infinity.
  pub enc_prove-verify :
      (tries : ℕ) (draw : ℕ → B.Scalar) (fake_challenge fake_response : B.Scalar) (sid : Bytes)
      (h : B.Point) (scalar : B.Scalar) (bit : Bool)
      → h ≢ B.identity
      → h • scalar ≢ B.identity
      → B.generator • scalar ≢ B.identity
      → (if bit then B.generator • scalar ⊞ h else B.generator • scalar ⊞ B.point_neg h)
        ≢ B.identity
      → enc_verify (enc_prove tries draw fake_challenge fake_response sid h scalar bit) sid ≡ true
  unfolding enc_prove cp_simulate cp_prove_step1 cp_prove_step2
  enc_prove-verify tries draw fc fr sid h scalar true hh hu hg hf =
      let e = enc_prove tries draw fc fr sid h scalar true in
      enc_accepts e sid (compatible e refl refl refl refl refl)
        (unfold expected in sym (add_comm _ _ ∙ sub-add _ fc))
        (cp_simulate-verify fc fr B.generator h _ _ hf hu hh)
        (cp_prove-verify B.generator h scalar (nonzero_draw tries draw) _ hg hu hh)
  enc_prove-verify tries draw fc fr sid h scalar false hh hu hg hf =
      let e = enc_prove tries draw fc fr sid h scalar false in
      enc_accepts e sid (compatible e refl refl refl refl back)
        (unfold expected in sym (sub-add _ fc))
        (cp_prove-verify B.generator h scalar (nonzero_draw tries draw) _ hg hu hh)
        (cp_simulate-verify fc fr B.generator h _ _ hf hu hh)
    where
      back : B.generator • scalar ≡ B.generator • scalar ⊞ B.point_neg h ⊞ h
      back = sym (
          point_add_assoc _ _ h
          ∙ ap (λ t. B.generator • scalar ⊞ t) (G.point_neg-point_add h)
          ∙ point_add-identity _)

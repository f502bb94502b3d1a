-- ===== src/Utilities/Proofs/Enc.antt =====
-- dkls23-core/src/utilities/proofs.rs, `CPProof` and `EncProof`: the Chaum-Pedersen protocol and
-- the OR-composition for the base OT. Random draws are arguments.
pub mod Complete
pub mod Sound
use kawasekit_dkls.Prelude.{
  ℕ, List, [], ◌∷◌, Bool, true, false, not, ◌&&◌, ◌||◌, Bytes, concat, if◌then◌else◌,
}
use kawasekit_dkls.Backend.{Backend, ◌⊕◌, ◌⊖◌, ◌⊗◌, ◌⊞◌, ◌•◌, ◌=ₛ◌, ◌=ₚ◌}
use kawasekit_dkls.Utilities.OracleTags.{tag_encproof_fs}
use kawasekit_dkls.Utilities.Hashes.{tagged_hash_as_scalar, point_to_bytes}
use kawasekit_dkls.Utilities.Proofs.{nonzero_draw}

pub record RandomCommitments (B : Backend) : Type 0 where
  pub rc_g : B.Point
  pub rc_h : B.Point

pub record CpProof (B : Backend) : Type 0 where
  pub base_g : B.Point
  pub base_h : B.Point
  pub point_u : B.Point
  pub point_v : B.Point
  pub challenge_response : B.Scalar

pub record EncProof (B : Backend) : Type 0 where
  pub proof0 : CpProof B
  pub proof1 : CpProof B
  pub commitments0 : RandomCommitments B
  pub commitments1 : RandomCommitments B
  pub challenge0 : B.Scalar
  pub challenge1 : B.Scalar

module _ ⦃B : Backend⦄ where
  unfoldable pub cp_prove_step1 :
      ℕ → (ℕ → B.Scalar) → B.Point → B.Point → B.Scalar × RandomCommitments B
  cp_prove_step1 tries draw base_g base_h =
      let scalar_rand_commitment = nonzero_draw tries draw in
      (
        scalar_rand_commitment,
        record { rc_g = base_g • scalar_rand_commitment; rc_h = base_h • scalar_rand_commitment },
      )

  unfoldable pub cp_prove_step2 : B.Point → B.Point → B.Scalar → B.Scalar → B.Scalar → CpProof B
  cp_prove_step2 base_g base_h scalar scalar_rand_commitment challenge = record {
    base_g = base_g;
    base_h = base_h;
    point_u = base_g • scalar;
    point_v = base_h • scalar;
    challenge_response = scalar_rand_commitment ⊖ challenge ⊗ scalar;
  }

  unfoldable pub cp_verify : CpProof B → RandomCommitments B → B.Scalar → Bool
  cp_verify p rc challenge =
      if (p.point_u =ₚ B.identity) || ((p.point_v =ₚ B.identity) || (p.base_h =ₚ B.identity))
      then false
      else ((p.base_g • p.challenge_response ⊞ p.point_u • challenge) =ₚ rc.rc_g)
        && ((p.base_h • p.challenge_response ⊞ p.point_v • challenge) =ₚ rc.rc_h)

  -- The challenge and the response are drawn.
  unfoldable pub cp_simulate :
      B.Scalar
      → B.Scalar
      → B.Point
      → B.Point
      → B.Point
      → B.Point
      → RandomCommitments B × B.Scalar × CpProof B
  cp_simulate challenge challenge_response base_g base_h point_u point_v = (
    record {
      rc_g = base_g • challenge_response ⊞ point_u • challenge;
      rc_h = base_h • challenge_response ⊞ point_v • challenge;
    },
    challenge,
    record {
      base_g = base_g;
      base_h = base_h;
      point_u = point_u;
      point_v = point_v;
      challenge_response = challenge_response;
    },
  )

  -- `msg_for_challenge`: the points, and the commitments of the first and the second proof.
  unfoldable pub msg_for_challenge :
      B.Point → B.Point → B.Point → B.Point → RandomCommitments B → RandomCommitments B → Bytes
  msg_for_challenge base_g base_h u v c0 c1 = concat (
      point_to_bytes base_g
      ∷ point_to_bytes base_h
      ∷ point_to_bytes u
      ∷ point_to_bytes v
      ∷ point_to_bytes c0.rc_g
      ∷ point_to_bytes c0.rc_h
      ∷ point_to_bytes c1.rc_g
      ∷ point_to_bytes c1.rc_h
      ∷ [])

  -- The draws of `prove`: the nonce of the real proof, and the fake proof's two scalars.
  unfoldable pub enc_prove :
      ℕ → (ℕ → B.Scalar) → B.Scalar → B.Scalar → Bytes → B.Point → B.Scalar → Bool → EncProof B
  enc_prove tries draw fake_challenge fake_response session_id base_h scalar bit =
      let base_g = B.generator in
      let u = base_h • scalar in
      let g_times_scalar = base_g • scalar in
      let v = if bit then g_times_scalar ⊞ base_h else g_times_scalar in
      let fake_v = if bit then g_times_scalar ⊞ base_h else g_times_scalar ⊞ B.point_neg base_h in
      let (real_scalar_commitment, real_commitments) = cp_prove_step1 tries draw base_g base_h in
      let (fake_commitments, fake_challenge', fake_proof) =
        cp_simulate fake_challenge fake_response base_g base_h fake_v u in
      let msg =
        if bit
        then msg_for_challenge base_g base_h u v fake_commitments real_commitments
        else msg_for_challenge base_g base_h u v real_commitments fake_commitments in
      let challenge = tagged_hash_as_scalar tag_encproof_fs (session_id ∷ msg ∷ []) in
      let real_challenge = challenge ⊖ fake_challenge' in
      let real_proof = cp_prove_step2 base_g base_h scalar real_scalar_commitment real_challenge in
      if bit
      then record {
        proof0 = fake_proof;
        proof1 = real_proof;
        commitments0 = fake_commitments;
        commitments1 = real_commitments;
        challenge0 = fake_challenge';
        challenge1 = real_challenge;
      }
      else record {
        proof0 = real_proof;
        proof1 = fake_proof;
        commitments0 = real_commitments;
        commitments1 = fake_commitments;
        challenge0 = real_challenge;
        challenge1 = fake_challenge';
      }

  -- The first test of `verify`: the two proofs do not belong together.
  unfoldable pub incompatible : EncProof B → Bool
  incompatible e =
      let p0 = e.proof0 in
      let p1 = e.proof1 in
      not (p0.base_g =ₚ B.generator)
      || (not (p0.base_g =ₚ p1.base_g)
          || (not (p0.base_h =ₚ p1.base_h)
              || (not (p0.point_v =ₚ p1.point_v) || not (p0.point_u =ₚ (p1.point_u ⊞ p1.base_h)))))

  unfoldable pub enc_verify : EncProof B → Bytes → Bool
  enc_verify e session_id =
      let p0 = e.proof0 in
      let msg =
        msg_for_challenge p0.base_g p0.base_h p0.point_v p0.point_u e.commitments0 e.commitments1 in
      let expected_challenge = tagged_hash_as_scalar tag_encproof_fs (session_id ∷ msg ∷ []) in
      if incompatible e
      then false
      else if not (expected_challenge =ₛ (e.challenge0 ⊕ e.challenge1))
      then false
      else cp_verify e.proof0 e.commitments0 e.challenge0
        && cp_verify e.proof1 e.commitments1 e.challenge1

  unfoldable pub get_u_and_v : EncProof B → B.Point × B.Point
  get_u_and_v e = (e.proof0.point_v, e.proof0.point_u)

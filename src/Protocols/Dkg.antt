-- ===== src/Protocols/Dkg.antt =====
-- dkls23-core/src/protocols/dkg.rs: the steps of the distributed key generation. Random draws are
-- arguments, and numbers of type `u8` wrap around.
pub mod Consistency
pub mod KeyGeneration
pub mod Phases
pub mod PublicKey
pub mod Shares
pub mod Windows
pub mod Wrap
use kawasekit_dkls.Prelude.{
  ℕ, suc, ◌+◌, ◌-◌, ◌%◌, List, [], ◌∷◌, Bool, not, ◌&&◌, map, range, take, reverse, get_elem?,
  Option, none, some, ◌==◌, if◌then◌else◌, Bytes, Result, ok, err, ◌>>=◌, BTreeMap, insert, get,
}
use kawasekit_dkls.Backend.{Backend, ◌⊕◌, ◌⊖◌, ◌⊗◌, ◌⊞◌, ◌•◌, ◌=ₚ◌}
use kawasekit_dkls.Backend.Ring.Sum.{fold_add}
use kawasekit_dkls.Utilities.Proofs.DLog.{DLogProof, DLogDraws, prove_commit, decommit_verify}
use kawasekit_dkls.Protocols.{
  PartyIndex, Parameters, Failure, aborts, panics, expect, recoverable, proof_verification_failed,
  missing_committed_point, polynomial_inconsistency,
}

pub record ProofCommitment (B : Backend) : Type 0 where
  pub index : PartyIndex
  pub proof : DLogProof B
  pub commitment : Bytes

module _ ⦃B : Backend⦄ where
  -- The coefficients from the constant one on, for the draws `draw 0`, `draw 1`, ...
  unfoldable pub step1 : (ℕ → B.Scalar) → Parameters → List B.Scalar
  step1 draw parameters = map draw (range 0 parameters.threshold)

  -- The loop of Horner's method, over the lower coefficients from the highest on.
  unfoldable pub horner : B.Scalar → B.Scalar → List B.Scalar → B.Scalar
  horner j_scalar evaluation [] = evaluation
  horner j_scalar evaluation (coefficient ∷ cs) =
      horner j_scalar (evaluation ⊗ j_scalar ⊕ coefficient) cs

  -- The loop over the parties. A polynomial without a coefficient at `last_index` panics.
  unfoldable pub evaluations : Parameters → List B.Scalar → ℕ → Result Failure (List B.Scalar)
  evaluations parameters polynomial last_index = elim (get_elem? polynomial last_index) [
    | some leading ↦ ok (
        map (λ j. horner (B.from_u64 j) leading (reverse (take last_index polynomial)))
          (range 1 parameters.share_count))
    | none ↦ err panics
  ]

  -- `threshold - 1` is a `u8`. Without parties the loop does not read the polynomial.
  unfoldable pub step2 : Parameters → List B.Scalar → Result Failure (List B.Scalar)
  step2 parameters polynomial =
      if parameters.share_count == 0
      then ok []
      else evaluations parameters polynomial
          (if parameters.threshold == 0 then 255 else parameters.threshold - 1)

  -- An exhausted search for the proof panics.
  unfoldable pub step3 :
      DLogDraws B
      → PartyIndex
      → Bytes
      → List B.Scalar
      → Result Failure (B.Scalar × ProofCommitment B)
  step3 d party_index session_id poly_fragments =
      let poly_point = fold_add B.zero poly_fragments (λ a. a) in
      expect (prove_commit poly_point session_id d) >>= λ made.
      ok (poly_point, record { index = party_index; proof = made.0; commitment = made.1 })

  -- The first loop of step 5.
  unfoldable pub gather :
      PartyIndex
      → Bytes
      → BTreeMap B.Point
      → List (ProofCommitment B)
      → Result Failure (BTreeMap B.Point)
  gather party_index session_id committed_points [] = ok committed_points
  gather party_index session_id committed_points (party_j ∷ ps) =
      let rest =
        gather party_index session_id (insert party_j.index party_j.proof.point committed_points)
          ps in
      if not (party_j.index == party_index)
        && not (decommit_verify party_j.proof party_j.commitment session_id)
      then err (aborts (recoverable party_index (proof_verification_failed party_j.index)))
      else rest

  -- `i..(i + threshold)`, where the sum is a `u8`.
  abbrev pub window : Parameters → ℕ → List ℕ
  window parameters i = range i ((i + parameters.threshold) % 256 - i)

  -- The loop over k: the numerator and the denominator of the coefficient of j.
  unfoldable pub lagrange_parts : ℕ → B.Scalar → B.Scalar → List ℕ → B.Scalar × B.Scalar
  lagrange_parts j lj_numerator lj_denominator [] = (lj_numerator, lj_denominator)
  lagrange_parts j lj_numerator lj_denominator (k ∷ ks) =
      if not (k == j)
      then lagrange_parts j (lj_numerator ⊗ B.from_u64 k)
          (lj_denominator ⊗ (B.from_u64 k ⊖ B.from_u64 j)) ks
      else lagrange_parts j lj_numerator lj_denominator ks

  -- `lj_numerator * lj_denominator.invert().unwrap()`
  unfoldable pub divide_parts : B.Scalar × B.Scalar → Result Failure B.Scalar
  divide_parts (lj_numerator, lj_denominator) = elim (B.invert lj_denominator) [
    | some inverted ↦ ok (lj_numerator ⊗ inverted)
    | none ↦ err panics
  ]

  unfoldable pub lagrange_coefficient : ℕ → List ℕ → Result Failure B.Scalar
  lagrange_coefficient j ks = divide_parts (lagrange_parts j B.one B.one ks)

  -- The point of party j, whose index is made with `PartyIndex::new(j).unwrap()`.
  unfoldable pub committed_point : PartyIndex → BTreeMap B.Point → ℕ → Result Failure B.Point
  committed_point party_index committed_points j =
      if j == 0 then err panics else elim (get j committed_points) [
        | some point_j ↦ ok point_j
        | none ↦ err (aborts (recoverable party_index (missing_committed_point j)))
      ]

  -- The loop over j, for the window `ks`.
  unfoldable pub reconstruct :
      PartyIndex → BTreeMap B.Point → List ℕ → B.Point → List ℕ → Result Failure B.Point
  reconstruct party_index committed_points ks current_pk [] = ok current_pk
  reconstruct party_index committed_points ks current_pk (j ∷ js) =
      lagrange_coefficient j ks >>= λ lj.
      committed_point party_index committed_points j >>= λ point_j.
      reconstruct party_index committed_points ks (point_j • lj ⊞ current_pk) js

  -- The loop over i.
  unfoldable pub check_windows :
      Parameters → PartyIndex → BTreeMap B.Point → B.Point → List ℕ → Result Failure B.Point
  check_windows parameters party_index committed_points pk [] = ok pk
  check_windows parameters party_index committed_points pk (i ∷ is) =
      let ks = window parameters i in
      reconstruct party_index committed_points ks B.identity ks >>= λ current_pk.
      let first = check_windows parameters party_index committed_points current_pk is in
      let later = check_windows parameters party_index committed_points pk is in
      if i == 1
      then first
      else if not (pk =ₚ current_pk)
      then err (aborts (recoverable party_index polynomial_inconsistency))
      else later

  -- `1..=(share_count - threshold + 1)`, in `u8`.
  abbrev pub window_starts : Parameters → List ℕ
  window_starts parameters =
      range 1 ((256 + parameters.share_count - parameters.threshold + 1) % 256)

  unfoldable pub step5 :
      Parameters
      → PartyIndex
      → Bytes
      → List (ProofCommitment B)
      → Result Failure (B.Point × BTreeMap B.Point)
  step5 parameters party_index session_id proofs_commitments =
      gather party_index session_id [] proofs_commitments >>= λ committed_points.
      check_windows parameters party_index committed_points B.identity (window_starts parameters)
      >>= λ pk. ok (pk, committed_points)

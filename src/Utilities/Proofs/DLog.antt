-- ===== src/Utilities/Proofs/DLog.antt =====
-- dkls23-core/src/utilities/proofs.rs, `InteractiveDLogProof` and `DLogProof`: Schnorr's protocol
-- under the randomized Fischlin transform. What the prover draws is in `DLogDraws`.
pub mod Complete
pub mod Accept
pub mod Search
use kawasekit_dkls.Prelude.{
  ℕ, zero, suc, ◌+◌, ◌-◌, List, [], ◌∷◌, ◌++◌, map, Bool, true, false, not, ◌&&◌, ◌||◌, Option,
  none, some, Bytes, bytes_eq, concat, length, get_elem?, take, replicate, range, to_be_bytes, ltb,
  ◌==◌, if◌then◌else◌, Result, ok, err, ◌>>=◌,
}
use kawasekit_dkls.Backend.{Backend, ◌⊖◌, ◌⊗◌, ◌⊞◌, ◌•◌, ◌=ₚ◌}
use kawasekit_dkls.Utilities.OracleTags.{tag_dlog_proof_fischlin, tag_dlog_proof_commitment}
use kawasekit_dkls.Utilities.Hashes.{tagged_hash, scalar_to_bytes, point_to_bytes}
use kawasekit_dkls.Utilities.Proofs.{nonzero_draw}

-- `R`, `L / 4` and `T / 8`: proofs, bytes of a compared hash, and bytes of a challenge.
abbrev pub rounds : ℕ
rounds = 64

abbrev pub half_rounds : ℕ
half_rounds = 32

abbrev pub hash_bytes : ℕ
hash_bytes = 1

abbrev pub challenge_bytes : ℕ
challenge_bytes = 4

pub record InteractiveDLogProof (B : Backend) : Type 0 where
  pub challenge : Bytes
  pub challenge_response : B.Scalar

pub record DLogProof (B : Backend) : Type 0 where
  pub point : B.Point
  pub rand_commitments : List B.Point
  pub proofs : List (InteractiveDLogProof B)

pub data ProofSearchExhausted : Type 0 where
  proof_search_exhausted : ProofSearchExhausted

-- The draws of `prove`: those for the i-th nonce, of which one among the first `tries + 1` is
-- nonzero, and the challenges by round and counters.
pub record DLogDraws (B : Backend) : Type 0 where
  pub tries : ℕ
  pub nonce : ℕ → ℕ → B.Scalar
  pub first_challenge : ℕ → ℕ → Bytes
  pub second_challenge : ℕ → ℕ → ℕ → Bytes

unfoldable pub is_seen : Bytes → List Bytes → Bool
is_seen x [] = false
is_seen x (y ∷ ys) = bytes_eq x y || is_seen x ys

-- `HashSet::insert` for one element after the other, until one is there already.
unfoldable pub without_repetitions : List Bytes → List Bytes → Bool
without_repetitions seen [] = true
without_repetitions seen (x ∷ xs) = not (is_seen x seen) && without_repetitions (x ∷ seen) xs

module _ ⦃B : Backend⦄ where
  -- A challenge has at most 32 bytes here: `verify` tests its length first.
  unfoldable pub challenge_to_scalar : Bytes → B.Scalar
  challenge_to_scalar challenge = B.reduce (replicate (32 - length challenge) 0 ++ challenge)

  unfoldable pub prove_step1 : ℕ → (ℕ → B.Scalar) → B.Scalar × B.Point
  prove_step1 tries draw =
      let scalar_rand_commitment = nonzero_draw tries draw in
      (scalar_rand_commitment, B.generator • scalar_rand_commitment)

  unfoldable pub prove_step2 : B.Scalar → B.Scalar → Bytes → InteractiveDLogProof B
  prove_step2 scalar scalar_rand_commitment challenge =
      let challenge_scalar = challenge_to_scalar challenge in
      record {
        challenge = challenge;
        challenge_response = scalar_rand_commitment ⊖ challenge_scalar ⊗ scalar;
      }

  unfoldable pub verify_interactive : InteractiveDLogProof B → B.Point → B.Point → Bool
  verify_interactive p point point_rand_commitment =
      if (length p.challenge == 0) || ltb challenge_bytes (length p.challenge)
      then false
      else (B.generator • p.challenge_response ⊞ point • challenge_to_scalar p.challenge)
        =ₚ point_rand_commitment

  -- The hash of a round, from the commitments in bytes.
  unfoldable pub fischlin_hash : Bytes → Bytes → ℕ → InteractiveDLogProof B → Bytes
  fischlin_hash session_id rc_as_bytes i p = take hash_bytes (
      tagged_hash tag_dlog_proof_fischlin (
        session_id
        ∷ concat (
            point_to_bytes B.generator
            ∷ rc_as_bytes
            ∷ to_be_bytes 2 i
            ∷ p.challenge
            ∷ scalar_to_bytes p.challenge_response
            ∷ [])
        ∷ []))

  unfoldable pub points_as_bytes : List B.Point → Bytes
  points_as_bytes points = concat (map point_to_bytes points)

  -- The state and the commitment of round i.
  unfoldable pub state_of : DLogDraws B → ℕ → B.Scalar
  state_of d i = (prove_step1 d.tries (d.nonce i)).0

  unfoldable pub commitment_of : DLogDraws B → ℕ → B.Point
  commitment_of d i = (prove_step1 d.tries (d.nonce i)).1

  unfoldable pub commitments_of : DLogDraws B → List B.Point
  commitments_of d = map (commitment_of d) (range 0 rounds)

  -- `first_proofs.push`, `last_proofs.push`, or the error when the flag was not set.
  unfoldable pub add_round :
      Option (InteractiveDLogProof B × InteractiveDLogProof B)
      → Result ProofSearchExhausted (List (InteractiveDLogProof B) × List (InteractiveDLogProof B))
      → Result ProofSearchExhausted (List (InteractiveDLogProof B) × List (InteractiveDLogProof B))
  add_round none rest = err proof_search_exhausted
  add_round (some (a, b)) (ok (first_proofs, last_proofs)) = ok (a ∷ first_proofs, b ∷ last_proofs)
  add_round (some p) (err e) = err e

  module _ (scalar : B.Scalar) (session_id rc_as_bytes : Bytes) (d : DLogDraws B) where
    -- The inner `while`: `fuel` is what is left of `second_counter < u16::MAX`.
    unfoldable pub search_second : ℕ → ℕ → ℕ → ℕ → Bytes → Option (InteractiveDLogProof B)
    search_second zero i first_counter second_counter first_hash = none
    search_second (suc fuel) i first_counter second_counter first_hash =
        let second_proof =
          prove_step2 scalar (state_of d (i + half_rounds))
            (d.second_challenge i first_counter second_counter) in
        let second_hash = fischlin_hash session_id rc_as_bytes (i + half_rounds) second_proof in
        let again = search_second fuel i first_counter (suc second_counter) first_hash in
        if bytes_eq first_hash second_hash then some second_proof else again

    -- The outer `while`.
    unfoldable pub search_first :
        ℕ → ℕ → ℕ → Option (InteractiveDLogProof B × InteractiveDLogProof B)
    search_first zero i first_counter = none
    search_first (suc fuel) i first_counter =
        let first_proof = prove_step2 scalar (state_of d i) (d.first_challenge i first_counter) in
        let first_hash = fischlin_hash session_id rc_as_bytes i first_proof in
        elim (search_second 65535 i first_counter 0 first_hash) [
          | some second_proof ↦ some (first_proof, second_proof)
          | none ↦ search_first fuel i (suc first_counter)
        ]

    -- `n` rounds from round i on: the first and the last proofs.
    unfoldable pub search_rounds :
        ℕ
        → ℕ
        → Result ProofSearchExhausted
            (List (InteractiveDLogProof B) × List (InteractiveDLogProof B))
    search_rounds zero i = ok ([], [])
    search_rounds (suc n) i =
        let rest = search_rounds n (suc i) in add_round (search_first 65535 i 0) rest

  unfoldable pub prove : B.Scalar → Bytes → DLogDraws B → Result ProofSearchExhausted (DLogProof B)
  prove scalar session_id d =
      let rc_as_bytes = points_as_bytes (commitments_of d) in
      search_rounds scalar session_id rc_as_bytes d half_rounds 0 >>= λ ps. ok (record {
        point = B.generator • scalar;
        rand_commitments = commitments_of d;
        proofs = ps.0 ++ ps.1;
      })

  -- One round of `verify`. The indices are in range by the test of the lengths.
  unfoldable pub verify_round : DLogProof B → Bytes → Bytes → ℕ → Bool
  verify_round proof session_id rc_as_bytes i = elim (get_elem? proof.proofs i) [
    | none ↦ false
    | some a ↦ elim (get_elem? proof.proofs (i + half_rounds)) [
      | none ↦ false
      | some b ↦ elim (get_elem? proof.rand_commitments i) [
        | none ↦ false
        | some rc_a ↦ elim (get_elem? proof.rand_commitments (i + half_rounds)) [
          | none ↦ false
          | some rc_b ↦
              bytes_eq (fischlin_hash session_id rc_as_bytes i a)
                (fischlin_hash session_id rc_as_bytes (i + half_rounds) b)
              && (verify_interactive a proof.point rc_a && verify_interactive b proof.point rc_b)
        ]
      ]
    ]
  ]

  unfoldable pub verify_rounds : DLogProof B → Bytes → Bytes → ℕ → ℕ → Bool
  verify_rounds proof session_id rc_as_bytes zero i = true
  verify_rounds proof session_id rc_as_bytes (suc n) i =
      verify_round proof session_id rc_as_bytes i
      && verify_rounds proof session_id rc_as_bytes n (suc i)

  unfoldable pub any_identity : List B.Point → Bool
  any_identity [] = false
  any_identity (p ∷ ps) = (p =ₚ B.identity) || any_identity ps

  unfoldable pub verify : DLogProof B → Bytes → Bool
  verify proof session_id =
      if not (length proof.rand_commitments == rounds) || not (length proof.proofs == rounds)
      then false
      else if (proof.point =ₚ B.identity) || any_identity proof.rand_commitments
      then false
      else if not (without_repetitions [] (map point_to_bytes proof.rand_commitments))
      then false
      else verify_rounds proof session_id (points_as_bytes proof.rand_commitments) half_rounds 0

  -- The hash of a proof in bytes, which `prove_commit` sends and `decommit_verify` expects.
  unfoldable pub proof_commitment : DLogProof B → Bytes → Bytes
  proof_commitment proof session_id = tagged_hash tag_dlog_proof_commitment (
      session_id
      ∷ concat (
          point_to_bytes proof.point
          ∷ points_as_bytes proof.rand_commitments
          ∷ concat (map (λ (p : InteractiveDLogProof B). p.challenge) proof.proofs)
          ∷ concat (
              map (λ (p : InteractiveDLogProof B). scalar_to_bytes p.challenge_response)
                proof.proofs)
          ∷ [])
      ∷ [])

  unfoldable pub prove_commit :
      B.Scalar → Bytes → DLogDraws B → Result ProofSearchExhausted (DLogProof B × Bytes)
  prove_commit scalar session_id d =
      prove scalar session_id d >>= λ proof. ok (proof, proof_commitment proof session_id)

  unfoldable pub decommit_verify : DLogProof B → Bytes → Bytes → Bool
  decommit_verify proof commitment session_id =
      bytes_eq commitment (proof_commitment proof session_id) && verify proof session_id

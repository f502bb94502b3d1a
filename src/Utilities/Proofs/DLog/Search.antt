-- ===== src/Utilities/Proofs/DLog/Search.antt =====
-- The proof-of-work search of `DLogProof::prove` ends with a proof when two of the drawn
-- challenges collide in each round, and that proof is accepted.
use kawasekit_dkls.Prelude.{
  ℕ, zero, suc, ◌+◌, ◌<◌, ◌≡◌, ◌≢◌, refl, ap, ap₂, subst, ◌∙◌, true, false, List, [], ◌∷◌, ◌++◌,
  map, some, Bytes, bytes_eq, bytes_eq_refl, bytes_eq_iff, length, length-append, length-map, range,
  ok, >>=-eq-ok, Bool-cases, Option-cases, inl, inr, arith,
}
use kawasekit_dkls.Backend.{Backend, FieldLaws, GroupLaws, ◌•◌}
use kawasekit_dkls.Utilities.Hashes.{point_to_bytes}
use kawasekit_dkls.Utilities.Proofs.DLog.{
  rounds, half_rounds, InteractiveDLogProof, DLogProof, DLogDraws, without_repetitions, prove_step2,
  fischlin_hash, points_as_bytes, state_of, commitment_of, commitments_of, search_second,
  search_first, add_round, search_rounds, prove, any_identity, verify_round, verify,
  proof_commitment, prove_commit, decommit_verify,
}
use kawasekit_dkls.Utilities.Proofs.DLog.Complete.{ChallengesFit, AreRounds, search_rounds_found}
use kawasekit_dkls.Utilities.Proofs.DLog.Accept.{
  verify_accept, verify_rounds_accept, round_of_prove, no_identity,
}

module _ ⦃B : Backend⦄ (scalar : B.Scalar) (sid rc : Bytes) (d : DLogDraws B) where
  -- The hashes of the challenges drawn in round i at these counters.
  unfoldable pub first_hash_at : ℕ → ℕ → Bytes
  first_hash_at i c =
      fischlin_hash sid rc i (prove_step2 scalar (state_of d i) (d.first_challenge i c))

  unfoldable pub second_hash_at : ℕ → ℕ → ℕ → Bytes
  second_hash_at i c k =
      fischlin_hash sid rc (i + half_rounds)
        (prove_step2 scalar (state_of d (i + half_rounds)) (d.second_challenge i c k))

  -- In each round some counters below `u16::MAX` give one hash.
  abbrev pub Collides : Type 0
  Collides =
      (i : ℕ)
      → i < half_rounds
      → (c : ℕ) × (k : ℕ) × (c < 65535) × (k < 65535) × (first_hash_at i c ≡ second_hash_at i c k)

  search_second_succeeds :
      (fuel i c k j : ℕ) (first_hash : Bytes)
      → j < fuel
      → first_hash ≡ second_hash_at i c (k + j)
      → (b : InteractiveDLogProof B) × (search_second scalar sid rc d fuel i c k first_hash
          ≡ some b)
  unfolding search_second second_hash_at
  search_second_succeeds zero i c k j first_hash h e = elim h [ ]
  search_second_succeeds (suc fuel) i c k zero first_hash h e =
      let hit : bytes_eq first_hash (second_hash_at i c k) ≡ true =
        (bytes_eq_iff _ _).1 (e ∙ ap (second_hash_at i c) {x = k + 0} {y = k} (omega arith)) in
      (prove_step2 scalar (state_of d (i + half_rounds)) (d.second_challenge i c k), rw hit)
  search_second_succeeds (suc fuel) i c k (suc j) first_hash h e =
      elim (Bool-cases (bytes_eq first_hash (second_hash_at i c k))) [
        | inl hit ↦
            (prove_step2 scalar (state_of d (i + half_rounds)) (d.second_challenge i c k), rw hit)
        | inr miss ↦ rw miss (
            search_second_succeeds fuel i c (suc k) j first_hash (omega arith)
              (e ∙ ap (second_hash_at i c) {x = k + suc j} {y = suc k + j} (omega arith)))
      ]

  later :
      (i c j k : ℕ)
      → first_hash_at i (c + suc j) ≡ second_hash_at i (c + suc j) k
      → first_hash_at i (suc c + j) ≡ second_hash_at i (suc c + j) k
  later i c j k =
      subst (λ n. first_hash_at i n ≡ second_hash_at i n k) {x = c + suc j} {y = suc c + j}
        (omega arith)

  -- The counter of the outer search is `j` below the one that hits.
  search_first_succeeds :
      (fuel i c j k : ℕ)
      → j < fuel
      → k < 65535
      → first_hash_at i (c + j) ≡ second_hash_at i (c + j) k
      → (p : InteractiveDLogProof B × InteractiveDLogProof B) × (search_first scalar sid rc d fuel i
            c
          ≡ some p)
  unfolding search_first first_hash_at
  search_first_succeeds zero i c j k h hk e = elim h [ ]
  search_first_succeeds (suc fuel) i c zero k h hk e =
      let hit : first_hash_at i c ≡ second_hash_at i c (0 + k) =
        ap (first_hash_at i) {y = c + 0} (omega arith)
        ∙ e
        ∙ ap₂ (second_hash_at i) {x = c + 0} {u = k} {v = 0 + k} (omega arith) (omega arith) in
      let (b, found) = search_second_succeeds 65535 i c 0 k (first_hash_at i c) hk hit in
      ((prove_step2 scalar (state_of d i) (d.first_challenge i c), b), rw (found, search_first))
  search_first_succeeds (suc fuel) i c (suc j) k h hk e =
      elim (Option-cases (search_second scalar sid rc d 65535 i c 0 (first_hash_at i c))) [
        | inl none_yet ↦
            rw (none_yet, search_first)
              (search_first_succeeds fuel i (suc c) j k (omega arith) hk (later i c j k e))
        | inr (b, found) ↦ (
          (prove_step2 scalar (state_of d i) (d.first_challenge i c), b),
          rw (found, search_first),
        )
      ]

  add_round-some :
      (p : InteractiveDLogProof B × InteractiveDLogProof B)
      (ps : List (InteractiveDLogProof B) × List (InteractiveDLogProof B))
      → add_round (some p) (ok ps) ≡ ok (p.0 ∷ ps.0, p.1 ∷ ps.1)
  unfolding add_round
  add_round-some (a, b) (as', bs') = refl

  search_rounds_succeeds :
      (n i : ℕ)
      → i + n ≡ half_rounds
      → Collides
      → (ps : List (InteractiveDLogProof B) × List (InteractiveDLogProof B)) × (search_rounds scalar
            sid rc d n i
          ≡ ok ps)
  unfolding search_rounds
  search_rounds_succeeds zero i e h = (([], []), refl)
  search_rounds_succeeds (suc n) i e h =
      let (c, k, hc, hk, hit) = h i (omega arith) in
      let (p, one) = search_first_succeeds 65535 i 0 c k hc hk (
        subst (λ j. first_hash_at i j ≡ second_hash_at i j k) {x = c} {y = 0 + c} (omega arith)
          hit) in
      let (ps, rest) = search_rounds_succeeds n (suc i) (omega arith) h in
      (_, ap₂ add_round one rest ∙ add_round-some p ps)

module _ ⦃B : Backend⦄ ⦃L : FieldLaws B⦄ ⦃G : GroupLaws B⦄ where
  -- What `prove` returns when its rounds found `ps`.
  proof_from :
      B.Scalar
      → DLogDraws B
      → List (InteractiveDLogProof B) × List (InteractiveDLogProof B)
      → DLogProof B
  proof_from scalar d ps = record {
    point = B.generator • scalar;
    rand_commitments = commitments_of d;
    proofs = ps.0 ++ ps.1;
  }

  proof_from-verify :
      (scalar : B.Scalar) (sid : Bytes) (d : DLogDraws B) (fits : ChallengesFit d)
      (ps : List (InteractiveDLogProof B) × List (InteractiveDLogProof B))
      → B.generator • scalar ≢ B.identity
      → ((i : ℕ) → commitment_of d i ≢ B.identity)
      → without_repetitions [] (map point_to_bytes (commitments_of d)) ≡ true
      → AreRounds scalar sid (points_as_bytes (commitments_of d)) d fits half_rounds 0 ps
      → verify (proof_from scalar d ps) sid ≡ true
  unfolding proof_from
  proof_from-verify scalar sid d fits ps hs hc hw h =
      verify_accept (proof_from scalar d ps) sid lengths (proofs_length h) hs none_trivial hw (
        verify_rounds_accept (proof_from scalar d ps) sid rc half_rounds 0 (λ k lt.
          subst (λ j. verify_round (proof_from scalar d ps) sid rc j ≡ true) {x = k} {y = 0 + k}
            (omega arith) (round_of_prove scalar sid rc d fits ps h k lt)))
    where
      rc : Bytes
      rc = points_as_bytes (commitments_of d)

      lengths : length (commitments_of d) ≡ rounds
      lengths = unfold commitments_of in length-map (commitment_of d) (range 0 rounds)

      none_trivial : any_identity (commitments_of d) ≡ false
      none_trivial = unfold commitments_of in no_identity (commitment_of d) (range 0 rounds) hc

      proofs_length :
          AreRounds scalar sid (points_as_bytes (commitments_of d)) d fits half_rounds 0 ps
          → length (ps.0 ++ ps.1) ≡ rounds
      proofs_length h = unfold AreRounds in omega (arith, length-append ps.0 ps.1, h.0, h.1)

  -- Let every drawn challenge have `T / 8` bytes, the scalar's point and the commitments be other
  -- than the point at infinity, the commitments be distinct in bytes, and some challenges drawn
  -- within the bounds of the loops collide in each round. Then `prove_commit` returns a proof for
  -- the point of the scalar, and `decommit_verify` accepts it with its commitment.
  pub prove_commit-decommit_verify :
      (scalar : B.Scalar) (sid : Bytes) (d : DLogDraws B)
      → ChallengesFit d
      → B.generator • scalar ≢ B.identity
      → ((i : ℕ) → commitment_of d i ≢ B.identity)
      → without_repetitions [] (map point_to_bytes (commitments_of d)) ≡ true
      → Collides scalar sid (points_as_bytes (commitments_of d)) d
      → (p : DLogProof B) × (c : Bytes) × (prove_commit scalar sid d ≡ ok (p, c))
        × (p.point ≡ B.generator • scalar)
        × (decommit_verify p c sid ≡ true)
  unfolding prove_commit prove decommit_verify proof_from
  prove_commit-decommit_verify scalar sid d fits hs hc hw hits =
      let rc = points_as_bytes (commitments_of d) in
      let (ps, found) = search_rounds_succeeds scalar sid rc d half_rounds 0 (omega arith) hits in
      let are_rounds : AreRounds scalar sid rc d fits half_rounds 0 ps =
        rw found at (search_rounds_found scalar sid rc d fits half_rounds 0) in
      let p = proof_from scalar d ps in
      (
        p,
        proof_commitment p sid,
        rw found,
        refl,
        rw (bytes_eq_refl (proof_commitment p sid))
            (proof_from-verify scalar sid d fits ps hs hc hw are_rounds),
      )

module _ ⦃B : Backend⦄ where
  -- A proof that is made is for the point of the scalar.
  pub prove_commit-point :
      (scalar : B.Scalar) (sid : Bytes) (d : DLogDraws B) (p : DLogProof B) (c : Bytes)
      → prove_commit scalar sid d ≡ ok (p, c)
      → p.point ≡ B.generator • scalar
  unfolding prove_commit prove
  prove_commit-point scalar sid d p c h =
      let (q, made, e) = >>=-eq-ok (prove scalar sid d) _ h in
      let (rounds_made, _, e') =
        >>=-eq-ok (search_rounds scalar sid (points_as_bytes (commitments_of d)) d half_rounds 0) _
          made in
      cc

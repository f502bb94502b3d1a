-- ===== src/Examples/KeyGeneration.antt =====
-- The theorems on discrete logarithm proofs and key generation at concrete inputs: two parties
-- who share a key over the field of 67 elements.
use kawasekit_dkls.Prelude.{
  All, ◌-◌, ℕ, suc, zero, ◌≡◌, ◌≢◌, ◌≤◌, ◌<◌, ◌+◌, ◌*◌, ◌%◌, bytes_eq, refl, ap, true, List, [],
  ◌∷◌, map, range, Bytes, ok, arith, get, some, BTreeMap,
}
use kawasekit_dkls.Backend.{◌•◌}
use kawasekit_dkls.Backend.Large.{Residue, residue, large, large_field, large_group}
use kawasekit_dkls.Backend.Polynomial.{eval}
use kawasekit_dkls.Utilities.Hashes.{tagged_hash}
use kawasekit_dkls.Utilities.Proofs.{nonzero_draw}
use kawasekit_dkls.Utilities.Proofs.DLog.{
  DLogDraws, DLogProof, without_repetitions, is_seen, commitments_of, commitment_of, prove_step1,
  points_as_bytes, prove_commit, decommit_verify, fischlin_hash,
}
use kawasekit_dkls.Utilities.Proofs.DLog.Complete.{ChallengesFit}
use kawasekit_dkls.Utilities.Proofs.DLog.Search.{
  Collides, first_hash_at, second_hash_at, prove_commit-decommit_verify,
}
use kawasekit_dkls.Backend.Ring.Sum.{fold_add}
use kawasekit_dkls.Protocols.Dkg.Consistency.{IsChecked, Gives, step5_sound}
use kawasekit_dkls.Utilities.ZeroShares.{verify_seed}
use kawasekit_dkls.Protocols.Dkg.Phases.{
  SessionData, PhaseDraws, PhaseTwo, KeepInitZeroShare, TransmitInitZeroShare, zero_init, phase2,
}
use kawasekit_dkls.Utilities.Commits.{commit}
use kawasekit_dkls.Protocols.Dkg.Phases.Opens.{message_to, phase2-verify_seed}
use kawasekit_dkls.Protocols.Dkg.Wrap.{step5_full}
use kawasekit_dkls.Protocols.{Parameters, expect}
use kawasekit_dkls.Protocols.Dkg.{
  ProofCommitment, evaluations, horner, gather, reconstruct, check_windows, step2, step3, step5,
}
use kawasekit_dkls.Protocols.Dkg.Shares.{total, step2-eval}
use kawasekit_dkls.Protocols.Dkg.Windows.{SmallNumbers}
use kawasekit_dkls.Protocols.Dkg.PublicKey.{Honest, step5-Honest}
use kawasekit_dkls.Protocols.Dkg.KeyGeneration.{received, key_generation}

abbrev sid : Bytes
sid = 1 ∷ 2 ∷ 3 ∷ []

-- The i-th nonce is i + 1 for the 64 rounds, and every challenge is 1.
abbrev draws : DLogDraws large
draws = record {
  tries = 0;
  nonce = λ i k. residue (i % 64 + 1);
  first_challenge = λ i c. 0 ∷ 0 ∷ 0 ∷ 1 ∷ [];
  second_challenge = λ i c k. 0 ∷ 0 ∷ 0 ∷ 1 ∷ [];
}

fits : ChallengesFit draws
fits = record { first_fits = λ i c. refl; second_fits = λ i c k. refl }

distinct : without_repetitions [] (map large.point_to_bytes (commitments_of draws)) ≡ true
unfolding without_repetitions is_seen commitments_of commitment_of prove_step1 nonzero_draw bytes_eq
distinct = refl

nonces_nontrivial : (i : ℕ) → commitment_of draws i ≢ large.identity
unfolding commitment_of prove_step1 nonzero_draw
nonces_nontrivial i e = omega (arith, ap (λ t. t.0) e)

collisions : (scalar : Residue) → Collides scalar sid (points_as_bytes (commitments_of draws)) draws
unfolding first_hash_at second_hash_at fischlin_hash tagged_hash
collisions scalar i h = (0, 0, omega arith, omega arith, refl)

-- The shares of parties 1 and 2, on the line 4 + 6x.
abbrev share : ℕ → Residue
share j = residue (4 + j % 3 * 6)

share_ne : (j : ℕ) → large.generator • share j ≢ large.identity
share_ne j e = omega (arith, ap (λ t. t.0) e)

prove_commit-decommit_verify_example :
    (p : DLogProof large) × (c : Bytes) × (prove_commit (share 1) sid draws ≡ ok (p, c))
    × (p.point ≡ large.generator • share 1)
    × (decommit_verify p c sid ≡ true)
prove_commit-decommit_verify_example =
    prove_commit-decommit_verify (share 1) sid draws fits (share_ne 1) nonces_nontrivial distinct
      (collisions (share 1))

-- Two parties with the polynomials 1 + 2x and 3 + 4x.
abbrev two_of_two : Parameters
two_of_two = record { threshold = 2; share_count = 2 }

abbrev polynomials : List (List Residue)
polynomials = (residue 1 ∷ residue 2 ∷ []) ∷ (residue 3 ∷ residue 4 ∷ []) ∷ []

step2-eval_example :
    step2 two_of_two (residue 1 ∷ residue 2 ∷ [])
    ≡ ok (map (λ j. eval (residue 1 ∷ residue 2 ∷ []) (residue j)) (range 1 2))
step2-eval_example = step2-eval two_of_two (residue 1 ∷ residue 2 ∷ []) (omega arith) refl

small : SmallNumbers large 2
small = record {
  from_zero = refl;
  distinct = λ i j hi hj ne e. ne (omega (arith, hi, hj, ap (λ t. t.0) e));
}

-- The proof that party j makes.
made :
    (j : ℕ)
    → (p : DLogProof large) × (c : Bytes) × (prove_commit (share j) sid draws ≡ ok (p, c))
      × (p.point ≡ large.generator • share j)
      × (decommit_verify p c sid ≡ true)
made j =
    prove_commit-decommit_verify (share j) sid draws fits (share_ne j) nonces_nontrivial distinct
      (collisions (share j))

abbrev sent : ℕ → ProofCommitment large
sent j = record { index = j; proof = (made j).0; commitment = (made j).1 }

abbrev fragments : ℕ → List Residue
fragments j = residue (1 + 2 * j) ∷ residue (3 + 4 * j) ∷ []

step3_made :
    (j : ℕ)
    → fold_add (residue 0) (fragments j) (λ a. a) ≡ share j
    → step3 draws j sid (fragments j) ≡ ok (share j, sent j)
unfolding step3 expect
step3_made j e = rw (e, (made j).2) refl

ran :
    (j : ℕ)
    → 1 ≤ j
    → j ≤ 2
    → (received two_of_two j polynomials ≡ ok (fragments j))
      × (step3 draws j sid (fragments j) ≡ ok (share j, sent j))
      × (decommit_verify (sent j).proof (sent j).commitment sid ≡ true)
unfolding received step2 evaluations horner fold_add
ran zero low high = absurd (omega (arith, low))
ran (suc zero) low high = (refl, step3_made 1 refl, (made 1).4)
ran (suc (suc zero)) low high = (refl, step3_made 2 refl, (made 2).4)
ran (suc (suc (suc j))) low high = absurd (omega (arith, high))

key_generation_example :
    (points : BTreeMap Residue) × (step5 two_of_two 1 sid (map sent (range 1 2))
      ≡ ok (large.generator • eval (total polynomials) large.zero, points))
    × ((j : ℕ)
        → 1 ≤ j
        → j ≤ 2
        → (share j ≡ eval (total polynomials) (residue j))
          × (get j points ≡ some (large.generator • share j)))
key_generation_example =
    key_generation two_of_two sid polynomials (λ j. draws) fragments share sent 1 (omega arith)
      (omega arith) (omega arith) small (refl, (refl, tt)) ran

-- The points of the line 4 + 6x.
honest : (j : ℕ) → 1 ≤ j → j < 3 → Honest sid (residue 4 ∷ residue 6 ∷ []) j (sent j)
unfolding eval
honest zero low high = absurd (omega (arith, low))
honest (suc zero) low high = record {
  index_is = refl;
  point_is = (made 1).3;
  verifies = (made 1).4;
}
honest (suc (suc zero)) low high = record {
  index_is = refl;
  point_is = (made 2).3;
  verifies = (made 2).4;
}
honest (suc (suc (suc j))) low high = absurd (omega (arith, high))

step5-Honest_example :
    (points : BTreeMap Residue) × (step5 two_of_two 2 sid (map sent (range 1 2))
      ≡ ok (large.generator • eval (residue 4 ∷ residue 6 ∷ []) large.zero, points))
    × ((j : ℕ)
        → 1 ≤ j
        → j ≤ 2
        → get j points ≡ some (large.generator • eval (residue 4 ∷ residue 6 ∷ []) (residue j)))
step5-Honest_example =
    step5-Honest two_of_two 2 sid (residue 4 ∷ residue 6 ∷ []) sent (omega arith) (omega arith)
      (omega arith) small (omega arith) honest

-- 255 of 255 parties.
abbrev full : Parameters
full = record { threshold = 255; share_count = 255 }

full_run : step5 ⦃B = large⦄ full 1 sid [] ≡ ok (residue 0, [])
unfolding step5 gather check_windows reconstruct
full_run = refl

step5_full_example : residue 0 ≡ residue 0
step5_full_example =
    step5_full ⦃B = large⦄ full 1 sid [] (residue 0) [] refl (omega arith) (omega arith) full_run

-- What the two parties have run.
honest_run :
    (points : BTreeMap Residue) × (step5 two_of_two 2 sid (map sent (range 1 2))
      ≡ ok (large.generator • eval (residue 4 ∷ residue 6 ∷ []) large.zero, points))
honest_run =
    let (points, done, _) =
      step5-Honest two_of_two 2 sid (residue 4 ∷ residue 6 ∷ []) sent (omega arith) (omega arith)
        (omega arith) small (omega arith) honest in
    (points, done)

step5_sound_example :
    All (IsChecked 2 sid) (map sent (range 1 2))
    × All
        (Gives two_of_two 2 honest_run.0
          (large.generator • eval (residue 4 ∷ residue 6 ∷ []) large.zero))
        (range 1 (suc (2 - 2)))
step5_sound_example =
    step5_sound two_of_two 2 sid (map sent (range 1 2)) _ _ (omega arith) (omega arith)
      (omega arith) honest_run.1

-- Phase 2 of party 1.
abbrev phase_draws : PhaseDraws large
phase_draws = record {
  proof_draws = draws;
  seed_for = λ i. i ∷ [];
  salt_for = λ i. i ∷ i ∷ [];
  chain_code = 5 ∷ [];
  chain_code_salt = 6 ∷ [];
}

abbrev session : SessionData
session = record { parameters = two_of_two; party_index = 1; session_id = sid }

abbrev phase2_out : PhaseTwo large
phase2_out = record {
  poly_point = share 1;
  proof_commitment = sent 1;
  zero_keep = (zero_init phase_draws 1 [] (range 1 2)).0;
  zero_transmit = (zero_init phase_draws 1 [] (range 1 2)).1;
  bip_keep = record { aux_chain_code = 5 ∷ []; cc_salt = (commit (6 ∷ []) (5 ∷ [])).1 };
  bip_broadcast = record {
    sender_index = 1;
    cc_commitment = (commit (6 ∷ []) (5 ∷ [])).0;
    version = 1;
  };
}

phase2_run : phase2 phase_draws session (fragments 1) ≡ ok phase2_out
unfolding phase2
phase2_run = rw (ran 1 (omega arith) (omega arith)).1 refl

phase2-verify_seed_example :
    (kept : KeepInitZeroShare) × (message : TransmitInitZeroShare) × (get 2 phase2_out.zero_keep
      ≡ some kept)
    × (message_to 2 phase2_out.zero_transmit ≡ some message)
    × (message.parties ≡ record { sender = 1; receiver = 2 })
    × (verify_seed kept.seed message.commitment kept.salt ≡ true)
phase2-verify_seed_example =
    phase2-verify_seed phase_draws session (fragments 1) phase2_out phase2_run 2 (omega arith)
      (omega arith) (λ e. omega (arith, e))

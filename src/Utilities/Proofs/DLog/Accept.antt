-- ===== src/Utilities/Proofs/DLog/Accept.antt =====
-- `DLogProof::verify` and `decommit_verify` accept what `prove` and `prove_commit` return.
use kawasekit_dkls.Prelude.{
  ℕ, zero, suc, ◌+◌, ◌<◌, ◌≡◌, ◌≢◌, refl, sym, ap, subst, ◌∙◌, true, false, List, [], ◌∷◌, ◌++◌,
  map, some, Bytes, bytes_eq_refl, length, get_elem?, get_elem?-append_left, get_elem?-append_right,
  get_elem?-map-range, arith,
}
use kawasekit_dkls.Backend.{Backend, FieldLaws, GroupLaws, ◌•◌}
use kawasekit_dkls.Backend.Ring.{eq_point_false}
use kawasekit_dkls.Utilities.Hashes.{point_to_bytes}
use kawasekit_dkls.Utilities.Proofs.DLog.{
  rounds, half_rounds, InteractiveDLogProof, DLogProof, DLogDraws, without_repetitions,
  verify_interactive, fischlin_hash, points_as_bytes, commitment_of, commitments_of, verify_round,
  verify_rounds, any_identity, verify,
}
use kawasekit_dkls.Utilities.Proofs.DLog.Complete.{ChallengesFit, IsRound, AreRounds}

module _ ⦃B : Backend⦄ ⦃L : FieldLaws B⦄ ⦃G : GroupLaws B⦄ where
  pub verify_rounds_accept :
      (p : DLogProof B) (sid rc : Bytes) (n i : ℕ)
      → ((k : ℕ) → k < n → verify_round p sid rc (i + k) ≡ true)
      → verify_rounds p sid rc n i ≡ true
  unfolding verify_rounds
  verify_rounds_accept p sid rc zero i h = refl
  verify_rounds_accept p sid rc (suc n) i h =
      let now : verify_round p sid rc i ≡ true =
        subst (λ j. verify_round p sid rc j ≡ true) {x = i + 0} {y = i} (omega arith)
          (h 0 (omega arith)) in
      let later : verify_rounds p sid rc n (suc i) ≡ true =
        verify_rounds_accept p sid rc n (suc i) (λ k lt.
          subst (λ j. verify_round p sid rc j ≡ true) {x = i + suc k} {y = suc i + k} (omega arith)
            (h (suc k) (omega arith))) in
      rw (now, later)

  verify_round_accept :
      (p : DLogProof B) (sid rc : Bytes) (i : ℕ) (a b : InteractiveDLogProof B) (r s : B.Point)
      → get_elem? p.proofs i ≡ some a
      → get_elem? p.proofs (i + half_rounds) ≡ some b
      → get_elem? p.rand_commitments i ≡ some r
      → get_elem? p.rand_commitments (i + half_rounds) ≡ some s
      → fischlin_hash sid rc i a ≡ fischlin_hash sid rc (i + half_rounds) b
      → verify_interactive a p.point r ≡ true
      → verify_interactive b p.point s ≡ true
      → verify_round p sid rc i ≡ true
  unfolding verify_round
  verify_round_accept p sid rc i a b r s ea eb er es eh va vb =
      rw (ea, verify_round)
        (rw (eb, verify_round)
          (rw (er, verify_round)
            (rw (es, verify_round)
              (rw (eh, va, vb) (rw (bytes_eq_refl (fischlin_hash sid rc (i + half_rounds) b)))))))

  pub verify_accept :
      (p : DLogProof B) (sid : Bytes)
      → length p.rand_commitments ≡ rounds
      → length p.proofs ≡ rounds
      → p.point ≢ B.identity
      → any_identity p.rand_commitments ≡ false
      → without_repetitions [] (map point_to_bytes p.rand_commitments) ≡ true
      → verify_rounds p sid (points_as_bytes p.rand_commitments) half_rounds 0 ≡ true
      → verify p sid ≡ true
  unfolding verify
  verify_accept p sid hc hp hi ha hw hr =
      rw (hc, hp, eq_point_false p.point B.identity hi, ha, hw, hr)

  pub no_identity :
      (f : ℕ → B.Point) (xs : List ℕ)
      → ((i : ℕ) → f i ≢ B.identity)
      → any_identity (map f xs) ≡ false
  unfolding any_identity
  no_identity f [] h = refl
  no_identity f (x ∷ xs) h = rw (eq_point_false (f x) B.identity (h x), no_identity f xs h)

  commitment_at :
      (d : DLogDraws B) (i : ℕ)
      → i < rounds
      → get_elem? (commitments_of d) i ≡ some (commitment_of d i)
  unfolding commitments_of
  commitment_at d i h =
      get_elem?-map-range (commitment_of d) 0 rounds i h
      ∙ ap (λ j. some (commitment_of d j)) {x = 0 + i} (omega arith)

  -- A round that the searches found is accepted at its index in the vectors of the proof.
  pub round_of_prove :
      (scalar : B.Scalar) (sid rc : Bytes) (d : DLogDraws B) (fits : ChallengesFit d)
      (ps : List (InteractiveDLogProof B) × List (InteractiveDLogProof B))
      → AreRounds scalar sid rc d fits half_rounds 0 ps
      → (k : ℕ) → k < half_rounds
      → verify_round
          (record {
            point = B.generator • scalar;
            rand_commitments = commitments_of d;
            proofs = ps.0 ++ ps.1;
          })
          sid
          rc
          k
        ≡ true
  unfolding AreRounds IsRound
  round_of_prove scalar sid rc d fits (as', bs') h k lt =
      let (a, b, ea, eb, r') = h.2 k lt in
      let r : IsRound scalar sid rc d fits k a b =
        subst (λ j. IsRound scalar sid rc d fits j a b) {x = 0 + k} (omega arith) r' in
      verify_round_accept _ sid rc k a b (commitment_of d k) (commitment_of d (k + half_rounds))
        (get_elem?-append_left as' bs' k (omega (arith, h.0)) ∙ ea)
        (ap (λ n. get_elem? (as' ++ bs') (k + n)) (sym h.0) ∙ get_elem?-append_right as' bs' k ∙ eb)
        (commitment_at d k (omega arith)) (commitment_at d (k + half_rounds) (omega arith)) r.2 r.0
        r.1

-- ===== src/Protocols/Dkg/KeyGeneration.antt =====
-- Steps 2, 3 and 5 together, for honest parties.
use kawasekit_dkls.Prelude.{
  ℕ, suc, zero, ◌+◌, ◌-◌, ◌≤◌, ◌<◌, ◌≡◌, refl, sym, ap, ◌∙◌, List, [], ◌∷◌, length, map, range,
  get_elem?, get_elem?-map-range, some, true, Bytes, Result, ok, err, ok_or, >>=-eq-ok, All, arith,
  get, BTreeMap,
}
use kawasekit_dkls.Backend.{Backend, FieldLaws, GroupLaws, ◌•◌}
use kawasekit_dkls.Backend.Ring.Sum.{fold_add}
use kawasekit_dkls.Backend.Polynomial.{eval}
use kawasekit_dkls.Utilities.Proofs.DLog.{DLogDraws, prove_commit, decommit_verify}
use kawasekit_dkls.Utilities.Proofs.DLog.Search.{prove_commit-point}
use kawasekit_dkls.Protocols.{PartyIndex, Parameters, Failure, panics, expect, expect-eq-ok}
use kawasekit_dkls.Protocols.Dkg.{ProofCommitment, step2, step3, step5}
use kawasekit_dkls.Protocols.Dkg.Shares.{total, add_polynomials, step2-eval, eval-total}
use kawasekit_dkls.Protocols.Dkg.Windows.{SmallNumbers}
use kawasekit_dkls.Protocols.Dkg.PublicKey.{Honest, step5-Honest}

module _ ⦃B : Backend⦄ where
  -- The fragments that party j receives: the entry for j of what step 2 gives each party.
  abbrev pub entry : ℕ → Result Failure (List B.Scalar) → Result Failure B.Scalar
  entry j (err e) = err e
  entry j (ok points) = ok_or panics (get_elem? points (j - 1))

  abbrev pub prepend {ℓ κ} :
      {E : Type ℓ} {A : Type κ} → Result E A → Result E (List A) → Result E (List A)
  prepend (err e) rest = err e
  prepend (ok a) (err e) = err e
  prepend (ok a) (ok rest) = ok (a ∷ rest)

  unfoldable pub received : Parameters → ℕ → List (List B.Scalar) → Result Failure (List B.Scalar)
  received parameters j [] = ok []
  received parameters j (p ∷ ps) =
      let rest = received parameters j ps in prepend (entry j (step2 parameters p)) rest

module _ ⦃B : Backend⦄ ⦃L : FieldLaws B⦄ where
  abbrev pub HasLength : ℕ → List B.Scalar → Type 0
  HasLength n p = length p ≡ n

  received_lem :
      (parameters : Parameters) (j : ℕ) (ps : List (List B.Scalar))
      → 1 ≤ parameters.threshold
      → 1 ≤ j
      → j ≤ parameters.share_count
      → All (HasLength parameters.threshold) ps
      → received parameters j ps ≡ ok (map (λ p. eval p (B.from_u64 j)) ps)
  unfolding received
  received_lem parameters j [] one low high h = refl
  received_lem parameters j (p ∷ ps) one low high h =
      let value : get_elem? (map (λ i. eval p (B.from_u64 i)) (range 1 parameters.share_count))
            (j - 1)
          ≡ some (eval p (B.from_u64 j)) =
        get_elem?-map-range (λ i. eval p (B.from_u64 i)) 1 parameters.share_count (j - 1)
          (omega (arith, low, high))
        ∙ ap (λ i. some (eval p (B.from_u64 i))) {x = 1 + (j - 1)} {y = j} (omega (arith, low)) in
      let fragment : entry j
            (ok (map (λ i. eval p (B.from_u64 i)) (range 1 parameters.share_count)))
          ≡ ok (eval p (B.from_u64 j)) =
        ap (ok_or panics) value in
      rw (step2-eval parameters p one h.0, fragment, received_lem parameters j ps one low high h.1)
        refl

  length-add_polynomials :
      (n : ℕ) (p q : List B.Scalar) → length p ≤ n → length q ≤ n → length (add_polynomials p q) ≤ n
  unfolding add_polynomials
  length-add_polynomials n [] q hp hq = hq
  length-add_polynomials n (a ∷ p) [] hp hq = hp
  length-add_polynomials zero (a ∷ p) (b ∷ q) hp hq = absurd (omega (arith, hp))
  length-add_polynomials (suc n) (a ∷ p) (b ∷ q) hp hq =
      omega (arith, length-add_polynomials n p q (omega (arith, hp)) (omega (arith, hq)))

  length-total : (n : ℕ) (ps : List (List B.Scalar)) → All (HasLength n) ps → length (total ps) ≤ n
  unfolding total
  length-total n [] h = omega arith
  length-total n (p ∷ ps) h =
      length-add_polynomials n p (total ps) (omega (arith, h.0)) (length-total n ps h.1)

  -- What step 3 gives, when the search for the proof succeeds.
  step3_lem :
      (d : DLogDraws B) (j : PartyIndex) (sid : Bytes) (fragments : List B.Scalar)
      (share : B.Scalar) (p : ProofCommitment B)
      → step3 d j sid fragments ≡ ok (share, p)
      → (share ≡ fold_add B.zero fragments (λ a. a))
        × (p.index ≡ j)
        × (p.proof.point ≡ B.generator • share)
  unfolding step3
  step3_lem d j sid fragments share p h =
      let poly_point = fold_add B.zero fragments (λ a. a) in
      let (made, found, e) = >>=-eq-ok (expect (prove_commit poly_point sid d)) _ h in
      let point : made.0.point ≡ B.generator • poly_point =
        prove_commit-point poly_point sid d made.0 made.1 (expect-eq-ok _ found) in
      let same_proof : p.proof ≡ made.0 = cc in
      let same_share : poly_point ≡ share = cc in
      (
        sym same_share,
        cc,
        ap (λ t. t.point) same_proof ∙ point ∙ ap (λ t. B.generator • t) same_share,
      )

module _ ⦃B : Backend⦄ ⦃L : FieldLaws B⦄ ⦃G : GroupLaws B⦄ where
  -- Let the parameters be valid with fewer than 255 parties, and the indices of the parties be
  -- different scalars. Let every party have chosen a polynomial with `threshold` coefficients, and
  -- let step 3 have succeeded for each party j with the fragments of step 2 for j, with proofs
  -- that verify. Write f for the sum of the polynomials. Then each party's share is f(j), and step
  -- 5 gives every party the public key `f(0) * generator` and for each j the point
  -- `share * generator` of that party's share.
  pub key_generation :
      (parameters : Parameters) (sid : Bytes) (ps : List (List B.Scalar)) (d : ℕ → DLogDraws B)
      (fragments : ℕ → List B.Scalar) (share : ℕ → B.Scalar) (sent : ℕ → ProofCommitment B)
      (own : PartyIndex)
      → 2 ≤ parameters.threshold
      → parameters.threshold ≤ parameters.share_count
      → parameters.share_count < 255
      → SmallNumbers B parameters.share_count
      → All (HasLength parameters.threshold) ps
      → ((j : ℕ)
          → 1 ≤ j
          → j ≤ parameters.share_count
          → (received parameters j ps ≡ ok (fragments j))
            × (step3 (d j) j sid (fragments j) ≡ ok (share j, sent j))
            × (decommit_verify (sent j).proof (sent j).commitment sid ≡ true))
      → (points : BTreeMap B.Point) × (step5 parameters own sid
            (map sent (range 1 parameters.share_count))
          ≡ ok (B.generator • eval (total ps) B.zero, points))
        × ((j : ℕ)
            → 1 ≤ j
            → j ≤ parameters.share_count
            → (share j ≡ eval (total ps) (B.from_u64 j))
              × (get j points ≡ some (B.generator • share j)))
  key_generation parameters sid ps d fragments share sent own two le byte small lengths ran =
      let cs = total ps in
      let about : (j : ℕ)
          → 1 ≤ j
          → j ≤ parameters.share_count
          → (share j ≡ eval cs (B.from_u64 j)) × Honest sid cs j (sent j) =
        λ j low high.
          let (got, made, verified) = ran j low high in
          let (value, index, point) = step3_lem (d j) j sid (fragments j) (share j) (sent j) made in
          let given : ok (fragments j) ≡ ok (map (λ p. eval p (B.from_u64 j)) ps) =
            sym got ∙ received_lem parameters j ps (omega (arith, two)) low high lengths in
          let lists : fragments j ≡ map (λ p. eval p (B.from_u64 j)) ps = cc in
          let exact : share j ≡ eval cs (B.from_u64 j) =
            value ∙ ap (λ l. fold_add B.zero l (λ a. a)) lists ∙ eval-total ps (B.from_u64 j) in
          (
            exact,
            record {
              index_is = index;
              point_is = point ∙ ap (λ t. B.generator • t) exact;
              verifies = verified;
            },
          ) in
      let (points, done, has) =
        step5-Honest parameters own sid cs sent two le byte small
          (length-total parameters.threshold ps lengths)
          (λ j low high. (about j low (omega (arith, high))).1) in
      (
        points,
        done,
        λ j low high. (
          (about j low high).0,
          has j low high ∙ ap (λ t. some (B.generator • t)) (sym (about j low high).0),
        ),
      )

-- ===== src/Protocols/Dkg/PublicKey.antt =====
-- Step 5 on what honest parties send: everyone finds the public key of the shared polynomial.
use kawasekit_dkls.Prelude.{
  ℕ, suc, zero, ◌+◌, ◌-◌, ◌%◌, ◌≤◌, ◌<◌, ◌≡◌, refl, sym, ap, ◌∙◌, List, [], ◌∷◌, length, true, map,
  range, some, ◌==◌, ==_iff, ==_false, Bool-cases, inl, inr, ◌⊎◌, Bytes, ok, BTreeMap, insert, get,
  get-insert, arith,
}
use kawasekit_dkls.Backend.{Backend, FieldLaws, GroupLaws, ◌•◌}
use kawasekit_dkls.Backend.Ring.{eq_point_refl}
use kawasekit_dkls.Backend.Polynomial.{eval}
use kawasekit_dkls.Utilities.Proofs.DLog.{decommit_verify}
use kawasekit_dkls.Protocols.{PartyIndex, Parameters}
use kawasekit_dkls.Protocols.Dkg.{
  ProofCommitment, gather, reconstruct, check_windows, window, step5,
}
use kawasekit_dkls.Protocols.Dkg.Windows.{SmallNumbers, contains-range, reconstruct-eval}

module _ ⦃B : Backend⦄ where
  -- The map that the first loop builds when it rejects nothing.
  gathered : BTreeMap B.Point → List (ProofCommitment B) → BTreeMap B.Point
  gathered points [] = points
  gathered points (p ∷ ps) = gathered (insert p.index p.proof.point points) ps

  -- What party j sends in steps 3 and 4 when its share is the value of the polynomial there.
  pub record Honest (session_id : Bytes) (cs : List B.Scalar) (j : ℕ) (p : ProofCommitment B)
      : Type 0 where
    pub index_is : p.index ≡ j
    pub point_is : p.proof.point ≡ B.generator • eval cs (B.from_u64 j)
    pub verifies : decommit_verify p.proof p.commitment session_id ≡ true

  module _ (own : PartyIndex) (sid : Bytes) (cs : List B.Scalar)
      (sent : ℕ → ProofCommitment B) where
    gather_lem :
        (points : BTreeMap B.Point) (lo m : ℕ)
        → ((j : ℕ) → lo ≤ j → j < lo + m → Honest sid cs j (sent j))
        → gather own sid points (map sent (range lo m))
          ≡ ok (gathered points (map sent (range lo m)))
    unfolding gather gathered
    gather_lem points lo zero honest = refl
    gather_lem points lo (suc m) honest =
        let v = honest lo (omega arith) (omega arith) in
        ground (
          arith,
          v.verifies,
          gather_lem (insert (sent lo).index (sent lo).proof.point points) (suc lo) m
              (λ j low high. honest j (omega (arith, low)) (omega (arith, high))),
        )

    get-gathered :
        (points : BTreeMap B.Point) (lo m j : ℕ)
        → ((i : ℕ) → lo ≤ i → i < lo + m → Honest sid cs i (sent i))
        → ((lo ≤ j) × (j < lo + m)) ⊎ (get j points ≡ some (B.generator • eval cs (B.from_u64 j)))
        → get j (gathered points (map sent (range lo m)))
          ≡ some (B.generator • eval cs (B.from_u64 j))
    unfolding gathered
    get-gathered points lo zero j honest (inl h) = absurd (omega (arith, h.0, h.1))
    get-gathered points lo zero j honest (inr h) = h
    get-gathered points lo (suc m) j honest h =
        let v = honest lo (omega arith) (omega arith) in
        get-gathered (insert (sent lo).index (sent lo).proof.point points) (suc lo) m j
          (λ i low high. honest i (omega (arith, low)) (omega (arith, high)))
          (elim (Bool-cases (j == lo)) [
            | inl e ↦ inr (
                get-insert j (sent lo).index (sent lo).proof.point points
                ∙ rw (v.index_is, e)
                    (ap some (
                      v.point_is
                      ∙ ap (λ i. B.generator • eval cs (B.from_u64 i)) (sym ((==_iff j lo).0 e)))))
            | inr e ↦ elim h [
              | inl bounds ↦ inl (ground (arith, bounds.0), omega (arith, bounds.1))
              | inr known ↦ inr (
                  get-insert j (sent lo).index (sent lo).proof.point points
                  ∙ rw (v.index_is, e) known)
            ]
          ])

module _ ⦃B : Backend⦄ ⦃L : FieldLaws B⦄ ⦃G : GroupLaws B⦄ where
  -- A window that ends before 256 does not wrap around.
  window_lem :
      (parameters : Parameters) (i : ℕ)
      → i + parameters.threshold < 256
      → window parameters i ≡ range i parameters.threshold
  window_lem parameters i h =
      ap (range i) {x = (i + parameters.threshold) % 256 - i} {y = parameters.threshold}
        (omega (arith, h))

  -- Every window gives the same key, so the check passes.
  check_windows_lem :
      (parameters : Parameters) (own : PartyIndex) (points : BTreeMap B.Point) (cs : List B.Scalar)
      (lo m : ℕ) (pk : B.Point)
      → SmallNumbers B parameters.share_count
      → 1 ≤ lo
      → lo + m + parameters.threshold ≤ suc (suc parameters.share_count)
      → parameters.share_count < 255
      → length cs ≤ parameters.threshold
      → ((j : ℕ)
          → 1 ≤ j
          → j ≤ parameters.share_count
          → get j points ≡ some (B.generator • eval cs (B.from_u64 j)))
      → ((lo ≡ 1) × (1 ≤ m)) ⊎ ((1 < lo) × (pk ≡ B.generator • eval cs B.zero))
      → check_windows parameters own points pk (range lo m) ≡ ok (B.generator • eval cs B.zero)
  unfolding check_windows
  check_windows_lem parameters own points cs lo zero pk small one fits byte enough has (inl start) =
      absurd (omega (arith, start.1))
  check_windows_lem parameters own points cs lo zero pk small one fits byte enough has (inr start) =
      ap ok start.1
  check_windows_lem parameters own points cs lo (suc m) pk small one fits byte enough has start =
      let key = B.generator • eval cs B.zero in
      let t = parameters.threshold in
      let plain : window parameters lo ≡ range lo t =
        window_lem parameters lo (omega (arith, fits, byte)) in
      let found : reconstruct own points (range lo t) B.identity (range lo t) ≡ ok key =
        reconstruct-eval own points cs parameters.share_count small lo t one (omega (arith, fits))
          enough
          (λ j c.
            let (low, high) = contains-range lo t j c in
            (
              has j (omega (arith, low, one)) (omega (arith, high, fits)),
              omega (arith, low, one),
            )) in
      let rest : (pk' : B.Point)
          → pk' ≡ key
          → check_windows parameters own points pk' (range (suc lo) m) ≡ ok key =
        λ pk' e.
          check_windows_lem parameters own points cs (suc lo) m pk' small (omega arith)
            (omega (arith, fits)) byte enough has (inr (omega (arith, one), e)) in
      elim start [
        | inl first ↦ rw (plain, found, (==_iff lo 1).1 first.0) (rest key refl)
        | inr later ↦
            rw
              (
                plain,
                found,
                ==_false lo 1 (λ e. omega (arith, later.0, e)),
                later.1,
                eq_point_refl key,
              )
              (rest key refl)
      ]

  -- Let the parameters be valid with fewer than 255 parties, let the indices of the parties be
  -- different scalars, and let every party j have sent a proof of knowledge that verifies
  -- for the point `f(j) * generator`, where f has at most `threshold` coefficients. Then step 5
  -- succeeds, the public key is `f(0) * generator`, and the point that is kept for each party j is
  -- `f(j) * generator`.
  pub step5-Honest :
      (parameters : Parameters) (own : PartyIndex) (sid : Bytes) (cs : List B.Scalar)
      (sent : ℕ → ProofCommitment B)
      → 2 ≤ parameters.threshold
      → parameters.threshold ≤ parameters.share_count
      → parameters.share_count < 255
      → SmallNumbers B parameters.share_count
      → length cs ≤ parameters.threshold
      → ((j : ℕ) → 1 ≤ j → j < 1 + parameters.share_count → Honest sid cs j (sent j))
      → (points : BTreeMap B.Point) × (step5 parameters own sid
            (map sent (range 1 parameters.share_count))
          ≡ ok (B.generator • eval cs B.zero, points))
        × ((j : ℕ)
            → 1 ≤ j
            → j ≤ parameters.share_count
            → get j points ≡ some (B.generator • eval cs (B.from_u64 j)))
  unfolding step5
  step5-Honest parameters own sid cs sent two le byte small enough honest =
      let n = parameters.share_count in
      let kept = gathered [] (map sent (range 1 n)) in
      let has : (j : ℕ) → 1 ≤ j → j ≤ n → get j kept ≡ some (B.generator • eval cs (B.from_u64 j)) =
        λ j low high.
          get-gathered own sid cs sent [] 1 n j honest (inl (low, omega (arith, high))) in
      let m = (256 + n - parameters.threshold + 1) % 256 in
      (
        kept,
        rw
            (
              gather_lem own sid cs sent [] 1 n honest,
              check_windows_lem parameters own kept cs 1 m B.identity small (omega arith)
                  (omega (arith, two, le, byte)) byte enough has
                  (inl (refl, omega (arith, two, le, byte))),
            )
            refl,
        has,
      )

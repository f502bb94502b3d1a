-- ===== src/Protocols/Dkg/Consistency.antt =====
-- What a successful step 5 has checked, whatever the other parties sent.
use kawasekit_dkls.Prelude.{
  ℕ, suc, zero, ◌+◌, ◌-◌, ◌%◌, ◌≤◌, ◌<◌, ◌≡◌, refl, sym, ap, ◌∙◌, subst, List, [], ◌∷◌, Bool, true,
  false, not, ◌&&◌, range, ◌==◌, ==_iff, inl, inr, ◌⊎◌, Result, if◌then◌else◌, Bytes, ok, err,
  >>=-eq-ok, BTreeMap, insert, All, arith,
}
use kawasekit_dkls.Backend.{Backend, GroupLaws, ◌=ₚ◌}
use kawasekit_dkls.Utilities.Proofs.DLog.{decommit_verify}
use kawasekit_dkls.Protocols.{PartyIndex, Parameters}
use kawasekit_dkls.Protocols.Dkg.{
  ProofCommitment, gather, reconstruct, check_windows, window, window_starts, step5,
}

branch_ok {ℓ κ} :
    {E : Type ℓ} {A : Type κ} (first same : Bool) (x y : Result E A) (e : E) (a : A)
    → (if first then x else if not same then err e else y) ≡ ok a
    → ((first ≡ true) × (x ≡ ok a)) ⊎ ((same ≡ true) × (y ≡ ok a))
branch_ok true same x y e a h = inl (refl, h)
branch_ok false true x y e a h = inr (refl, h)
branch_ok false false x y e a h = cc

guard_ok {ℓ κ} :
    {E : Type ℓ} {A : Type κ} (refused : Bool) (y : Result E A) (e : E) (a : A)
    → (if refused then err e else y) ≡ ok a
    → (refused ≡ false) × (y ≡ ok a)
guard_ok true y e a h = cc
guard_ok false y e a h = (refl, h)

checked_by :
    (own verified : Bool) → (not own && not verified) ≡ false → (own ≡ true) ⊎ (verified ≡ true)
checked_by true verified h = inl refl
checked_by false true h = inr refl
checked_by false false h = cc

module _ ⦃B : Backend⦄ ⦃G : GroupLaws B⦄ where
  -- If the check passes, it goes on with the key of the window, which is the one before except at
  -- the first window.
  pub check_windows_step :
      (parameters : Parameters) (own : PartyIndex) (points : BTreeMap B.Point) (pk found : B.Point)
      (i : ℕ) (is : List ℕ)
      → check_windows parameters own points pk (i ∷ is) ≡ ok found
      → (current : B.Point) × (reconstruct own points
            (window parameters i)
            B.identity
            (window parameters i)
          ≡ ok current)
        × ((i ≡ 1) ⊎ (pk ≡ current))
        × (check_windows parameters own points current is ≡ ok found)
  unfolding check_windows
  check_windows_step parameters own points pk found i is h =
      let (current, now, next) =
        >>=-eq-ok (reconstruct own points (window parameters i) B.identity (window parameters i)) _
          h in
      elim (branch_ok (i == 1) (pk =ₚ current) _ _ _ found next) [
        | inl e ↦ (current, now, inl ((==_iff i 1).0 e.0), e.1)
        | inr e ↦
            let same : pk ≡ current = (G.eq_point_iff pk current).0 e.0 in
            (
              current,
              now,
              inr same,
              subst (λ p. check_windows parameters own points p is ≡ ok found) same e.1,
            )
      ]

  -- What the loop interpolates from i on gives this key.
  abbrev LoopGives : Parameters → PartyIndex → BTreeMap B.Point → B.Point → ℕ → Type 0
  LoopGives parameters own points pk i =
      reconstruct own points (window parameters i) B.identity (window parameters i) ≡ ok pk

  -- The `threshold` parties from i on give this key by interpolation.
  abbrev pub Gives : Parameters → PartyIndex → BTreeMap B.Point → B.Point → ℕ → Type 0
  Gives parameters own points pk i =
      let parties = range i parameters.threshold in
      reconstruct own points parties B.identity parties ≡ ok pk

  -- Where no sum wraps around, the loop's windows have `threshold` parties.
  whole_windows :
      (parameters : Parameters) (own : PartyIndex) (points : BTreeMap B.Point) (pk : B.Point)
      (lo m : ℕ)
      → lo + m + parameters.threshold ≤ 256
      → All (LoopGives parameters own points pk) (range lo m)
      → All (Gives parameters own points pk) (range lo m)
  whole_windows parameters own points pk lo zero fits h = tt
  whole_windows parameters own points pk lo (suc m) fits h =
      let t = parameters.threshold in
      let whole : window parameters lo ≡ range lo t =
        ap (range lo) {x = (lo + t) % 256 - lo} {y = t} (omega (arith, fits)) in
      (
        subst (λ w. reconstruct own points w B.identity w ≡ ok pk) whole h.0,
        whole_windows parameters own points pk (suc lo) m (omega (arith, fits)) h.1,
      )

  later_windows :
      (parameters : Parameters) (own : PartyIndex) (points : BTreeMap B.Point) (pk found : B.Point)
      (lo m : ℕ)
      → 1 < lo
      → check_windows parameters own points pk (range lo m) ≡ ok found
      → (pk ≡ found) × All (LoopGives parameters own points found) (range lo m)
  unfolding check_windows
  later_windows parameters own points pk found lo zero high h = (cc, tt)
  later_windows parameters own points pk found lo (suc m) high h =
      let (current, now, before, next) =
        check_windows_step parameters own points pk found lo (range (suc lo) m) h in
      let (same, rest) =
        later_windows parameters own points current found (suc lo) m (omega (arith, high)) next in
      elim before [
        | inl e ↦ absurd (omega (arith, e, high))
        | inr e ↦ (e ∙ same, (now ∙ ap ok same, rest))
      ]

  -- The check of one party's proof in the first loop.
  abbrev pub IsChecked : PartyIndex → Bytes → ProofCommitment B → Type 0
  IsChecked own sid p = (p.index ≡ own) ⊎ (decommit_verify p.proof p.commitment sid ≡ true)

  gather-IsChecked :
      (own : PartyIndex) (sid : Bytes) (points kept : BTreeMap B.Point)
      (sent : List (ProofCommitment B))
      → gather own sid points sent ≡ ok kept
      → All (IsChecked own sid) sent
  unfolding gather
  gather-IsChecked own sid points kept [] h = tt
  gather-IsChecked own sid points kept (p ∷ sent) h =
      let (passed, next) =
        guard_ok (not (p.index == own) && not (decommit_verify p.proof p.commitment sid)) _ _ kept
          h in
      let rest = gather-IsChecked own sid (insert p.index p.proof.point points) kept sent next in
      elim (checked_by (p.index == own) (decommit_verify p.proof p.commitment sid) passed) [
        | inl mine ↦ (inl ((==_iff p.index own).0 mine), rest)
        | inr verified ↦ (inr verified, rest)
      ]

  -- Whatever the other parties sent: if the parameters are valid, there are less than 255 parties
  -- and step 5 returns a public key, then every proof but the party's own has verified, and any
  -- `threshold` parties in a row, up to the last party, give that same key by interpolation.
  pub step5_sound :
      (parameters : Parameters) (own : PartyIndex) (sid : Bytes) (sent : List (ProofCommitment B))
      (pk : B.Point) (points : BTreeMap B.Point)
      → 2 ≤ parameters.threshold
      → parameters.threshold ≤ parameters.share_count
      → parameters.share_count < 255
      → step5 parameters own sid sent ≡ ok (pk, points)
      → All (IsChecked own sid) sent
        × All
            (Gives parameters own points pk)
            (range 1 (suc (parameters.share_count - parameters.threshold)))
  unfolding step5
  step5_sound parameters own sid sent pk points two le byte h =
      let m = parameters.share_count - parameters.threshold in
      let (kept, taken, after) = >>=-eq-ok (gather own sid [] sent) _ h in
      let (key, checked, same) =
        >>=-eq-ok (check_windows parameters own kept B.identity (window_starts parameters)) _
          after in
      let starts : window_starts parameters ≡ range 1 (suc m) =
        ap (range 1) {x = (256 + parameters.share_count - parameters.threshold + 1) % 256}
          {y = suc m} (omega (arith, two, le, byte)) in
      let run : check_windows parameters own kept B.identity (range 1 (suc m)) ≡ ok key =
        ap (check_windows parameters own kept B.identity) (sym starts) ∙ checked in
      let (current, now, _, next) =
        check_windows_step parameters own kept B.identity key 1 (range 2 m) run in
      let (last, rest) = later_windows parameters own kept current key 2 m (omega arith) next in
      let kept_is : kept ≡ points = cc in
      let key_is : key ≡ pk = cc in
      (
        gather-IsChecked own sid [] kept sent taken,
        subst (λ t. All (Gives parameters own t pk) (range 1 (suc m))) kept_is
            (subst (λ t. All (Gives parameters own kept t) (range 1 (suc m))) key_is
              (whole_windows parameters own kept key 1 (suc m) (omega (arith, le, byte))
                (now ∙ ap ok last, rest))),
      )

-- ===== src/Protocols/Dkg/Wrap.antt =====
-- What the wrap-around of `u8` does to step 5 when there are 255 parties.
use kawasekit_dkls.Prelude.{
  ℕ, suc, zero, ◌+◌, ◌-◌, ◌%◌, ◌≤◌, ◌≡◌, sym, ap, ◌∙◌, List, [], range, Bytes, ok, >>=-eq-ok,
  BTreeMap, arith,
}
use kawasekit_dkls.Backend.{Backend, GroupLaws}
use kawasekit_dkls.Protocols.{PartyIndex, Parameters}
use kawasekit_dkls.Protocols.Dkg.{
  ProofCommitment, gather, reconstruct, check_windows, window, window_starts, step5,
}
use kawasekit_dkls.Protocols.Dkg.Consistency.{check_windows_step}

module _ ⦃B : Backend⦄ ⦃G : GroupLaws B⦄ where
  -- A last window without parties leaves the point at infinity.
  check_windows_empty :
      (parameters : Parameters) (own : PartyIndex) (points : BTreeMap B.Point) (pk : B.Point)
      (lo m : ℕ) (found : B.Point)
      → window parameters (lo + m) ≡ []
      → check_windows parameters own points pk (range lo (suc m)) ≡ ok found
      → found ≡ B.identity
  unfolding reconstruct check_windows
  check_windows_empty parameters own points pk lo zero found empty h =
      let (current, now, _, next) = check_windows_step parameters own points pk found lo [] h in
      let none_left : window parameters lo ≡ [] =
        ap (window parameters) {x = lo} {y = lo + 0} (omega arith) ∙ empty in
      let key : ok current ≡ ok B.identity =
        sym now ∙ ap (λ w. reconstruct own points w B.identity w) none_left in
      cc
  check_windows_empty parameters own points pk lo (suc m) found empty h =
      let (current, _, _, next) =
        check_windows_step parameters own points pk found lo (range (suc lo) (suc m)) h in
      check_windows_empty parameters own points current (suc lo) m found
        (ap (window parameters) {x = suc lo + m} {y = lo + suc m} (omega arith) ∙ empty) next

  -- With 255 parties and a threshold between 2 and 255, step 5 never returns a public key other
  -- than the point at infinity, whatever it is given: the bound of its last window wraps around
  -- to zero.
  pub step5_full :
      (parameters : Parameters) (own : PartyIndex) (sid : Bytes) (sent : List (ProofCommitment B))
      (pk : B.Point) (points : BTreeMap B.Point)
      → parameters.share_count ≡ 255
      → 2 ≤ parameters.threshold
      → parameters.threshold ≤ 255
      → step5 parameters own sid sent ≡ ok (pk, points)
      → pk ≡ B.identity
  unfolding step5
  step5_full parameters own sid sent pk points full two le h =
      let t = parameters.threshold in
      let (kept, _, after) = >>=-eq-ok (gather own sid [] sent) _ h in
      let (key, checked, same) =
        >>=-eq-ok (check_windows parameters own kept B.identity (window_starts parameters)) _
          after in
      let starts : window_starts parameters ≡ range 1 (suc (255 - t)) =
        ap (range 1) {x = (256 + parameters.share_count - t + 1) % 256} {y = suc (255 - t)}
          (omega (arith, full, two, le)) in
      let last : window parameters (1 + (255 - t)) ≡ [] =
        ap (range (1 + (255 - t))) {x = (1 + (255 - t) + t) % 256 - (1 + (255 - t))} {y = 0}
          (omega (arith, two, le)) in
      let trivial : key ≡ B.identity =
        check_windows_empty parameters own kept B.identity 1 (255 - t) key last
          (ap (check_windows parameters own kept B.identity) (sym starts) ∙ checked) in
      cc

-- ===== src/Protocols/Derivation/Shift.antt =====
-- A derivation moves all key shares and the key by one tweak.
use kawasekit_dkls.Prelude.{
  ℕ, ◌+◌, ◌%◌, ◌≡◌, ◌≤◌, refl, sym, ap, ◌∙◌, List, [], ◌∷◌, false, ◌==◌, ltb, Bytes, length, Result,
  ok, ◌>>◌, fail_if, >>=-eq-ok, fail_if-eq-ok, arith,
}
use kawasekit_dkls.Backend.{Backend, FieldLaws, GroupLaws, ◌⊕◌, ◌⊞◌, ◌•◌, ◌=ₚ◌}
use kawasekit_dkls.Backend.Ring.{add-zero, point_mul-zero, point_add_comm}
use kawasekit_dkls.Protocols.Signing.{DerivData}
use kawasekit_dkls.Protocols.Derivation.{
  DerivHashes, ErrorDeriv, error_deriv, max_depth, max_child_number, child_tweak, derive_child,
  derive_all, derive_from_path, parse_path,
}

module _ ⦃B : Backend⦄ ⦃H : DerivHashes⦄ where
  child_tweak-share :
      (parent : DerivData B) (n : ℕ) (p : B.Scalar)
      → child_tweak (record parent { poly_point = p }) n ≡ child_tweak parent n
  unfolding child_tweak
  child_tweak-share parent n p = refl

  -- One step: the tweak is the same for every share.
  derive_child-shift :
      (parent : DerivData B) (n : ℕ) (child : DerivData B)
      → derive_child parent n ≡ ok child
      → (t : B.Scalar) × ((p : B.Scalar)
          → derive_child (record parent { poly_point = p }) n
            ≡ ok (record child { poly_point = p ⊕ t }))
        × (child.poly_point ≡ parent.poly_point ⊕ t)
        × (child.pk ≡ B.generator • t ⊞ parent.pk)
        × (child.depth ≡ (parent.depth + 1) % 256)
        × ((parent.depth == max_depth) ≡ false)
  unfolding derive_child
  derive_child-shift parent n child h =
      let not_deep =
        fail_if {E = ErrorDeriv} (parent.depth == max_depth)
          (error_deriv "We are already at maximum depth!") in
      let not_big =
        fail_if {E = ErrorDeriv} (ltb max_child_number n)
          (error_deriv "Child index should be between 0 and 2^31 - 1!") in
      let (made, before, after) = >>=-eq-ok (not_deep >> not_big >> child_tweak parent n) _ h in
      let (_, guards, tweaked) = >>=-eq-ok (not_deep >> not_big) _ before in
      let (_, deep_ok, big_ok) = >>=-eq-ok not_deep _ guards in
      let new_pk = B.generator • made.0 ⊞ parent.pk in
      let (_, valid_ok, last) =
        >>=-eq-ok
          (fail_if {E = ErrorDeriv} (new_pk =ₚ B.identity)
            (error_deriv "Very improbable: Child index results in value not allowed by BIP-32!"))
          _ after in
      let same : record {
        depth = (parent.depth + 1) % 256;
        child_number = n;
        parent_fingerprint = made.2;
        poly_point = parent.poly_point ⊕ made.0;
        pk = new_pk;
        chain_code = made.1;
      }
          ≡ child =
        cc in
      (
        made.0,
        λ p.
            rw
              (
                fail_if-eq-ok _ _ deep_ok,
                fail_if-eq-ok _ _ big_ok,
                child_tweak-share parent n p,
                tweaked,
                fail_if-eq-ok _ _ valid_ok,
              )
              (ap {A = DerivData B} {B = Result ErrorDeriv (DerivData B)}
                (λ c. ok (record c { poly_point = p ⊕ made.0 })) same),
        sym (ap (λ c. c.poly_point) same),
        sym (ap (λ c. c.pk) same),
        sym (ap (λ c. c.depth) same),
        fail_if-eq-ok _ _ deep_ok,
      )

  module _ ⦃L : FieldLaws B⦄ ⦃G : GroupLaws B⦄ where
    tweak_sum :
        (t u : B.Scalar) (pk : B.Point)
        → B.generator • u ⊞ (B.generator • t ⊞ pk) ≡ B.generator • (t ⊕ u) ⊞ pk
    tweak_sum t u pk =
        sym (G.point_add_assoc (B.generator • u) (B.generator • t) pk)
        ∙ ap (λ q. q ⊞ pk)
            (point_add_comm (B.generator • u) (B.generator • t)
              ∙ sym (G.point_mul-add B.generator t u))

    next_depth :
        (depth : ℕ) → depth ≤ 255 → (depth == max_depth) ≡ false → (depth + 1) % 256 ≡ depth + 1
    next_depth depth h e = ground arith

    next_bound :
        (depth next : ℕ)
        → depth ≤ 255
        → (depth == max_depth) ≡ false
        → next ≡ depth + 1
        → next ≤ 255
    next_bound depth next h e f = ground arith

    -- The outcome of a derivation: the tweak of the shares, and the depth.
    record Shifted (start final : DerivData B) (nums : List ℕ) : Type 0 where
      pub tweak : B.Scalar
      pub every_share :
          (p : B.Scalar)
          → derive_all (record start { poly_point = p }) nums
            ≡ ok (record final { poly_point = p ⊕ tweak })
      pub own_share : final.poly_point ≡ start.poly_point ⊕ tweak
      pub key : final.pk ≡ B.generator • tweak ⊞ start.pk
      pub depth_sum : final.depth ≡ start.depth + length nums
      pub depth_bound : final.depth ≤ 255

    derive_all-Shifted :
        (start : DerivData B) (nums : List ℕ) (final : DerivData B)
        → start.depth ≤ 255
        → derive_all start nums ≡ ok final
        → Shifted start final nums
    unfolding derive_all
    derive_all-Shifted start [] final bound h =
        let same : start ≡ final = cc in
        record {
          tweak = B.zero;
          every_share = λ p.
              ap {A = DerivData B} {B = Result ErrorDeriv (DerivData B)}
                (λ c. ok (record c { poly_point = p })) same
              ∙ ap {A = B.Scalar} {B = Result ErrorDeriv (DerivData B)}
                  (λ a. ok (record final { poly_point = a })) (sym (add-zero p));
          own_share = ap (λ c. c.poly_point) (sym same) ∙ sym (add-zero start.poly_point);
          key =
              ap (λ c. c.pk) (sym same)
              ∙ sym (
                  ap (λ q. q ⊞ start.pk) (point_mul-zero B.generator)
                  ∙ G.identity-point_add start.pk);
          depth_sum = let e : start.depth ≡ final.depth = ap (λ c. c.depth) same in omega arith;
          depth_bound = let e : start.depth ≡ final.depth = ap (λ c. c.depth) same in omega arith;
        }
    derive_all-Shifted start (n ∷ ns) final bound h =
        let (child, first, rest) = >>=-eq-ok (derive_child start n) _ h in
        let (t, shares, own, pk, depth, shallow) = derive_child-shift start n child first in
        let d : child.depth ≡ start.depth + 1 = depth ∙ next_depth start.depth bound shallow in
        let b : child.depth ≤ 255 = next_bound start.depth child.depth bound shallow d in
        let r = derive_all-Shifted child ns final b rest in
        record {
          tweak = t ⊕ r.tweak;
          every_share = λ p. rw (shares p) (
              r.every_share (p ⊕ t)
              ∙ ap {A = B.Scalar} {B = Result ErrorDeriv (DerivData B)}
                  (λ a. ok (record final { poly_point = a })) (L.add_assoc p t r.tweak));
          own_share =
              r.own_share ∙ ap (λ a. a ⊕ r.tweak) own ∙ L.add_assoc start.poly_point t r.tweak;
          key = r.key ∙ ap (λ q. B.generator • r.tweak ⊞ q) pk ∙ tweak_sum t r.tweak start.pk;
          depth_sum = let e : final.depth ≡ child.depth + length ns = r.depth_sum in omega arith;
          depth_bound = r.depth_bound;
        }

    -- Let a derivation along a path succeed. Then there is one tweak that the derivation adds to
    -- whatever share of the key it starts from, the key moves by the multiple of the generator by
    -- the same tweak, and the depth grows by the number of children on the path, without
    -- overflowing its u8. The depth at the start has to be a u8.
    pub derive_from_path-shift :
        (start : DerivData B) (path : Bytes) (final : DerivData B)
        → start.depth ≤ 255
        → derive_from_path start path ≡ ok final
        → (t : B.Scalar) × ((p : B.Scalar)
            → derive_from_path (record start { poly_point = p }) path
              ≡ ok (record final { poly_point = p ⊕ t }))
          × (final.poly_point ≡ start.poly_point ⊕ t)
          × (final.pk ≡ B.generator • t ⊞ start.pk)
          × (nums : List ℕ) × (parse_path path ≡ ok nums)
          × (final.depth ≡ start.depth + length nums)
          × (final.depth ≤ 255)
    unfolding derive_from_path
    derive_from_path-shift start path final bound h =
        let (nums, parsed, derived) = >>=-eq-ok (parse_path path) _ h in
        let r = derive_all-Shifted start nums final bound derived in
        (
          r.tweak,
          λ p. rw parsed (r.every_share p),
          r.own_share,
          r.key,
          nums,
          parsed,
          r.depth_sum,
          r.depth_bound,
        )

-- ===== src/Protocols/Derivation/Package.antt =====
-- The child of a public key package is the one of the parties' derivation data.
use kawasekit_dkls.Prelude.{
  ℕ, ◌+◌, ◌%◌, ◌≡◌, refl, sym, ap, ◌∙◌, [], ◌∷◌, ◌==◌, ltb, Bytes, Option, some, BTreeMap, get, ok,
  ◌>>◌, fail_if, >>=-eq-ok, fail_if-eq-ok, inl, inr, Bool-cases, take,
}
use kawasekit_dkls.Backend.{Backend, GroupLaws, FieldLaws, ◌⊕◌, ◌⊞◌, ◌•◌, ◌=ₚ◌}
use kawasekit_dkls.Utilities.Hashes.{point_to_bytes}
use kawasekit_dkls.Backend.Ring.{point_add_comm}
use kawasekit_dkls.Protocols.{PublicKeyPackage}
use kawasekit_dkls.Protocols.Signing.{DerivData}
use kawasekit_dkls.Protocols.Derivation.{
  DerivHashes, ErrorDeriv, error_deriv, max_depth, max_child_number, tweak_of, child_tweak,
  derive_child, shift_shares, package_derive_child,
}

module _ ⦃B : Backend⦄ ⦃H : DerivHashes⦄ where
  get-shift_shares :
      (i : ℕ) (q s : B.Point) (shares : BTreeMap B.Point)
      → get i shares ≡ some s
      → get i (shift_shares q shares) ≡ some (q ⊞ s)
  unfolding get shift_shares
  get-shift_shares i q s [] h = cc
  get-shift_shares i q s (e ∷ es) h = elim (Bool-cases (i == e.0)) [
    | inl k ↦
        let same : ◌≡◌ {A = Option B.Point} (some e.1) (some s) = rw k at h in
        let point : e.1 ≡ s = cc in rw k (ap (λ t. some (q ⊞ t)) point)
    | inr k ↦ rw k (get-shift_shares i q s es (rw k at h))
  ]

  -- Let a party derive a child, and let a public key package hold the party's public key. Then the
  -- package derives a child with the same chain code and number, the two children have the same
  -- public key, and every public share p G of the package becomes (p + t) G, for the tweak t by
  -- which the party's own share grows.
  pub package_derive_child-derive_child :
      ⦃L : FieldLaws B⦄ ⦃G : GroupLaws B⦄ (pkg : PublicKeyPackage B) (parent child : DerivData B)
      (n : ℕ)
      → pkg.verifying_key ≡ parent.pk
      → derive_child parent n ≡ ok child
      → (derived : PublicKeyPackage B) × (package_derive_child pkg parent.chain_code n ≡ ok derived)
        × (derived.verifying_key ≡ child.pk)
        × (t : B.Scalar) × (child.poly_point ≡ parent.poly_point ⊕ t)
        × ((i : ℕ) (p : B.Scalar)
            → get i pkg.verifying_shares ≡ some (B.generator • p)
            → get i derived.verifying_shares ≡ some (B.generator • (p ⊕ t)))
  unfolding derive_child child_tweak package_derive_child
  package_derive_child-derive_child ⦃G = G⦄ pkg parent child n k h =
      let not_deep =
        fail_if {E = ErrorDeriv} (parent.depth == max_depth)
          (error_deriv "We are already at maximum depth!") in
      let not_big =
        fail_if {E = ErrorDeriv} (ltb max_child_number n)
          (error_deriv "Child index should be between 0 and 2^31 - 1!") in
      let (made, before, after) = >>=-eq-ok (not_deep >> not_big >> child_tweak parent n) _ h in
      let (_, guards, tweaked) = >>=-eq-ok (not_deep >> not_big) _ before in
      let (_, _, big_ok) = >>=-eq-ok not_deep _ guards in
      let (tweak, tweak_ok, fingerprint) =
        >>=-eq-ok (tweak_of parent.chain_code parent.pk n) _ tweaked in
      let (_, valid_ok, last) =
        >>=-eq-ok
          (fail_if {E = ErrorDeriv} (B.generator • made.0 ⊞ parent.pk =ₚ B.identity)
            (error_deriv "Very improbable: Child index results in value not allowed by BIP-32!"))
          _ after in
      let parts : ◌≡◌ {A = B.Scalar × Bytes × Bytes}
          (tweak.0, tweak.1, take 4 (H.ripemd160 (B.sha256 (point_to_bytes parent.pk)))) made =
        cc in
      let heads : tweak.0 ≡ made.0 = ap (λ m. m.0) parts in
      let same : record {
        depth = (parent.depth + 1) % 256;
        child_number = n;
        parent_fingerprint = made.2;
        poly_point = parent.poly_point ⊕ made.0;
        pk = B.generator • made.0 ⊞ parent.pk;
        chain_code = made.1;
      }
          ≡ child =
        cc in
      (
        record {
          verifying_key = B.generator • made.0 ⊞ parent.pk;
          verifying_shares = shift_shares (B.generator • made.0) pkg.verifying_shares;
          parameters = pkg.parameters;
        },
        rw (fail_if-eq-ok _ _ big_ok, k, tweak_ok, heads, fail_if-eq-ok _ _ valid_ok) refl,
        ap (λ c. c.pk) same,
        made.0,
        sym (ap (λ c. c.poly_point) same),
        λ i p g.
            get-shift_shares i (B.generator • made.0) (B.generator • p) pkg.verifying_shares g
            ∙ ap some (
                point_add_comm (B.generator • made.0) (B.generator • p)
                ∙ sym (G.point_mul-add B.generator p made.0)),
      )

-- ===== src/Protocols/Dkg/Windows.antt =====
-- What the loops of step 5 compute when the points come from one polynomial.
use kawasekit_dkls.Prelude.{
  ℕ, suc, zero, ◌+◌, ◌≤◌, ◌<◌, ◌≡◌, ◌≢◌, refl, sym, ap, ap₂, ◌∙◌, subst, List, [], ◌∷◌, length,
  true, range, length-range, some, ◌==◌, ==_refl, ==_iff, ==_false, Bool-cases, inl, inr, ok,
  BTreeMap, get, arith,
}
use kawasekit_dkls.Backend.{Backend, FieldLaws, GroupLaws, ◌⊕◌, ◌⊖◌, ◌⊗◌, ◌⊞◌, ◌•◌}
use kawasekit_dkls.Backend.Ring.{
  mul_assoc, mul-one, one-mul, point_add_assoc, point_add_comm, identity-point_add,
  point_add-identity, point_mul-zero,
}
use kawasekit_dkls.Backend.Ring.Sum.{sum, contains}
use kawasekit_dkls.Backend.Polynomial.{eval}
use kawasekit_dkls.Backend.Polynomial.Differences.{
  inverse, denominator, Apart, Apart-node, denominator_ne,
}
use kawasekit_dkls.Backend.Polynomial.Lagrange.{numerator, lagrange}
use kawasekit_dkls.Protocols.{PartyIndex}
use kawasekit_dkls.Protocols.Dkg.{
  lagrange_parts, divide_parts, lagrange_coefficient, committed_point, reconstruct,
}

-- The numbers of parties are different scalars, and zero is zero. It holds for fewer numbers than
-- there are scalars.
pub record SmallNumbers (B : Backend) (n : ℕ) : Type 0 where
  pub from_zero : B.from_u64 0 ≡ B.zero
  pub distinct : (i j : ℕ) → i ≤ n → j ≤ n → i ≢ j → B.from_u64 i ≢ B.from_u64 j

pub contains-range : (lo m j : ℕ) → contains (range lo m) j ≡ true → (lo ≤ j) × (j < lo + m)
unfolding contains
contains-range lo zero j h = cc
contains-range lo (suc m) j h = elim (Bool-cases (lo == j)) [
  | inl e ↦ (omega (arith, (==_iff lo j).0 e), omega (arith, (==_iff lo j).0 e))
  | inr e ↦
      let (low, high) = contains-range (suc lo) m j (ground arith) in
      (omega (arith, low), omega (arith, high))
]

module _ ⦃B : Backend⦄ (n : ℕ) (small : SmallNumbers B n) where
  pub Apart-range : (lo m : ℕ) → lo + m ≤ suc n → Apart B.from_u64 (range lo m)
  unfolding Apart
  Apart-range lo zero h = tt
  Apart-range lo (suc m) h = (
    (λ j c.
        let (low, high) = contains-range (suc lo) m j c in
        small.distinct lo j (omega (arith, h)) (omega (arith, h, high))
          (λ e. omega (arith, low, e))),
    Apart-range (suc lo) m (omega (arith, h)),
  )

  pub Apart-zero-range : (lo m : ℕ) → 1 ≤ lo → lo + m ≤ suc n → Apart B.from_u64 (0 ∷ range lo m)
  unfolding Apart
  Apart-zero-range lo m one h = (
    (λ j c.
        let (low, high) = contains-range lo m j c in
        small.distinct 0 j (omega arith) (omega (arith, h, high))
          (λ e. omega (arith, low, one, e))),
    Apart-range lo m h,
  )

module _ ⦃B : Backend⦄ ⦃L : FieldLaws B⦄ where
  lagrange_parts_lem :
      (j : ℕ) (a d : B.Scalar) (ks : List ℕ)
      → lagrange_parts j a d ks ≡ (a ⊗ numerator B.from_u64 ks j, d ⊗ denominator B.from_u64 ks j)
  unfolding lagrange_parts numerator denominator
  lagrange_parts_lem j a d [] = ap₂ (λ x y. (x, y)) (sym (mul-one a)) (sym (mul-one d))
  lagrange_parts_lem j a d (k ∷ ks) = elim (Bool-cases (k == j)) [
    | inl e ↦
        rw (e, one-mul (numerator B.from_u64 ks j), one-mul (denominator B.from_u64 ks j))
          (lagrange_parts_lem j a d ks)
    | inr e ↦ rw e (
        lagrange_parts_lem j (a ⊗ B.from_u64 k) (d ⊗ (B.from_u64 k ⊖ B.from_u64 j)) ks
        ∙ ap₂ (λ x y. (x, y)) (mul_assoc a _ _) (mul_assoc d _ _))
  ]

  divide_parts_lem : (a d : B.Scalar) → d ≢ B.zero → divide_parts (a, d) ≡ ok (a ⊗ inverse d)
  unfolding divide_parts inverse
  divide_parts_lem a d h =
      let (i, found, e) = L.invert_ne d h in rw (divide_parts, found, inverse) refl

  -- The coefficient of a party of the window: its denominator is not zero.
  pub lagrange_coefficient_lem :
      (j : ℕ) (ks : List ℕ)
      → Apart B.from_u64 ks
      → contains ks j ≡ true
      → lagrange_coefficient j ks
        ≡ ok (numerator B.from_u64 ks j ⊗ inverse (denominator B.from_u64 ks j))
  unfolding lagrange_coefficient
  lagrange_coefficient_lem j ks h m =
      ap divide_parts
        (lagrange_parts_lem j B.one B.one ks ∙ ap₂ (λ x y. (x, y)) (one-mul _) (one-mul _))
      ∙ divide_parts_lem _ (denominator B.from_u64 ks j)
          (denominator_ne B.from_u64 ks j (λ k mk. Apart-node B.from_u64 ks j k h m mk))

module _ ⦃B : Backend⦄ ⦃L : FieldLaws B⦄ ⦃G : GroupLaws B⦄ where
  -- The summand of a party in the interpolation at zero.
  pub share_term : List ℕ → List B.Scalar → ℕ → B.Scalar
  share_term ks cs j =
      eval cs (B.from_u64 j) ⊗ (numerator B.from_u64 ks j ⊗ inverse (denominator B.from_u64 ks j))

  -- The points of the parties are those of a polynomial's values.
  abbrev pub HasPoints : BTreeMap B.Point → List B.Scalar → List ℕ → Type 0
  HasPoints points cs ks =
      (j : ℕ)
      → contains ks j ≡ true
      → (get j points ≡ some (B.generator • eval cs (B.from_u64 j))) × (1 ≤ j)

  committed_point_lem :
      (own : PartyIndex) (points : BTreeMap B.Point) (j : ℕ) (p : B.Point)
      → get j points ≡ some p
      → 1 ≤ j
      → committed_point own points j ≡ ok p
  unfolding committed_point
  committed_point_lem own points j p h one = rw (==_false j 0 (λ e. omega (arith, e, one)), h) refl

  reconstruct_lem :
      (own : PartyIndex) (points : BTreeMap B.Point) (cs : List B.Scalar) (ks : List ℕ)
      (current : B.Point) (js : List ℕ)
      → Apart B.from_u64 ks
      → HasPoints points cs ks
      → ((j : ℕ) → contains js j ≡ true → contains ks j ≡ true)
      → reconstruct own points ks current js
        ≡ ok (B.generator • sum js (share_term ks cs) ⊞ current)
  unfolding reconstruct contains sum share_term
  reconstruct_lem own points cs ks current [] apart has inside =
      ap ok (sym (ap (λ t. t ⊞ current) (point_mul-zero B.generator) ∙ identity-point_add current))
  reconstruct_lem own points cs ks current (j ∷ js) apart has inside =
      let member : contains ks j ≡ true = inside j (ground (arith, ==_refl j)) in
      let (point, one) = has j member in
      let value = eval cs (B.from_u64 j) in
      let c = numerator B.from_u64 ks j ⊗ inverse (denominator B.from_u64 ks j) in
      rw (lagrange_coefficient_lem j ks apart member, committed_point_lem own points j _ point one)
        (reconstruct_lem own points cs ks (B.generator • value • c ⊞ current) js apart has
            (λ k m. inside k (ground arith))
          ∙ ap ok (
              sym (
                regroup (value ⊗ c) (sum js (share_term ks cs)) current
                ∙ ap (λ t. B.generator • sum js (share_term ks cs) ⊞ (t ⊞ current))
                    (G.point_mul-mul B.generator value c))))
    where
      regroup :
          (a b : B.Scalar) (q : B.Point)
          → B.generator • (a ⊕ b) ⊞ q ≡ B.generator • b ⊞ (B.generator • a ⊞ q)
      regroup a b q =
          ap (λ t. t ⊞ q) (G.point_mul-add B.generator a b ∙ point_add_comm _ _)
          ∙ point_add_assoc _ _ q

  -- A window of at least as many parties as there are coefficients gives the constant one.
  pub reconstruct-eval :
      (own : PartyIndex) (points : BTreeMap B.Point) (cs : List B.Scalar) (n : ℕ)
      (small : SmallNumbers B n) (lo m : ℕ)
      → 1 ≤ lo
      → lo + m ≤ suc n
      → length cs ≤ m
      → HasPoints points cs (range lo m)
      → reconstruct own points (range lo m) B.identity (range lo m)
        ≡ ok (B.generator • eval cs B.zero)
  unfolding share_term
  reconstruct-eval own points cs n small lo m one high enough has =
      reconstruct_lem own points cs (range lo m) B.identity (range lo m)
        (Apart-range n small lo m high) has (λ j c. c)
      ∙ ap ok (
          point_add-identity _
          ∙ ap (λ t. B.generator • t)
              (lagrange B.from_u64 0 (range lo m) cs small.from_zero
                (Apart-zero-range n small lo m one high)
                (subst (λ t. length cs ≤ t) (sym (length-range lo m)) enough)))

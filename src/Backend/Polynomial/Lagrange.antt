-- ===== src/Backend/Polynomial/Lagrange.antt =====
-- The Lagrange coefficients at zero, over distinct nodes other than zero.
use kawasekit_dkls.Prelude.{
  ℕ, ◌≡◌, ◌≢◌, ◌≤◌, refl, sym, ap, ap₂, ◌∙◌, true, List, [], ◌∷◌, length, arith, if◌then◌else◌,
  ◌==◌, ==_refl, ==_iff, ==_false, inl, inr, Bool-cases,
}
use kawasekit_dkls.Backend.{Backend, FieldLaws, ◌⊕◌, ◌⊗◌}
use kawasekit_dkls.Backend.Ring.{
  zero-add, add-zero, mul-zero, mul-add, mul_ac, mul-neg, neg-mul, one-mul, mul-one, mul_left_comm,
  neg-zero, neg-neg, sub_zero→eq,
}
use kawasekit_dkls.Backend.Ring.Sum.{sum, contains, sum_congr, sum-mul}
use kawasekit_dkls.Backend.Polynomial.{eval}
use kawasekit_dkls.Backend.Polynomial.Differences.{
  inverse, denominator, difference, Apart, Apart-node, mul-inverse, inverse-mul, inverse_unique,
  denominator_ne, difference-eval, sum-neg,
}

module _ ⦃B : Backend⦄ (s : ℕ → B.Scalar) where
  -- The product of `s k` over the other nodes k.
  unfoldable pub numerator : List ℕ → ℕ → B.Scalar
  numerator [] j = B.one
  numerator (k ∷ ks) j = (if k == j then B.one else s k) ⊗ numerator ks j

  unfoldable pub product : List ℕ → B.Scalar
  product [] = B.one
  product (k ∷ ks) = s k ⊗ product ks

module _ ⦃B : Backend⦄ ⦃L : FieldLaws B⦄ (s : ℕ → B.Scalar) where
  numerator_absent :
      (ks : List ℕ) (j : ℕ)
      → ((k : ℕ) → contains ks k ≡ true → s j ≢ s k)
      → numerator s ks j ≡ product s ks
  unfolding numerator product contains
  numerator_absent [] j h = refl
  numerator_absent (k ∷ ks) j h =
      rw (==_false k j (λ e. h k (ground (arith, ==_refl k)) (ap s (sym e))))
        (ap (λ t. s k ⊗ t) (numerator_absent ks j (λ i m. h i (ground arith))))

  numerator-mul :
      (ks : List ℕ) (j : ℕ)
      → Apart s ks
      → contains ks j ≡ true
      → s j ⊗ numerator s ks j ≡ product s ks
  unfolding numerator product contains Apart
  numerator-mul [] j h m = cc
  numerator-mul (a ∷ ks) j h m = elim (Bool-cases (a == j)) [
    | inl e ↦
        rw (e, one-mul (numerator s ks j), sym ((==_iff a j).0 e))
          (ap (λ t. s a ⊗ t) (numerator_absent ks a h.0))
    | inr e ↦
        rw e
          (mul_left_comm (s j) (s a) _ ∙ ap (λ t. s a ⊗ t) (numerator-mul ks j h.1 (ground arith)))
  ]

  -- The denominator at the node zero.
  denominator_zero :
      (z : ℕ) (ks : List ℕ)
      → s z ≡ B.zero
      → ((k : ℕ) → contains ks k ≡ true → s z ≢ s k)
      → denominator s ks z ≡ product s ks
  unfolding denominator product contains
  denominator_zero z [] e h = refl
  denominator_zero z (k ∷ ks) e h =
      rw (==_false k z (λ p. h k (ground (arith, ==_refl k)) (ap s (sym p))), e)
        (ap₂ ◌⊗◌ (ap (λ t. s k ⊕ t) neg-zero ∙ add-zero (s k))
          (denominator_zero z ks e (λ i m. h i (ground arith))))

  inverse-neg : (a : B.Scalar) → a ≢ B.zero → inverse (B.neg a) ≡ B.neg (inverse a)
  inverse-neg a h = sym (
      inverse_unique (B.neg a) (B.neg (inverse a))
        (λ e. h (sym (neg-neg a) ∙ ap B.neg e ∙ neg-zero))
        (neg-mul a (B.neg (inverse a))
          ∙ ap B.neg (mul-neg a (inverse a))
          ∙ neg-neg _
          ∙ mul-inverse a h))

  regroup : (a n p i d : B.Scalar) → (a ⊗ n) ⊗ (p ⊗ (B.neg i ⊗ d)) ≡ B.neg ((a ⊗ i) ⊗ (p ⊗ (n ⊗ d)))
  regroup a n p i d = simp (neg-mul, mul-neg, mul_ac)

  -- The term of a node in the difference with the node zero, and in the interpolation.
  node_term :
      (z j : ℕ) (ks : List ℕ) (p : B.Scalar)
      → s z ≡ B.zero
      → s z ≢ s j
      → Apart s ks
      → contains ks j ≡ true
      → product s ks ⊗ (p ⊗ inverse (denominator s (z ∷ ks) j))
        ≡ B.neg (p ⊗ (numerator s ks j ⊗ inverse (denominator s ks j)))
  node_term z j ks p e h hs m =
      let d = denominator s ks j in
      let head : denominator s (z ∷ ks) j ≡ B.neg (s j) ⊗ d =
        unfold denominator in
        rw (==_false z j (λ q. h (ap s q)), e)
          (ap (λ t. t ⊗ denominator s ks j) (zero-add (B.neg (s j)))) in
      let node_ne : s j ≢ B.zero = λ q. h (e ∙ sym q) in
      let neg_ne : B.neg (s j) ≢ B.zero =
        λ q. node_ne (sym (neg-neg (s j)) ∙ ap B.neg q ∙ neg-zero) in
      let d_ne : d ≢ B.zero = denominator_ne s ks j (λ k mk. Apart-node s ks j k hs m mk) in
      ap₂ (λ t u. t ⊗ (p ⊗ u)) (sym (numerator-mul ks j hs m))
        (ap inverse head
          ∙ inverse-mul (B.neg (s j)) d neg_ne d_ne
          ∙ ap (λ t. t ⊗ inverse d) (inverse-neg (s j) node_ne))
      ∙ regroup (s j) (numerator s ks j) p (inverse (s j)) (inverse d)
      ∙ ap (λ t. B.neg (t ⊗ (p ⊗ (numerator s ks j ⊗ inverse d)))) (mul-inverse (s j) node_ne)
      ∙ ap B.neg (one-mul _)

  -- The product of the nodes is the denominator at zero.
  zero_term :
      (z : ℕ) (ks : List ℕ) (p : B.Scalar)
      → s z ≡ B.zero
      → Apart s (z ∷ ks)
      → product s ks ⊗ (p ⊗ inverse (denominator s (z ∷ ks) z)) ≡ p
  unfolding Apart
  zero_term z ks p e h =
      let value : denominator s (z ∷ ks) z ≡ product s ks =
        unfold denominator in
        rw (==_refl z) (one-mul (denominator s ks z) ∙ denominator_zero z ks e h.0) in
      let ne : product s ks ≢ B.zero = λ q.
        denominator_ne s ks z (λ k m. inr (λ r. h.0 k m (sym r)))
          (denominator_zero z ks e h.0 ∙ q) in
      ap (λ t. product s ks ⊗ (p ⊗ inverse t)) value
      ∙ mul_left_comm _ p _
      ∙ ap (λ t. p ⊗ t) (mul-inverse (product s ks) ne)
      ∙ mul-one p

  -- Interpolation at zero: the nodes are distinct and other than zero, and they are at least as
  -- many as the coefficients.
  pub lagrange :
      (z : ℕ) (ks : List ℕ) (cs : List B.Scalar)
      → s z ≡ B.zero
      → Apart s (z ∷ ks)
      → length cs ≤ length ks
      → sum ks (λ j. eval cs (s j) ⊗ (numerator s ks j ⊗ inverse (denominator s ks j)))
        ≡ eval cs B.zero
  unfolding Apart difference sum
  lagrange z ks cs e h le =
      let term : ℕ → B.Scalar =
        λ j. eval cs (s j) ⊗ (numerator s ks j ⊗ inverse (denominator s ks j)) in
      let shifted : ℕ → B.Scalar = λ j. eval cs (s j) ⊗ inverse (denominator s (z ∷ ks) j) in
      let tail : product s ks ⊗ sum ks shifted ≡ B.neg (sum ks term) =
        sum-mul (product s ks) ks shifted
        ∙ sum_congr ks _ (λ j. B.neg (term j))
            (λ j m. node_term z j ks (eval cs (s j)) e (h.0 j m) h.1 m)
        ∙ sum-neg ks term in
      let vanishing : product s ks ⊗ (shifted z ⊕ sum ks shifted) ≡ B.zero =
        ap (λ t. product s ks ⊗ t) (difference-eval s (z ∷ ks) cs h (omega (arith, le)))
        ∙ mul-zero _ in
      sym (
        ap (eval cs) (sym e)
        ∙ sub_zero→eq (eval cs (s z)) (sum ks term)
            (sym (mul-add _ _ _ ∙ ap₂ ◌⊕◌ (zero_term z ks (eval cs (s z)) e h) tail) ∙ vanishing))

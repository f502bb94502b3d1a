-- ===== src/Backend/Polynomial/Differences.antt =====
-- Divided differences over distinct nodes: they vanish on polynomials with fewer coefficients than
-- there are nodes.
use kawasekit_dkls.Prelude.{
  ℕ, ◌≡◌, ◌≢◌, ◌<◌, refl, sym, ap, ap₂, ◌⊎◌, inl, inr, Bool-cases, ◌∙◌, ◌≡⟨◌⟩◌, ◌∎, true, List, [],
  ◌∷◌, length, arith, if◌then◌else◌, ◌==◌, ==_refl, ==_iff, ==_false, some, none, fun_ext,
}
use kawasekit_dkls.Backend.{Backend, FieldLaws, ◌⊕◌, ◌⊖◌, ◌⊗◌}
use kawasekit_dkls.Backend.Ring.{
  add_comm, add_assoc, zero-add, add-zero, mul-zero, zero-mul, add-mul, add_left_comm, mul_ac,
  add-neg, mul-neg, neg-mul, one-mul, mul-one, mul_assoc, mul_comm, mul_left_comm, mul_cancel,
  mul_ne_zero, neg-zero, neg-add_distrib, sub_zero→eq, neg-neg, neg-add_cancel, add_cancel,
}
use kawasekit_dkls.Backend.Ring.Sum.{sum, contains, sum_congr, sum-add, sum-mul, sum-zero}
use kawasekit_dkls.Backend.Polynomial.{eval, divide, length-divide, eval-divide}

module _ ⦃B : Backend⦄ where
  -- The inverse, and zero for zero.
  unfoldable pub inverse : B.Scalar → B.Scalar
  inverse a = elim (B.invert a) [ some i ↦ i | none ↦ B.zero ]

module _ ⦃B : Backend⦄ (s : ℕ → B.Scalar) where
  -- The product of `s k - s j` over the other nodes k.
  unfoldable pub denominator : List ℕ → ℕ → B.Scalar
  denominator [] j = B.one
  denominator (k ∷ ks) j = (if k == j then B.one else s k ⊖ s j) ⊗ denominator ks j

  unfoldable pub difference : List ℕ → (B.Scalar → B.Scalar) → B.Scalar
  difference ks f = sum ks (λ j. f (s j) ⊗ inverse (denominator ks j))

  unfoldable pub Apart : List ℕ → Type 0
  Apart [] = Unit
  Apart (k ∷ ks) = ((j : ℕ) → contains ks j ≡ true → s k ≢ s j) × Apart ks

module _ ⦃B : Backend⦄ ⦃L : FieldLaws B⦄ where
  pub mul-inverse : (a : B.Scalar) → a ≢ B.zero → a ⊗ inverse a ≡ B.one
  unfolding inverse
  mul-inverse a h = let (i, found, e) = L.invert_ne a h in rw (found, inverse) e

  pub inverse_unique : (a b : B.Scalar) → a ≢ B.zero → a ⊗ b ≡ B.one → b ≡ inverse a
  inverse_unique a b h e = mul_cancel a b (inverse a) h (e ∙ sym (mul-inverse a h))

  pub inverse-mul :
      (a b : B.Scalar) → a ≢ B.zero → b ≢ B.zero → inverse (a ⊗ b) ≡ inverse a ⊗ inverse b
  inverse-mul a b ha hb = sym (
      inverse_unique (a ⊗ b) (inverse a ⊗ inverse b) (mul_ne_zero a b ha hb) (
        a ⊗ b ⊗ (inverse a ⊗ inverse b)
        ≡⟨ (simp mul_ac) ⟩ (a ⊗ inverse a) ⊗ (b ⊗ inverse b)
        ≡⟨ (rw (mul-inverse a ha, mul-inverse b hb, one-mul B.one)) ⟩ B.one ∎))

  pub sub_ne : (a b : B.Scalar) → a ≢ b → a ⊖ b ≢ B.zero
  sub_ne a b h e = h (sub_zero→eq a b e)

  pub neg_sub : (a b : B.Scalar) → B.neg (a ⊖ b) ≡ b ⊖ a
  neg_sub a b = neg-add_distrib a (B.neg b) ∙ ap (λ t. B.neg a ⊕ t) (neg-neg b) ∙ add_comm _ _

  pub sum-neg {ℓ} :
      {A : Type ℓ} (xs : List A) (f : A → B.Scalar) → sum xs (λ x. B.neg (f x)) ≡ B.neg (sum xs f)
  unfolding sum
  sum-neg [] f = sym neg-zero
  sum-neg (x ∷ xs) f = simp (sum-neg xs f, neg-add_distrib)

module _ ⦃B : Backend⦄ ⦃L : FieldLaws B⦄ (s : ℕ → B.Scalar) where
  -- The factor of a node.
  factor_ne : (k j : ℕ) → (k ≡ j) ⊎ (s k ≢ s j) → (if k == j then B.one else s k ⊖ s j) ≢ B.zero
  factor_ne k j (inl e) = rw ((==_iff k j).1 e) L.one-ne-zero
  factor_ne k j (inr h) = rw (==_false k j (λ e. h (ap s e))) (sub_ne (s k) (s j) h)

  -- No product of differences is zero, also at a node of the list.
  pub denominator_ne :
      (ks : List ℕ) (j : ℕ)
      → ((k : ℕ) → contains ks k ≡ true → (k ≡ j) ⊎ (s k ≢ s j))
      → denominator s ks j ≢ B.zero
  unfolding denominator contains
  denominator_ne [] j h = L.one-ne-zero
  denominator_ne (k ∷ ks) j h =
      mul_ne_zero _ _ (factor_ne k j (h k (ground (arith, ==_refl k))))
        (denominator_ne ks j (λ i m. h i (ground arith)))

  pub Apart-node :
      (ks : List ℕ) (j k : ℕ)
      → Apart s ks
      → contains ks j ≡ true
      → contains ks k ≡ true
      → (k ≡ j) ⊎ (s k ≢ s j)
  unfolding Apart contains
  Apart-node [] j k h mj mk = cc
  Apart-node (a ∷ ks) j k h mj mk = elim (Bool-cases (a == j)) [
    | inl ej ↦ elim (Bool-cases (a == k)) [
      | inl ek ↦ inl (sym ((==_iff a k).0 ek) ∙ (==_iff a j).0 ej)
      | inr ek ↦ inr (λ e. h.0 k (ground arith) (ap s ((==_iff a j).0 ej) ∙ sym e))
    ]
    | inr ej ↦ elim (Bool-cases (a == k)) [
      | inl ek ↦ inr (λ e. h.0 j (ground arith) (ap s ((==_iff a k).0 ek) ∙ e))
      | inr ek ↦ Apart-node ks j k h.1 (ground arith) (ground arith)
    ]
  ]

  -- A head apart from j adds a factor.
  tail_term :
      (a j : ℕ) (ks : List ℕ)
      → s a ≢ s j
      → denominator s ks j ≢ B.zero
      → (s j ⊖ s a) ⊗ inverse (denominator s (a ∷ ks) j) ≡ B.neg (inverse (denominator s ks j))
  unfolding denominator
  tail_term a j ks h hd =
      let d = denominator s ks j in
      let m = s a ⊖ s j in
      rw
        (
          ==_false a j (λ e. h (ap s e)),
          inverse-mul m d (sub_ne (s a) (s j) h) hd,
          sym (neg_sub (s a) (s j)),
        )
        (neg-mul m (inverse m ⊗ inverse d)
          ∙ ap B.neg (
              sym (mul_assoc m (inverse m) (inverse d))
              ∙ rw (mul-inverse m (sub_ne (s a) (s j) h)) (one-mul (inverse d))))

  -- A factor that vanishes at the head takes the head away.
  difference_shift :
      (a : ℕ) (ks : List ℕ) (f : B.Scalar → B.Scalar)
      → Apart s (a ∷ ks)
      → difference s (a ∷ ks) (λ x. (x ⊖ s a) ⊗ f x) ≡ B.neg (difference s ks f)
  unfolding difference sum Apart
  difference_shift a ks f h =
      rw
        (
          add-neg (s a),
          zero-mul (f (s a)),
          zero-mul (inverse (denominator s (a ∷ ks) a)),
          zero-add (sum ks (λ j. (s j ⊖ s a) ⊗ f (s j) ⊗ inverse (denominator s (a ∷ ks) j))),
        )
        (sum_congr ks _ (λ j. B.neg (f (s j) ⊗ inverse (denominator s ks j))) term ∙ sum-neg ks _)
    where
      term :
          (j : ℕ)
          → contains ks j ≡ true
          → (s j ⊖ s a) ⊗ f (s j) ⊗ inverse (denominator s (a ∷ ks) j)
            ≡ B.neg (f (s j) ⊗ inverse (denominator s ks j))
      term j m =
          ap (λ t. t ⊗ inverse (denominator s (a ∷ ks) j)) (mul_comm _ (f (s j)))
          ∙ mul_assoc (f (s j)) _ _
          ∙ ap (λ t. f (s j) ⊗ t)
              (tail_term a j ks (h.0 j m)
                (denominator_ne ks j (λ k mk. Apart-node ks j k h.1 m mk)))
          ∙ mul-neg _ _

  difference_swap :
      (a b : ℕ) (ks : List ℕ) (f : B.Scalar → B.Scalar)
      → difference s (a ∷ b ∷ ks) f ≡ difference s (b ∷ a ∷ ks) f
  unfolding difference sum
  difference_swap a b ks f =
      add_left_comm _ _ _
      ∙ ap₂ (λ t u. f (s b) ⊗ inverse t ⊕ u) (swap b)
          (ap₂ (λ t u. f (s a) ⊗ inverse t ⊕ u) (swap a)
            (sum_congr ks _ (λ j. f (s j) ⊗ inverse (denominator s (b ∷ a ∷ ks) j))
              (λ j m. ap (λ t. f (s j) ⊗ inverse t) (swap j))))
    where
      swap : (j : ℕ) → denominator s (a ∷ b ∷ ks) j ≡ denominator s (b ∷ a ∷ ks) j
      swap j = unfold denominator in mul_left_comm _ _ _

  difference_linear :
      (ks : List ℕ) (c : B.Scalar) (f g : B.Scalar → B.Scalar)
      → difference s ks (λ x. c ⊗ f x ⊕ g x) ≡ c ⊗ difference s ks f ⊕ difference s ks g
  unfolding difference
  difference_linear ks c f g =
      sum_congr ks _
        (λ j. c ⊗ (f (s j) ⊗ inverse (denominator s ks j)) ⊕ g (s j) ⊗ inverse (denominator s ks j))
        (λ j m.
          add-mul _ _ _ ∙ ap (λ t. t ⊕ g (s j) ⊗ inverse (denominator s ks j)) (mul_assoc c _ _))
      ∙ sum-add ks _ _
      ∙ ap (λ t. t ⊕ sum ks (λ j. g (s j) ⊗ inverse (denominator s ks j))) (sym (sum-mul c ks _))

  difference_congr :
      (ks : List ℕ) (f g : B.Scalar → B.Scalar)
      → ((x : B.Scalar) → f x ≡ g x)
      → difference s ks f ≡ difference s ks g
  difference_congr ks f g h = ap (difference s ks) (fun_ext h)

  -- `1 * (x - b)` and `(x - a)` differ by a constant.
  difference_step :
      (a b : ℕ) (ks : List ℕ) (f : B.Scalar → B.Scalar)
      → (s a ⊖ s b) ⊗ difference s ks f ⊕ difference s ks (λ x. (x ⊖ s a) ⊗ f x)
        ≡ difference s ks (λ x. (x ⊖ s b) ⊗ f x)
  difference_step a b ks f =
      sym (difference_linear ks (s a ⊖ s b) f (λ x. (x ⊖ s a) ⊗ f x))
      ∙ difference_congr ks _ _ (λ x.
        sym (add-mul (s a ⊖ s b) (x ⊖ s a) (f x))
        ∙ ap (λ t. t ⊗ f x)
            (add_comm (s a ⊖ s b) (x ⊖ s a)
              ∙ add_assoc x _ _
              ∙ ap (λ t. x ⊕ t) (neg-add_cancel (s a) (B.neg (s b)))))

  Apart-swap : (a b : ℕ) (ks : List ℕ) → Apart s (a ∷ b ∷ ks) → Apart s (b ∷ a ∷ ks)
  unfolding Apart contains
  Apart-swap a b ks h = (
    λ j m. elim (Bool-cases (a == j)) [
      | inl e ↦ λ p. h.0 b (ground (arith, ==_refl b)) (ap s ((==_iff a j).0 e) ∙ sym p)
      | inr e ↦ h.1.0 j (ground arith)
    ],
    ((λ j m. h.0 j (ground arith)), h.1.1),
  )

  difference_one_from :
      (a b : ℕ) (ks : List ℕ)
      → Apart s (a ∷ b ∷ ks)
      → difference s (b ∷ ks) (λ _. B.one) ≡ difference s (a ∷ ks) (λ _. B.one)
      → difference s (a ∷ b ∷ ks) (λ _. B.one) ≡ B.zero
  difference_one_from a b ks h e =
      let d = difference s (a ∷ b ∷ ks) (λ _. B.one) in
      let m = s a ⊖ s b in
      let lower = B.neg (difference s (a ∷ ks) (λ _. B.one)) in
      let first : difference s (a ∷ b ∷ ks) (λ x. (x ⊖ s a) ⊗ B.one) ≡ lower =
        difference_shift a (b ∷ ks) (λ _. B.one) h ∙ ap B.neg e in
      let second : difference s (a ∷ b ∷ ks) (λ x. (x ⊖ s b) ⊗ B.one) ≡ lower =
        difference_swap a b ks (λ x. (x ⊖ s b) ⊗ B.one)
        ∙ difference_shift b (a ∷ ks) (λ _. B.one) (Apart-swap a b ks h) in
      let step : lower ⊕ m ⊗ d ≡ lower ⊕ B.zero =
        add_comm lower (m ⊗ d)
        ∙ ap (λ t. m ⊗ d ⊕ t) (sym first)
        ∙ difference_step a b (a ∷ b ∷ ks) (λ _. B.one)
        ∙ second
        ∙ sym (add-zero lower) in
      mul_cancel m d B.zero (sub_ne (s a) (s b) (apart_heads h))
        (add_cancel lower (m ⊗ d) B.zero step ∙ sym (mul-zero m))
    where
      apart_heads : Apart s (a ∷ b ∷ ks) → s a ≢ s b
      apart_heads h = unfold Apart contains in h.0 b (ground (arith, ==_refl b))

  difference_single : (a : ℕ) → difference s (a ∷ []) (λ _. B.one) ≡ B.one ⊗ inverse (B.one ⊗ B.one)
  unfolding difference denominator sum
  difference_single a = rw (==_refl a) (add-zero _)

  -- Constants, over two nodes or more.
  pub difference_one :
      (a b : ℕ) (ks : List ℕ)
      → Apart s (a ∷ b ∷ ks)
      → difference s (a ∷ b ∷ ks) (λ _. B.one) ≡ B.zero
  unfolding Apart contains
  difference_one a b [] h =
      difference_one_from a b [] h (difference_single b ∙ sym (difference_single a))
  difference_one a b (c ∷ ks) h = difference_one_from a b (c ∷ ks) h (
      difference_one b c ks h.1
      ∙ sym (difference_one a c ks ((λ j m. h.0 j (ground arith)), h.1.1)))

  difference_zero : (ks : List ℕ) → difference s ks (λ _. B.zero) ≡ B.zero
  unfolding difference
  difference_zero ks = sum_congr ks _ (λ _. B.zero) (λ j m. zero-mul _) ∙ sum-zero ks

  -- A polynomial with fewer coefficients than there are nodes.
  pub difference-eval :
      (ks : List ℕ) (cs : List B.Scalar)
      → Apart s ks
      → length cs < length ks
      → difference s ks (eval cs) ≡ B.zero
  unfolding Apart
  difference-eval [] cs h lt = absurd (omega (arith, lt))
  difference-eval (a ∷ ks) [] h lt =
      difference_congr (a ∷ ks) (eval []) (λ _. B.zero) (λ x. unfold eval in refl)
      ∙ difference_zero (a ∷ ks)
  difference-eval (a ∷ []) (c ∷ g) h lt = absurd (omega (arith, lt))
  difference-eval (a ∷ b ∷ ks) (c ∷ g) h lt =
      let rest : difference s (b ∷ ks) (eval (divide (s a) g)) ≡ B.zero =
        difference-eval (b ∷ ks) (divide (s a) g) h.1 (omega (arith, lt, length-divide (s a) g)) in
      let value = eval (c ∷ g) (s a) in
      difference_congr (a ∷ b ∷ ks) _ (λ x. value ⊗ B.one ⊕ (x ⊖ s a) ⊗ eval (divide (s a) g) x)
        (λ x.
          eval-divide (s a) x c g
          ∙ ap (λ t. t ⊕ (x ⊖ s a) ⊗ eval (divide (s a) g) x) (sym (mul-one value)))
      ∙ difference_linear (a ∷ b ∷ ks) value (λ _. B.one) (λ x. (x ⊖ s a) ⊗ eval (divide (s a) g) x)
      ∙ ap₂ ◌⊕◌ (ap (λ t. value ⊗ t) (difference_one a b ks h) ∙ mul-zero value)
          (difference_shift a (b ∷ ks) (eval (divide (s a) g)) h ∙ ap B.neg rest ∙ neg-zero)
      ∙ zero-add B.zero

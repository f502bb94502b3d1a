-- ===== src/Backend/Ring/Sum.antt =====
-- Finite sums of scalars, indexed by a list.
use kawasekit_dkls.Prelude.{
  ℕ, ◌≡◌, refl, sym, ap, ◌∙◌, ◌≡⟨◌⟩◌, ◌∎, Bool, true, false, ◌&&◌, ◌||◌, inl, inr, Bool-cases, List,
  [], ◌∷◌, map, if◌then◌else◌, ◌==◌, ==_iff, ==_refl, arith,
}
use kawasekit_dkls.Backend.{Backend, FieldLaws, ◌⊕◌, ◌⊗◌}
use kawasekit_dkls.Backend.Ring.{add_assoc, zero-add, add-zero, mul-add, mul-zero, add_ac}

-- `xs.contains(&a)`
unfoldable pub contains : List ℕ → ℕ → Bool
contains [] a = false
contains (x ∷ xs) a = (x == a) || contains xs a

unfoldable pub filter {ℓ} : {A : Type ℓ} → (A → Bool) → List A → List A
filter p [] = []
filter p (x ∷ xs) = if p x then x ∷ filter p xs else filter p xs

pub contains-filter :
    (p : ℕ → Bool) (xs : List ℕ) (a : ℕ) → contains (filter p xs) a ≡ contains xs a && p a
unfolding contains filter
contains-filter p [] a = refl
contains-filter p (x ∷ xs) a = elim (Bool-cases (x == a)) [
  | inl e ↦ rw ((==_iff x a).0 e) (ground (arith, contains-filter p xs a, ==_refl a))
  | inr e ↦ ground (arith, contains-filter p xs a)
]

module _ ⦃B : Backend⦄ where
  unfoldable pub sum {ℓ} : {A : Type ℓ} → List A → (A → B.Scalar) → B.Scalar
  sum [] f = B.zero
  sum (x ∷ xs) f = f x ⊕ sum xs f

  -- `iter().sum()`, with an accumulator.
  unfoldable pub fold_add {ℓ} : {A : Type ℓ} → B.Scalar → List A → (A → B.Scalar) → B.Scalar
  fold_add acc [] f = acc
  fold_add acc (x ∷ xs) f = fold_add (acc ⊕ f x) xs f

module _ ⦃B : Backend⦄ ⦃L : FieldLaws B⦄ where
  pub fold_add_lem {ℓ} :
      {A : Type ℓ} (acc : B.Scalar) (xs : List A) (f : A → B.Scalar)
      → fold_add acc xs f ≡ acc ⊕ sum xs f
  unfolding fold_add sum
  fold_add_lem acc [] f = sym (add-zero acc)
  fold_add_lem acc (x ∷ xs) f = fold_add_lem (acc ⊕ f x) xs f ∙ add_assoc acc (f x) (sum xs f)

  pub sum-add {ℓ} :
      {A : Type ℓ} (xs : List A) (f g : A → B.Scalar)
      → sum xs (λ x. f x ⊕ g x) ≡ sum xs f ⊕ sum xs g
  unfolding sum
  sum-add [] f g = sym (zero-add _)
  sum-add (x ∷ xs) f g = simp (sum-add xs f g, add_ac)

  pub sum-mul {ℓ} :
      {A : Type ℓ} (a : B.Scalar) (xs : List A) (f : A → B.Scalar)
      → a ⊗ sum xs f ≡ sum xs (λ x. a ⊗ f x)
  unfolding sum
  sum-mul a [] f = mul-zero a
  sum-mul a (x ∷ xs) f = simp (mul-add, sum-mul a xs f)

  pub sum-zero {ℓ} : {A : Type ℓ} (xs : List A) → sum xs (λ _. B.zero) ≡ B.zero
  unfolding sum
  sum-zero [] = refl
  sum-zero (x ∷ xs) = zero-add _ ∙ sum-zero xs

  pub sum-map {ℓ κ} :
      {A : Type ℓ} {C : Type κ} (g : A → C) (xs : List A) (f : C → B.Scalar)
      → sum (map g xs) f ≡ sum xs (λ x. f (g x))
  unfolding sum
  sum-map g [] f = refl
  sum-map g (x ∷ xs) f = ap (◌⊕◌ (f (g x))) (sum-map g xs f)

  pub sum-filter {ℓ} :
      {A : Type ℓ} (p : A → Bool) (xs : List A) (f : A → B.Scalar)
      → sum (filter p xs) f ≡ sum xs (λ x. if p x then f x else B.zero)
  unfolding sum filter
  sum-filter p [] f = refl
  sum-filter p (x ∷ xs) f =
      ground (arith, sum-filter p xs f, zero-add (sum xs (λ x. if p x then f x else B.zero)))

  -- Summands count at the members of the list only.
  pub sum_congr :
      (xs : List ℕ) (f g : ℕ → B.Scalar)
      → ((a : ℕ) → contains xs a ≡ true → f a ≡ g a)
      → sum xs f ≡ sum xs g
  unfolding sum contains
  sum_congr [] f g h = refl
  sum_congr (x ∷ xs) f g h =
      let head : f x ≡ g x = h x (ground (arith, ==_refl x)) in
      let tail : sum xs f ≡ sum xs g = sum_congr xs f g (λ a m. h a (ground arith)) in cc

  -- An antisymmetric double sum over one list is zero.
  pub sum_antisymmetric :
      (xs : List ℕ) (g : ℕ → ℕ → B.Scalar)
      → ((i : ℕ) → g i i ≡ B.zero)
      → ((i j : ℕ) → g i j ⊕ g j i ≡ B.zero)
      → sum xs (λ i. sum xs (g i)) ≡ B.zero
  unfolding sum
  sum_antisymmetric [] g d h = refl
  sum_antisymmetric (x ∷ xs) g d h =
      (g x x ⊕ sum xs (g x)) ⊕ sum xs (λ i. g i x ⊕ sum xs (g i))
      ≡⟨ (rw (d x, zero-add, sum-add xs (λ i. g i x) (λ i. sum xs (g i)))) ⟩
        sum xs (g x) ⊕ (sum xs (λ i. g i x) ⊕ sum xs (λ i. sum xs (g i)))
      ≡⟨ (rw (sum_antisymmetric xs g d h, add-zero)) ⟩ sum xs (g x) ⊕ sum xs (λ i. g i x)
      ≡⟨ sym (sum-add xs (g x) (λ i. g i x)) ⟩ sum xs (λ i. g x i ⊕ g i x)
      ≡⟨ sum_congr xs (λ i. g x i ⊕ g i x) (λ _. B.zero) (λ i _. h x i) ⟩ sum xs (λ _. B.zero)
      ≡⟨ sum-zero xs ⟩ B.zero ∎

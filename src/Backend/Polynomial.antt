-- ===== src/Backend/Polynomial.antt =====
-- Polynomials over the scalars, by their coefficients from the constant one on.
pub mod Differences
pub mod Lagrange
use kawasekit_dkls.Prelude.{
  ℕ, ◌≡◌, refl, sym, ap, ◌∙◌, ◌≡⟨◌⟩◌, ◌∎, subst, List, [], ◌∷◌, length, suc, arith,
}
use kawasekit_dkls.Backend.{Backend, FieldLaws, ◌⊕◌, ◌⊖◌, ◌⊗◌}
use kawasekit_dkls.Backend.Ring.{
  add_comm, neg-add, add_assoc, zero-add, add-zero, mul-zero, mul-add, add-mul, add_ac, mul_ac,
}

module _ ⦃B : Backend⦄ where
  unfoldable pub eval : List B.Scalar → B.Scalar → B.Scalar
  eval [] x = B.zero
  eval (c ∷ cs) x = c ⊕ x ⊗ eval cs x

  -- The quotient of `c ∷ g` by `x - a`, whatever `c` is.
  unfoldable pub divide : B.Scalar → List B.Scalar → List B.Scalar
  divide a [] = []
  divide a (d ∷ h) = eval (d ∷ h) a ∷ divide a h

module _ ⦃B : Backend⦄ ⦃L : FieldLaws B⦄ where
  pub length-divide : (a : B.Scalar) (g : List B.Scalar) → length (divide a g) ≡ length g
  unfolding divide
  length-divide a [] = refl
  length-divide a (d ∷ h) = ap suc (length-divide a h)

  pub sub_add : (x a : B.Scalar) → a ⊕ (x ⊖ a) ≡ x
  sub_add x a = add_comm a _ ∙ add_assoc x _ a ∙ ap (◌⊕◌ x) (neg-add a) ∙ add-zero x

  expand : (a y c w v : B.Scalar) → c ⊕ (a ⊕ y) ⊗ (w ⊕ y ⊗ v) ≡ c ⊕ a ⊗ w ⊕ y ⊗ (w ⊕ (a ⊕ y) ⊗ v)
  expand a y c w v = simp (mul-add, add-mul, add_ac, mul_ac)

  -- Division with the remainder at `a`.
  eval_shift :
      (a y c : B.Scalar) (g : List B.Scalar)
      → eval (c ∷ g) (a ⊕ y) ≡ eval (c ∷ g) a ⊕ y ⊗ eval (divide a g) (a ⊕ y)
  unfolding eval divide
  eval_shift a y c [] = simp (mul-zero, add-zero)
  eval_shift a y c (d ∷ h) = ap (λ v. c ⊕ (a ⊕ y) ⊗ v) (eval_shift a y d h) ∙ expand a y c _ _

  pub eval-divide :
      (a x c : B.Scalar) (g : List B.Scalar)
      → eval (c ∷ g) x ≡ eval (c ∷ g) a ⊕ (x ⊖ a) ⊗ eval (divide a g) x
  eval-divide a x c g =
      subst (λ t. eval (c ∷ g) t ≡ eval (c ∷ g) a ⊕ (x ⊖ a) ⊗ eval (divide a g) t) (sub_add x a)
        (eval_shift a (x ⊖ a) c g)

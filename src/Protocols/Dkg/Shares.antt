-- ===== src/Protocols/Dkg/Shares.antt =====
-- Steps 1 to 3: the shares are values of the sum of all parties' polynomials.
use kawasekit_dkls.Prelude.{
  ℕ, false, ◌==◌, ==_false, ==_iff, Bool-cases, inl, inr, suc, zero, ◌-◌, ◌≤◌, ◌≡◌, refl, sym, ap,
  ◌∙◌, fun_ext, reverse-cons, List, [], ◌∷◌, ◌++◌, length, map, range, take, get_elem?, reverse,
  some, ok, arith,
}
use kawasekit_dkls.Backend.{Backend, FieldLaws, ◌⊕◌, ◌⊗◌}
use kawasekit_dkls.Backend.Ring.{add_comm, mul_comm, zero-add, add-zero, mul-zero, mul-add, add_ac}
use kawasekit_dkls.Backend.Ring.Sum.{sum, fold_add, fold_add_lem}
use kawasekit_dkls.Backend.Polynomial.{eval}
use kawasekit_dkls.Protocols.{Parameters}
use kawasekit_dkls.Protocols.Dkg.{horner, evaluations, step2}

module _ ⦃B : Backend⦄ where
  -- The sum of two polynomials, and of a list of them.
  unfoldable pub add_polynomials : List B.Scalar → List B.Scalar → List B.Scalar
  add_polynomials [] q = q
  add_polynomials (a ∷ p) [] = a ∷ p
  add_polynomials (a ∷ p) (b ∷ q) = (a ⊕ b) ∷ add_polynomials p q

  unfoldable pub total : List (List B.Scalar) → List B.Scalar
  total [] = []
  total (p ∷ ps) = add_polynomials p (total ps)

module _ ⦃B : Backend⦄ ⦃L : FieldLaws B⦄ where
  horner_append :
      (x a : B.Scalar) (cs : List B.Scalar) (c : B.Scalar)
      → horner x a (cs ++ c ∷ []) ≡ horner x a cs ⊗ x ⊕ c
  unfolding horner
  horner_append x a [] c = refl
  horner_append x a (b ∷ cs) c = horner_append x (a ⊗ x ⊕ b) cs c

  horner-reverse :
      (x a : B.Scalar) (cs : List B.Scalar) → horner x a (reverse cs) ≡ eval (cs ++ a ∷ []) x
  unfolding eval horner
  horner-reverse x a [] = sym (ap (λ t. a ⊕ t) (mul-zero x) ∙ add-zero a)
  horner-reverse x a (c ∷ cs) =
      ap (horner x a) (reverse-cons c cs)
      ∙ horner_append x a (reverse cs) c
      ∙ ap (λ t. t ⊗ x ⊕ c) (horner-reverse x a cs)
      ∙ add_comm _ c
      ∙ ap (λ t. c ⊕ t) (mul_comm _ x)

  -- A list ends with the element that `polynomial[last_index]` takes.
  take_last :
      (cs : List B.Scalar) (n : ℕ)
      → length cs ≡ suc n
      → (c : B.Scalar) × (get_elem? cs n ≡ some c) × (take n cs ++ c ∷ [] ≡ cs)
  take_last [] n h = absurd (omega (arith, h))
  take_last (a ∷ []) zero h = (a, refl, refl)
  take_last (a ∷ b ∷ cs) zero h = absurd (omega (arith, h))
  take_last (a ∷ cs) (suc n) h =
      let (c, found, e) = take_last cs n (omega (arith, h)) in (c, found, ap (◌∷◌ a) e)

  evaluations-eval :
      (parameters : Parameters) (cs : List B.Scalar)
      → 1 ≤ parameters.threshold
      → length cs ≡ parameters.threshold
      → evaluations parameters cs (parameters.threshold - 1)
        ≡ ok (map (λ j. eval cs (B.from_u64 j)) (range 1 parameters.share_count))
  unfolding evaluations
  evaluations-eval parameters cs one h =
      let (c, found, e) = take_last cs (parameters.threshold - 1) (omega (arith, h, one)) in
      rw (evaluations, found)
        (ap (λ f. ok (map f (range 1 parameters.share_count)))
          (fun_ext (λ j. horner-reverse (B.from_u64 j) c _ ∙ ap (λ p. eval p (B.from_u64 j)) e)))

  -- For a polynomial with as many coefficients as the threshold, which is not zero, step 2 gives
  -- its values at the indices of all parties, in their order.
  pub step2-eval :
      (parameters : Parameters) (cs : List B.Scalar)
      → 1 ≤ parameters.threshold
      → length cs ≡ parameters.threshold
      → step2 parameters cs
        ≡ ok (map (λ j. eval cs (B.from_u64 j)) (range 1 parameters.share_count))
  unfolding step2
  step2-eval parameters cs one h =
      let positive : (parameters.threshold == 0) ≡ false =
        ==_false parameters.threshold 0 (λ z. omega (arith, one, z)) in
      elim (Bool-cases (parameters.share_count == 0)) [
        | inl nobody ↦
            let nobody_at_all : parameters.share_count ≡ 0 =
              (==_iff parameters.share_count 0).0 nobody in
            rw (step2, nobody, nobody_at_all) refl
        | inr somebody ↦ rw (step2, somebody, positive) (evaluations-eval parameters cs one h)
      ]

  eval-add_polynomials :
      (p q : List B.Scalar) (x : B.Scalar) → eval (add_polynomials p q) x ≡ eval p x ⊕ eval q x
  unfolding eval add_polynomials
  eval-add_polynomials [] q x = sym (zero-add _)
  eval-add_polynomials (a ∷ p) [] x = sym (add-zero _)
  eval-add_polynomials (a ∷ p) (b ∷ q) x = simp (eval-add_polynomials p q x, mul-add, add_ac)

  sum-total :
      (ps : List (List B.Scalar)) (x : B.Scalar)
      → sum (map (λ p. eval p x) ps) (λ a. a) ≡ eval (total ps) x
  unfolding sum total eval
  sum-total [] x = refl
  sum-total (p ∷ ps) x =
      ap (λ t. eval p x ⊕ t) (sum-total ps x) ∙ sym (eval-add_polynomials p (total ps) x)

  -- The values of several polynomials add up to the value of their sum.
  pub eval-total :
      (ps : List (List B.Scalar)) (x : B.Scalar)
      → fold_add B.zero (map (λ p. eval p x) ps) (λ a. a) ≡ eval (total ps) x
  eval-total ps x = fold_add_lem B.zero _ (λ a. a) ∙ zero-add _ ∙ sum-total ps x

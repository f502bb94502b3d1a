-- ===== src/Utilities/Multiplication/Sums.antt =====
-- The loops that add up the public gadget vector.
use kawasekit_dkls.Prelude.{
  ℕ, zero, suc, ◌+◌, ◌<◌, ◌≡◌, refl, sym, ap, ◌∙◌, List, Bool, true, false, if◌then◌else◌, arith,
  at,
}
use kawasekit_dkls.Backend.{Backend, FieldLaws, ◌⊕◌, ◌⊖◌, ◌⊗◌}
use kawasekit_dkls.Backend.Ring.{
  add_assoc, add_left_comm, add-zero, zero-mul, mul-zero, mul-add, add-mul, add_ac, distribute,
  zero-add, add-neg, neg-add, mul_comm,
}
use kawasekit_dkls.Utilities.Multiplication.{sum_to}
use kawasekit_dkls.Utilities.Multiplication.Receiver.{pad_loop}

module _ ⦃B : Backend⦄ ⦃L : FieldLaws B⦄ where
  pub sum_to-add :
      (p q : B.Scalar) (j n : ℕ) (f g : ℕ → B.Scalar)
      → sum_to p j n f ⊕ sum_to q j n g ≡ sum_to (p ⊕ q) j n (λ i. f i ⊕ g i)
  unfolding sum_to
  sum_to-add p q j zero f g = refl
  sum_to-add p q j (suc n) f g =
      sum_to-add (p ⊕ f j) (q ⊕ g j) (suc j) n f g
      ∙ ap (λ t. sum_to t (suc j) n (λ i. f i ⊕ g i)) (simp add_ac)

  pub sum_to_congr :
      (p : B.Scalar) (j n : ℕ) (f g : ℕ → B.Scalar)
      → ((i : ℕ) → i < j + n → f i ≡ g i)
      → sum_to p j n f ≡ sum_to p j n g
  unfolding sum_to
  sum_to_congr p j zero f g h = refl
  sum_to_congr p j (suc n) f g h =
      ap (λ t. sum_to (p ⊕ t) (suc j) n f) (h j (omega arith))
      ∙ sum_to_congr (p ⊕ g j) (suc j) n f g (λ i q. h i (omega arith))

  selected : (b : Bool) (p g : B.Scalar) → (if b then p ⊕ g else p) ≡ p ⊕ (if b then g else B.zero)
  selected true p g = refl
  selected false p g = sym (add-zero p)

  -- The pad of the receiver, times a scalar.
  pub pad_loop-mul :
      (a p : B.Scalar) (j n : ℕ) (gadget : List B.Scalar) (bits : ℕ → Bool)
      → sum_to (p ⊗ a) j n (λ i. (if bits i then at B.zero gadget i else B.zero) ⊗ a)
        ≡ pad_loop p j n gadget bits ⊗ a
  unfolding sum_to pad_loop
  pad_loop-mul a p j zero gadget bits = refl
  pad_loop-mul a p j (suc n) gadget bits =
      ap (λ t. sum_to t (suc j) n (λ i. (if bits i then at B.zero gadget i else B.zero) ⊗ a))
        (sym (add-mul p _ a) ∙ ap (λ t. t ⊗ a) (sym (selected (bits j) p (at B.zero gadget j))))
      ∙ pad_loop-mul a (if bits j then p ⊕ at B.zero gadget j else p) (suc j) n gadget bits

  -- A scalar times a selected one.
  pub select-mul :
      (b : Bool) (g a : B.Scalar) → g ⊗ (if b then a else B.zero) ≡ (if b then g else B.zero) ⊗ a
  select-mul true g a = refl
  select-mul false g a = mul-zero g ∙ sym (zero-mul a)

  -- A share is what the other leaves of the sum.
  pub other_share : (a b c : B.Scalar) → a ⊕ b ≡ c → a ≡ c ⊖ b
  other_share a b c h =
      sym (
        ap (λ t. t ⊖ b) (sym h)
        ∙ add_assoc a b (B.neg b)
        ∙ ap (λ t. a ⊕ t) (add-neg b)
        ∙ add-zero a)

  -- The two parties compute the same entry of the matrix r.
  pub entries_agree :
      (b : Bool) (chi1 chi2 z1 z2 y1 y2 a1 a2 : B.Scalar)
      → z1 ⊕ y1 ≡ (if b then a1 else B.zero)
      → z2 ⊕ y2 ≡ (if b then a2 else B.zero)
      → chi1 ⊗ z1 ⊕ chi2 ⊗ z2 ≡ (
          if b
          then B.neg (chi1 ⊗ y1) ⊖ chi2 ⊗ y2 ⊕ (chi1 ⊗ a1 ⊕ chi2 ⊗ a2)
          else B.neg (chi1 ⊗ y1) ⊖ chi2 ⊗ y2)
  entries_agree true chi1 chi2 z1 z2 y1 y2 a1 a2 h1 h2 =
      rw (other_share z1 y1 a1 h1, other_share z2 y2 a2 h2) (simp (distribute, add_ac))
  entries_agree false chi1 chi2 z1 z2 y1 y2 a1 a2 h1 h2 =
      rw (other_share z1 y1 B.zero h1, other_share z2 y2 B.zero h2) (simp (distribute, zero-add))

  -- The sum of the outputs.
  pub outputs_add : (b a x s1 s2 : B.Scalar) → s1 ⊕ s2 ≡ b ⊗ a → s1 ⊕ (b ⊗ (x ⊖ a) ⊕ s2) ≡ x ⊗ b
  outputs_add b a x s1 s2 h =
      add_left_comm s1 (b ⊗ (x ⊖ a)) s2
      ∙ ap (λ t. b ⊗ (x ⊖ a) ⊕ t) h
      ∙ sym (mul-add b (x ⊖ a) a)
      ∙ ap (λ t. b ⊗ t) (add_assoc x (B.neg a) a ∙ ap (λ t. x ⊕ t) (neg-add a) ∙ add-zero x)
      ∙ mul_comm b x

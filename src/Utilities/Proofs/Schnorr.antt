-- ===== src/Utilities/Proofs/Schnorr.antt =====
-- The equation behind every proof of this folder, and the nonzero draws.
use kawasekit_dkls.Prelude.{ℕ, zero, suc, ◌≡◌, ◌≢◌, sym, ap, ◌∙◌, ◌≡⟨◌⟩◌, ◌∎, Bool-cases, inl, inr}
use kawasekit_dkls.Backend.{Backend, FieldLaws, GroupLaws, ◌⊕◌, ◌⊖◌, ◌⊗◌, ◌⊞◌, ◌•◌, ◌=ₛ◌}
use kawasekit_dkls.Backend.Ring.{
  add_assoc, neg-add, add-zero, mul_comm, eq_scalar_refl, point_add_assoc, point_add_comm,
  point_add-identity, identity-point_add, point_mul-zero,
}
use kawasekit_dkls.Utilities.Proofs.{nonzero_draw}

module _ ⦃B : Backend⦄ ⦃L : FieldLaws B⦄ ⦃G : GroupLaws B⦄ where
  pub sub-add : (a b : B.Scalar) → (a ⊖ b) ⊕ b ≡ a
  sub-add a b = add_assoc a (B.neg b) b ∙ ap (λ t. a ⊕ t) (neg-add b) ∙ add-zero a

  -- A response to a challenge brings the commitment back.
  pub schnorr :
      (p : B.Point) (nonce challenge scalar : B.Scalar)
      → p • (nonce ⊖ challenge ⊗ scalar) ⊞ p • scalar • challenge ≡ p • nonce
  schnorr p nonce challenge scalar =
      p • (nonce ⊖ challenge ⊗ scalar) ⊞ p • scalar • challenge
      ≡⟨ ap (λ t. p • (nonce ⊖ challenge ⊗ scalar) ⊞ t)
          (sym (G.point_mul-mul p scalar challenge) ∙ ap (λ t. p • t) (mul_comm scalar challenge)) ⟩
        p • (nonce ⊖ challenge ⊗ scalar) ⊞ p • (challenge ⊗ scalar)
      ≡⟨ sym (G.point_mul-add p _ _) ⟩ p • ((nonce ⊖ challenge ⊗ scalar) ⊕ challenge ⊗ scalar)
      ≡⟨ ap (λ t. p • t) (sub-add nonce (challenge ⊗ scalar)) ⟩ p • nonce ∎

  pub nonzero_draw_ne :
      (tries : ℕ) (draw : ℕ → B.Scalar) → draw tries ≢ B.zero → nonzero_draw tries draw ≢ B.zero
  unfolding nonzero_draw
  nonzero_draw_ne zero draw h = h
  nonzero_draw_ne (suc tries) draw h = elim (Bool-cases (draw 0 =ₛ B.zero)) [
    | inl e ↦ rw e (nonzero_draw_ne tries (λ i. draw (suc i)) h)
    | inr e ↦ rw e (λ z. cc (e, z, eq_scalar_refl B.zero))
  ]

  point_mul-neg : (p : B.Point) (a : B.Scalar) → p • B.neg a ⊞ p • a ≡ B.identity
  point_mul-neg p a = sym (G.point_mul-add p _ a) ∙ ap (λ t. p • t) (neg-add a) ∙ point_mul-zero p

  -- Two responses to one commitment, multiplied by the difference of the challenges.
  responses_differ :
      (g u : B.Point) (r c r' c' : B.Scalar)
      → g • r ⊞ u • c ≡ g • r' ⊞ u • c'
      → u • (c ⊖ c') ≡ g • (r' ⊖ r)
  responses_differ g u r c r' c' e =
      u • (c ⊖ c')
      ≡⟨ G.point_mul-add u c (B.neg c') ∙ sym (identity-point_add _) ⟩
        B.identity ⊞ (u • c ⊞ u • B.neg c')
      ≡⟨ ap (λ t. t ⊞ (u • c ⊞ u • B.neg c')) (sym (point_mul-neg g r)) ⟩
        g • B.neg r ⊞ g • r ⊞ (u • c ⊞ u • B.neg c')
      ≡⟨ (simp point_add_assoc) ⟩ g • B.neg r ⊞ (g • r ⊞ u • c ⊞ u • B.neg c')
      ≡⟨ ap (λ t. g • B.neg r ⊞ (t ⊞ u • B.neg c')) e ⟩
        g • B.neg r ⊞ (g • r' ⊞ u • c' ⊞ u • B.neg c')
      ≡⟨ ap (λ t. g • B.neg r ⊞ t)
          (point_add_assoc _ _ _
            ∙ ap (λ t. g • r' ⊞ t) (point_add_comm _ _ ∙ point_mul-neg u c')
            ∙ point_add-identity _) ⟩
        g • B.neg r ⊞ g • r'
      ≡⟨ point_add_comm _ _ ∙ sym (G.point_mul-add g r' (B.neg r)) ⟩ g • (r' ⊖ r) ∎

  -- The witness that two accepted responses to different challenges give away.
  unfoldable pub witness : (r r' difference_inverse : B.Scalar) → B.Scalar
  witness r r' difference_inverse = (r' ⊖ r) ⊗ difference_inverse

  pub extracts :
      (g u : B.Point) (r c r' c' i : B.Scalar)
      → (c ⊖ c') ⊗ i ≡ B.one
      → g • r ⊞ u • c ≡ g • r' ⊞ u • c'
      → u ≡ g • witness r r' i
  unfolding witness
  extracts g u r c r' c' i inv e =
      sym (G.point_mul-one u)
      ∙ ap (λ t. u • t) (sym inv)
      ∙ G.point_mul-mul u _ i
      ∙ ap (λ t. t • i) (responses_differ g u r c r' c' e)
      ∙ sym (G.point_mul-mul g _ i)

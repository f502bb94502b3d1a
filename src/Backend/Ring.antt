-- ===== src/Backend/Ring.antt =====
-- The algebra of scalars and points that the components share, from the laws of the backend.
pub mod Sum
use kawasekit_dkls.Prelude.{
  ◌≡◌, ◌≢◌, refl, sym, ap, ◌∙◌, ◌≡⟨◌⟩◌, ◌∎, Bool, true, false, Option, none, some, ◌⊎◌, inl, inr,
  Bool-cases,
}
use kawasekit_dkls.Backend.{Backend, FieldLaws, GroupLaws, ◌⊕◌, ◌⊗◌, ◌⊖◌, ◌⊞◌, ◌•◌, ◌=ₛ◌, ◌=ₚ◌}

module _ ⦃B : Backend⦄ ⦃L : FieldLaws B⦄ where
  pub add_assoc : (a b c : B.Scalar) → a ⊕ b ⊕ c ≡ a ⊕ (b ⊕ c)
  add_assoc = L.add_assoc

  pub add_comm : (a b : B.Scalar) → a ⊕ b ≡ b ⊕ a
  add_comm = L.add_comm

  pub zero-add : (a : B.Scalar) → B.zero ⊕ a ≡ a
  zero-add = L.zero-add

  pub add-zero : (a : B.Scalar) → a ⊕ B.zero ≡ a
  add-zero a = L.add_comm a B.zero ∙ L.zero-add a

  pub add_left_comm : (a b c : B.Scalar) → a ⊕ (b ⊕ c) ≡ b ⊕ (a ⊕ c)
  add_left_comm a b c = sym (add_assoc a b c) ∙ ap (λ t. t ⊕ c) (add_comm a b) ∙ add_assoc b a c

  pub neg-add : (a : B.Scalar) → B.neg a ⊕ a ≡ B.zero
  neg-add = L.neg-add

  pub add-neg : (a : B.Scalar) → a ⊕ B.neg a ≡ B.zero
  add-neg a = add_comm a (B.neg a) ∙ neg-add a

  pub add-neg_cancel : (a b : B.Scalar) → a ⊕ (B.neg a ⊕ b) ≡ b
  add-neg_cancel a b = sym (add_assoc _ _ _) ∙ ap (λ t. t ⊕ b) (add-neg a) ∙ zero-add b

  pub neg-add_cancel : (a b : B.Scalar) → B.neg a ⊕ (a ⊕ b) ≡ b
  neg-add_cancel a b = sym (add_assoc _ _ _) ∙ ap (λ t. t ⊕ b) (neg-add a) ∙ zero-add b

  -- Equal sums with an equal summand.
  pub add_cancel : (a b c : B.Scalar) → a ⊕ b ≡ a ⊕ c → b ≡ c
  add_cancel a b c h = sym (neg-add_cancel a b) ∙ ap (λ t. B.neg a ⊕ t) h ∙ neg-add_cancel a c

  pub neg_unique : (a b : B.Scalar) → a ⊕ b ≡ B.zero → b ≡ B.neg a
  neg_unique a b h = add_cancel a b (B.neg a) (h ∙ sym (add-neg a))

  pub neg-neg : (a : B.Scalar) → B.neg (B.neg a) ≡ a
  neg-neg a = sym (neg_unique (B.neg a) a (neg-add a))

  pub neg-zero : B.neg B.zero ≡ B.zero
  neg-zero = sym (neg_unique B.zero B.zero (zero-add B.zero))

  pub neg-add_distrib : (a b : B.Scalar) → B.neg (a ⊕ b) ≡ B.neg a ⊕ B.neg b
  neg-add_distrib a b = sym (neg_unique (a ⊕ b) (B.neg a ⊕ B.neg b) sums)
    where
      sums : a ⊕ b ⊕ (B.neg a ⊕ B.neg b) ≡ B.zero
      sums =
          a ⊕ b ⊕ (B.neg a ⊕ B.neg b)
          ≡⟨ add_assoc a b (B.neg a ⊕ B.neg b) ⟩ a ⊕ (b ⊕ (B.neg a ⊕ B.neg b))
          ≡⟨ ap (λ t. a ⊕ t) (add_left_comm b (B.neg a) (B.neg b)) ⟩ a ⊕ (B.neg a ⊕ (b ⊕ B.neg b))
          ≡⟨ add-neg_cancel a (b ⊕ B.neg b) ⟩ b ⊕ B.neg b
          ≡⟨ add-neg b ⟩ B.zero ∎

  pub mul_assoc : (a b c : B.Scalar) → a ⊗ b ⊗ c ≡ a ⊗ (b ⊗ c)
  mul_assoc = L.mul_assoc

  pub mul_comm : (a b : B.Scalar) → a ⊗ b ≡ b ⊗ a
  mul_comm = L.mul_comm

  pub mul_left_comm : (a b c : B.Scalar) → a ⊗ (b ⊗ c) ≡ b ⊗ (a ⊗ c)
  mul_left_comm a b c = sym (mul_assoc a b c) ∙ ap (λ t. t ⊗ c) (mul_comm a b) ∙ mul_assoc b a c

  pub one-mul : (a : B.Scalar) → B.one ⊗ a ≡ a
  one-mul = L.one-mul

  pub mul-one : (a : B.Scalar) → a ⊗ B.one ≡ a
  mul-one a = mul_comm a B.one ∙ one-mul a

  pub mul-add : (a b c : B.Scalar) → a ⊗ (b ⊕ c) ≡ a ⊗ b ⊕ a ⊗ c
  mul-add = L.mul-add

  pub add-mul : (a b c : B.Scalar) → (a ⊕ b) ⊗ c ≡ a ⊗ c ⊕ b ⊗ c
  add-mul a b c = rw (mul_comm (a ⊕ b) c, mul_comm a c, mul_comm b c) (mul-add c a b)

  pub mul-zero : (a : B.Scalar) → a ⊗ B.zero ≡ B.zero
  mul-zero a =
      add_cancel (a ⊗ B.zero) _ _
        (sym (mul-add a _ _) ∙ ap (λ t. a ⊗ t) (zero-add _) ∙ sym (add-zero _))

  pub zero-mul : (a : B.Scalar) → B.zero ⊗ a ≡ B.zero
  zero-mul a = mul_comm B.zero a ∙ mul-zero a

  pub mul-neg : (a b : B.Scalar) → a ⊗ B.neg b ≡ B.neg (a ⊗ b)
  mul-neg a b =
      neg_unique (a ⊗ b) (a ⊗ B.neg b)
        (sym (mul-add a b (B.neg b)) ∙ ap (λ t. a ⊗ t) (add-neg b) ∙ mul-zero a)

  pub neg-mul : (a b : B.Scalar) → B.neg a ⊗ b ≡ B.neg (a ⊗ b)
  neg-mul a b = mul_comm (B.neg a) b ∙ mul-neg b a ∙ ap B.neg (mul_comm b a)

  pub sub_zero→eq : (a b : B.Scalar) → a ⊖ b ≡ B.zero → a ≡ b
  sub_zero→eq a b h =
      sym (add-zero a)
      ∙ ap (λ t. a ⊕ t) (sym (neg-add b))
      ∙ sym (add_assoc a (B.neg b) b)
      ∙ ap (λ t. t ⊕ b) h
      ∙ zero-add b

  -- A product with an invertible factor determines the other factor.
  pub mul_cancel : (a b c : B.Scalar) → a ≢ B.zero → a ⊗ b ≡ a ⊗ c → b ≡ c
  mul_cancel a b c h e =
      let (i, _, inv) = L.invert_ne a h in
      let back : (d : B.Scalar) → i ⊗ (a ⊗ d) ≡ d =
        λ d. sym (mul_assoc i a d) ∙ ap (λ t. t ⊗ d) (mul_comm i a ∙ inv) ∙ one-mul d in
      sym (back b) ∙ ap (λ t. i ⊗ t) e ∙ back c

  pub mul_ne_zero : (a b : B.Scalar) → a ≢ B.zero → b ≢ B.zero → a ⊗ b ≢ B.zero
  mul_ne_zero a b ha hb e = hb (mul_cancel a b B.zero ha (e ∙ sym (mul-zero a)))

  pub eq_scalar_refl : (a : B.Scalar) → (a =ₛ a) ≡ true
  eq_scalar_refl a = (L.eq_scalar_iff a a).1 refl

  pub eq_scalar_false : (a b : B.Scalar) → a ≢ b → (a =ₛ b) ≡ false
  eq_scalar_false a b h = elim (Bool-cases (a =ₛ b)) [
    | inl e ↦ absurd (h ((L.eq_scalar_iff a b).0 e))
    | inr e ↦ e
  ]

  -- A sum or a product is put in one order, with products multiplied out.
  pub ruleset add_ac = (add_assoc, add_comm, add_left_comm)

  pub ruleset mul_ac = (mul_assoc, mul_comm, mul_left_comm)

  pub ruleset distribute = (mul-add, add-mul, neg-mul, mul-neg, neg-neg, neg-add_distrib)

module _ ⦃B : Backend⦄ ⦃G : GroupLaws B⦄ where
  pub point_add_assoc : (p q r : B.Point) → p ⊞ q ⊞ r ≡ p ⊞ (q ⊞ r)
  point_add_assoc = G.point_add_assoc

  pub point_add_comm : (p q : B.Point) → p ⊞ q ≡ q ⊞ p
  point_add_comm = G.point_add_comm

  pub identity-point_add : (p : B.Point) → B.identity ⊞ p ≡ p
  identity-point_add = G.identity-point_add

  pub point_add-identity : (p : B.Point) → p ⊞ B.identity ≡ p
  point_add-identity p = G.point_add_comm p B.identity ∙ G.identity-point_add p

  pub eq_point_refl : (p : B.Point) → (p =ₚ p) ≡ true
  eq_point_refl p = (G.eq_point_iff p p).1 refl

  pub eq_point_false : (p q : B.Point) → p ≢ q → (p =ₚ q) ≡ false
  eq_point_false p q h = elim (Bool-cases (p =ₚ q)) [
    | inl e ↦ absurd (h ((G.eq_point_iff p q).0 e))
    | inr e ↦ e
  ]

  pub point_add_cancel : (p q r : B.Point) → p ⊞ q ≡ p ⊞ r → q ≡ r
  point_add_cancel p q r h = sym (back q) ∙ ap (λ t. B.point_neg p ⊞ t) h ∙ back r
    where
      back : (s : B.Point) → B.point_neg p ⊞ (p ⊞ s) ≡ s
      back s =
          sym (G.point_add_assoc _ _ _)
          ∙ ap (λ t. t ⊞ s) (G.point_neg-point_add p)
          ∙ G.identity-point_add s

  pub identity-mul : ⦃L : FieldLaws B⦄ (a : B.Scalar) → B.identity • a ≡ B.identity
  identity-mul a = point_add_cancel (B.identity • a) _ _ (
      sym (G.point_add-mul _ _ a)
      ∙ ap (λ t. t • a) (G.identity-point_add _)
      ∙ sym (point_add-identity _))

  pub point_mul-zero : ⦃L : FieldLaws B⦄ (p : B.Point) → p • B.zero ≡ B.identity
  point_mul-zero p =
      point_add_cancel (p • B.zero) _ _
        (sym (G.point_mul-add p _ _) ∙ ap (λ t. p • t) (zero-add _) ∙ sym (point_add-identity _))

-- ===== src/Backend/Wide.antt =====
-- The field of seven elements again, with digests of 32 bytes, and the square of a point in place
-- of its x coordinate.
use kawasekit_dkls.Prelude.{ℕ, zero, suc, ◌<◌, ◌%◌, refl, arith, replicate, All, [], ◌∷◌}
use kawasekit_dkls.Backend.{Backend, FieldLaws, GroupLaws, HashLaws}
use kawasekit_dkls.Backend.Toy.{digest, to_nat, times, toy, toy_field, toy_group}

instance abbrev pub wide : Backend
wide = record toy {
  sha256 = λ bs. replicate 32 (digest 0 bs % 256);
  x = λ p. to_nat (times p p) ∷ [];
}

instance pub wide_field : FieldLaws wide
wide_field = record {
  add_assoc = toy_field.add_assoc;
  add_comm = toy_field.add_comm;
  zero-add = toy_field.zero-add;
  neg-add = toy_field.neg-add;
  mul_assoc = toy_field.mul_assoc;
  mul_comm = toy_field.mul_comm;
  one-mul = toy_field.one-mul;
  mul-add = toy_field.mul-add;
  one-ne-zero = toy_field.one-ne-zero;
  invert-zero = toy_field.invert-zero;
  invert_ne = toy_field.invert_ne;
  eq_scalar_iff = toy_field.eq_scalar_iff;
}

All-replicate : (n b : ℕ) → b < 256 → All (λ c. c < 256) (replicate n b)
All-replicate zero b h = tt
All-replicate (suc n) b h = (h, All-replicate n b h)

instance pub wide_hash : HashLaws wide
wide_hash = record {
  digest_length = λ message. refl;
  digest_bytes = λ message. All-replicate 32 (digest 0 message % 256) (omega arith);
}

instance pub wide_group : GroupLaws wide
wide_group = record {
  point_add_assoc = toy_group.point_add_assoc;
  point_add_comm = toy_group.point_add_comm;
  identity-point_add = toy_group.identity-point_add;
  point_neg-point_add = toy_group.point_neg-point_add;
  point_mul-add = toy_group.point_mul-add;
  point_add-mul = toy_group.point_add-mul;
  point_mul-mul = toy_group.point_mul-mul;
  point_mul-one = toy_group.point_mul-one;
  eq_point_iff = toy_group.eq_point_iff;
}

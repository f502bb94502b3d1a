-- ===== src/Utilities/Ot/Extension/Seeds.antt =====
-- The pseudorandom generator of the OT extension: both loops extend a seed in the same way.
use kawasekit_dkls.Prelude.{
  ℕ, zero, suc, ◌+◌, ◌≤◌, ◌<◌, ◌≡◌, refl, sym, ◌∙◌, [], inl, inr, Bool-cases, Bytes, length,
  length-append, length-take, leb, arith, All, All-append, All-take,
}
use kawasekit_dkls.Backend.{Backend, HashLaws}
use kawasekit_dkls.Utilities.Hashes.{tagged_hash}
use kawasekit_dkls.Utilities.Ot.Extension.{
  prg_data_size, prg_chunk, prg_loop, prg_loop_both, extend_seed, extend_seeds,
}

module _ ⦃B : Backend⦄ ⦃H : HashLaws B⦄ where
  chunk_length :
      (sid : Bytes) (i : ℕ) (seed : Bytes) (count : ℕ) → length (prg_chunk sid i seed count) ≡ 32
  unfolding prg_chunk tagged_hash
  chunk_length sid i seed count = H.digest_length _

  prg_loop_both_lem :
      (fuel : ℕ) (sid : Bytes) (i : ℕ) (seed0 seed1 : Bytes) (count : ℕ) (prg0 prg1 : Bytes)
      → length prg0 ≡ length prg1
      → prg_loop_both fuel sid i seed0 seed1 count prg0 prg1
        ≡ (prg_loop fuel sid i seed0 count prg0, prg_loop fuel sid i seed1 count prg1)
  unfolding prg_loop prg_loop_both
  prg_loop_both_lem zero sid i seed0 seed1 count prg0 prg1 h = refl
  prg_loop_both_lem (suc fuel) sid i seed0 seed1 count prg0 prg1 h =
      elim (Bool-cases (leb prg_data_size (length prg0))) [
        | inl e ↦ rw (sym h, e) refl
        | inr e ↦
            rw (sym h, e)
              (prg_loop_both_lem fuel sid i seed0 seed1 (suc count) _ _ (
                length-append prg0 _
                ∙ omega (
                  arith,
                  length-append prg1 (prg_chunk sid i seed1 count),
                  chunk_length sid i seed0 count,
                  chunk_length sid i seed1 count,
                )))
      ]

  pub extend_seeds_lem :
      (sid : Bytes) (i : ℕ) (seed0 seed1 : Bytes)
      → extend_seeds sid i seed0 seed1 ≡ (extend_seed sid i seed0, extend_seed sid i seed1)
  unfolding extend_seeds extend_seed
  extend_seeds_lem sid i seed0 seed1 =
      rw (prg_loop_both_lem prg_data_size sid i seed0 seed1 0 [] [] refl) refl

  prg_loop_long :
      (fuel : ℕ) (sid : Bytes) (i : ℕ) (seed : Bytes) (count : ℕ) (prg : Bytes)
      → prg_data_size ≤ length prg + fuel
      → prg_data_size ≤ length (prg_loop fuel sid i seed count prg)
  unfolding prg_loop
  prg_loop_long zero sid i seed count prg h = omega arith
  prg_loop_long (suc fuel) sid i seed count prg h =
      elim (Bool-cases (leb prg_data_size (length prg))) [
        | inl e ↦ rw e (ground arith)
        | inr e ↦ rw e (
            prg_loop_long fuel sid i seed (suc count) _ (
              omega (
                arith,
                length-append prg (prg_chunk sid i seed count),
                chunk_length sid i seed count,
              )))
      ]

  prg_loop_bytes :
      (fuel : ℕ) (sid : Bytes) (i : ℕ) (seed : Bytes) (count : ℕ) (prg : Bytes)
      → All (λ b. b < 256) prg
      → All (λ b. b < 256) (prg_loop fuel sid i seed count prg)
  unfolding prg_loop prg_chunk tagged_hash
  prg_loop_bytes zero sid i seed count prg h = h
  prg_loop_bytes (suc fuel) sid i seed count prg h =
      elim (Bool-cases (leb prg_data_size (length prg))) [
        | inl e ↦ rw e h
        | inr e ↦
            rw e (
              prg_loop_bytes fuel sid i seed (suc count) _
                (All-append _ prg _ h (H.digest_bytes _)))
      ]

  -- Enough chunks are hashed: an extended seed is a `PRGOutput`.
  pub length-extend_seed :
      (sid : Bytes) (i : ℕ) (seed : Bytes) → length (extend_seed sid i seed) ≡ prg_data_size
  unfolding extend_seed
  length-extend_seed sid i seed =
      length-take prg_data_size _ (prg_loop_long prg_data_size sid i seed 0 [] (omega arith))

  pub extend_seed_bytes :
      (sid : Bytes) (i : ℕ) (seed : Bytes) → All (λ b. b < 256) (extend_seed sid i seed)
  unfolding extend_seed
  extend_seed_bytes sid i seed =
      All-take _ prg_data_size _ (prg_loop_bytes prg_data_size sid i seed 0 [] tt)

-- ===== src/Utilities/Commits/Binding.antt =====
-- A commitment opens to what was committed, and to anything else only by a collision of SHA-256.
use kawasekit_dkls.Prelude.{◌≡◌, ◌≢◌, true, [], ◌∷◌, Bytes, bytes_eq_refl, bytes_eq_iff, arith}
use kawasekit_dkls.Backend.{Backend}
use kawasekit_dkls.Utilities.OracleTags.{tag_commitment}
use kawasekit_dkls.Utilities.Hashes.{tagged_hash, encoded}
use kawasekit_dkls.Utilities.Hashes.Injective.{Fits, encoded-injective}
use kawasekit_dkls.Utilities.Commits.{commit, verify_commitment}

-- The bytes that are hashed for a commitment.
abbrev pub opening : Bytes → Bytes → Bytes
opening salt msg = encoded tag_commitment (salt ∷ msg ∷ [])

-- `tag_commitment` has 20 bytes.
tag_Fits : Fits tag_commitment
unfolding tag_commitment
tag_Fits = omega arith

module _ ⦃B : Backend⦄ where
  pub commit-verify :
      (salt msg : Bytes) → verify_commitment msg (commit salt msg).0 (commit salt msg).1 ≡ true
  unfolding commit verify_commitment
  commit-verify salt msg = bytes_eq_refl _

  -- If a commitment is accepted with another message or another salt than it was made from, all
  -- below 2 ^ 64 bytes, then the two openings are different inputs of SHA-256 with one hash.
  pub commit_binding :
      (salt msg salt' msg' : Bytes)
      → Fits salt
      → Fits msg
      → Fits salt'
      → Fits msg'
      → ¬ ((msg ≡ msg') × (salt ≡ salt'))
      → verify_commitment msg' (commit salt msg).0 salt' ≡ true
      → (opening salt msg ≢ opening salt' msg')
        × (B.sha256 (opening salt msg) ≡ B.sha256 (opening salt' msg'))
  unfolding commit verify_commitment tagged_hash
  commit_binding salt msg salt' msg' hs hm hs' hm' differ accepted = (
    λ e.
        let parts : salt ∷ msg ∷ [] ≡ salt' ∷ msg' ∷ [] =
          (encoded-injective tag_commitment tag_commitment (salt ∷ msg ∷ []) (salt' ∷ msg' ∷ [])
            (tag_Fits, (hs, (hm, tt))) (tag_Fits, (hs', (hm', tt))) e).1 in
        differ (cc, cc),
    (bytes_eq_iff _ _).0 accepted,
  )

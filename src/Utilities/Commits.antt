-- ===== src/Utilities/Commits.antt =====
-- dkls23-core/src/utilities/commits.rs. The salt that `commit` draws is an argument.
pub mod Binding
use kawasekit_dkls.Prelude.{[], ◌∷◌, Bool, Bytes, bytes_eq}
use kawasekit_dkls.Backend.{Backend}
use kawasekit_dkls.Utilities.OracleTags.{tag_commitment}
use kawasekit_dkls.Utilities.Hashes.{tagged_hash, point_to_bytes}

module _ ⦃B : Backend⦄ where
  unfoldable pub commit : Bytes → Bytes → Bytes × Bytes
  commit salt msg =
      let commitment = tagged_hash tag_commitment (salt ∷ msg ∷ []) in (commitment, salt)

  unfoldable pub verify_commitment : Bytes → Bytes → Bytes → Bool
  verify_commitment msg commitment salt =
      let expected_commitment = tagged_hash tag_commitment (salt ∷ msg ∷ []) in
      bytes_eq commitment expected_commitment

  unfoldable pub commit_point : Bytes → B.Point → Bytes × Bytes
  commit_point salt point = commit salt (point_to_bytes point)

  unfoldable pub verify_commitment_point : B.Point → Bytes → Bytes → Bool
  verify_commitment_point point commitment salt =
      verify_commitment (point_to_bytes point) commitment salt

-- ===== src/Protocols/Signature.antt =====
-- dkls23-core/src/protocols/signature.rs, and the third-party crate `hex` that it and the signing
-- protocol use.
use kawasekit_dkls.Prelude.{ℕ, ◌≡◌, [], ◌∷◌, ◌++◌, Bytes, Option, some}
use kawasekit_dkls.Backend.{Backend}

-- `hex::encode`, and `hex::decode_to_slice` into an array of the length of a field element.
pub record Hex : Type 1 where
  pub Text : Type 0
  pub encode : Bytes → Text
  pub decode : Text → Option Bytes

-- Decoding undoes encoding on the representations of scalars.
pub record HexLaws (B : Backend) (X : Hex) : Type 0 where
  pub decode-encode : (a : B.Scalar) → X.decode (X.encode (B.to_repr a)) ≡ some (B.to_repr a)

pub record EcdsaSignature : Type 0 where
  pub r : Bytes
  pub s : Bytes
  pub recovery_id : ℕ

unfoldable pub to_bytes : EcdsaSignature → Bytes
to_bytes signature = signature.r ++ signature.s

unfoldable pub to_bytes_with_recovery : EcdsaSignature → Bytes
to_bytes_with_recovery signature = signature.r ++ signature.s ++ signature.recovery_id ∷ []

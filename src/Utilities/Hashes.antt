-- ===== src/Utilities/Hashes.antt =====
-- dkls23-core/src/utilities/hashes.rs: the length-delimited encoding under the hash.
pub mod Injective
use kawasekit_dkls.Prelude.{[], ◌∷◌, ◌++◌, List, length, Bytes, to_be_bytes}
use kawasekit_dkls.Backend.{Backend}

-- `append_len_prefixed`, as the bytes that it appends.
unfoldable pub len_prefixed : Bytes → Bytes
len_prefixed component = to_be_bytes 8 (length component) ++ component

-- The loop of `tagged_hash` over the components.
unfoldable pub encode_components : List Bytes → Bytes
encode_components [] = []
encode_components (c ∷ cs) = len_prefixed c ++ encode_components cs

-- `len(tag) || tag || len(component_0) || component_0 || ...`
unfoldable pub encoded : Bytes → List Bytes → Bytes
encoded tag components = len_prefixed tag ++ encode_components components

module _ ⦃B : Backend⦄ where
  unfoldable pub tagged_hash : Bytes → List Bytes → Bytes
  tagged_hash tag components = B.sha256 (encoded tag components)

  unfoldable pub tagged_hash_as_scalar : Bytes → List Bytes → B.Scalar
  tagged_hash_as_scalar tag components = B.reduce (tagged_hash tag components)

  abbrev pub scalar_to_bytes : B.Scalar → Bytes
  scalar_to_bytes scalar = B.to_repr scalar

  abbrev pub point_to_bytes : B.Point → Bytes
  point_to_bytes point = B.point_to_bytes point

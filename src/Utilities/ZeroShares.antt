-- ===== src/Utilities/ZeroShares.antt =====
-- dkls23-core/src/utilities/zero_shares.rs. The seed and the salt that
-- `generate_seed_with_commitment` draws are arguments.
pub mod Zero
use kawasekit_dkls.Prelude.{ℕ, List, [], ◌∷◌, Bool, Bytes, leb, if◌then◌else◌, xor_bytes}
use kawasekit_dkls.Backend.{Backend, ◌⊕◌, ◌⊖◌}
use kawasekit_dkls.Backend.Ring.Sum.{contains}
use kawasekit_dkls.Utilities.OracleTags.{tag_zero_share_fragment}
use kawasekit_dkls.Utilities.Hashes.{tagged_hash_as_scalar}
use kawasekit_dkls.Utilities.Commits.{commit, verify_commitment}

pub record SeedPair : Type 0 where
  pub lowest_index : Bool
  pub index_counterparty : ℕ
  pub seed : Bytes

pub record ZeroShare : Type 0 where
  pub seeds : List SeedPair

-- The two arrays have `SECURITY` bytes each.
unfoldable pub generate_seed_pair : ℕ → ℕ → Bytes → Bytes → SeedPair
generate_seed_pair index_party index_counterparty seed_party seed_counterparty = record {
  lowest_index = leb index_party index_counterparty;
  index_counterparty = index_counterparty;
  seed = xor_bytes seed_party seed_counterparty;
}

unfoldable pub initialize : List SeedPair → ZeroShare
initialize seeds = record { seeds = seeds }

module _ ⦃B : Backend⦄ where
  unfoldable pub generate_seed_with_commitment : Bytes → Bytes → Bytes × Bytes × Bytes
  generate_seed_with_commitment seed salt =
      let (commitment, salt') = commit salt seed in (seed, commitment, salt')

  unfoldable pub verify_seed : Bytes → Bytes → Bytes → Bool
  verify_seed seed commitment salt = verify_commitment seed commitment salt

  -- The scalar that a seed gives in a session.
  unfoldable pub fragment_of : Bytes → SeedPair → B.Scalar
  fragment_of session_id pair =
      tagged_hash_as_scalar tag_zero_share_fragment (session_id ∷ pair.seed ∷ [])

  -- The body of the loop of `compute`.
  unfoldable pub add_fragment : List ℕ → Bytes → B.Scalar → SeedPair → B.Scalar
  add_fragment counterparties session_id share pair =
      let fragment = fragment_of session_id pair in
      if contains counterparties pair.index_counterparty
      then (if pair.lowest_index then share ⊖ fragment else share ⊕ fragment)
      else share

  unfoldable pub add_fragments : List ℕ → Bytes → B.Scalar → List SeedPair → B.Scalar
  add_fragments counterparties session_id share [] = share
  add_fragments counterparties session_id share (pair ∷ pairs) =
      add_fragments counterparties session_id (add_fragment counterparties session_id share pair)
        pairs

  unfoldable pub compute : ZeroShare → List ℕ → Bytes → B.Scalar
  compute z counterparties session_id = add_fragments counterparties session_id B.zero z.seeds

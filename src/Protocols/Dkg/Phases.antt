-- ===== src/Protocols/Dkg/Phases.antt =====
-- dkls23-core/src/protocols/dkg.rs: phases 1 and 2. Random draws are arguments.
pub mod Opens
use kawasekit_dkls.Prelude.{
  ℕ, List, [], ◌∷◌, range, ◌==◌, if◌then◌else◌, Bytes, Result, ok, ◌>>=◌, BTreeMap, insert,
}
use kawasekit_dkls.Backend.{Backend}
use kawasekit_dkls.Utilities.{protocol_version}
use kawasekit_dkls.Utilities.Commits.{commit}
use kawasekit_dkls.Utilities.Proofs.DLog.{DLogDraws}
use kawasekit_dkls.Utilities.ZeroShares.{generate_seed_with_commitment}
use kawasekit_dkls.Protocols.{PartyIndex, Parameters, PartiesMessage, Failure}
use kawasekit_dkls.Protocols.Dkg.{ProofCommitment, step1, step2, step3}

pub record SessionData : Type 0 where
  pub parameters : Parameters
  pub party_index : PartyIndex
  pub session_id : Bytes

pub record TransmitInitZeroShare : Type 0 where
  pub parties : PartiesMessage
  pub commitment : Bytes

pub record KeepInitZeroShare : Type 0 where
  pub seed : Bytes
  pub salt : Bytes

pub record UniqueKeepDerivation : Type 0 where
  pub aux_chain_code : Bytes
  pub cc_salt : Bytes

pub record BroadcastDerivation : Type 0 where
  pub sender_index : PartyIndex
  pub cc_commitment : Bytes
  pub version : ℕ

-- The draws of phase 2: the seed and the salt for each party, the chain code and its salt, and
-- those of the proof.
pub record PhaseDraws (B : Backend) : Type 0 where
  pub proof_draws : DLogDraws B
  pub seed_for : ℕ → Bytes
  pub salt_for : ℕ → Bytes
  pub chain_code : Bytes
  pub chain_code_salt : Bytes

pub record PhaseTwo (B : Backend) : Type 0 where
  pub poly_point : B.Scalar
  pub proof_commitment : ProofCommitment B
  pub zero_keep : BTreeMap KeepInitZeroShare
  pub zero_transmit : List TransmitInitZeroShare
  pub bip_keep : UniqueKeepDerivation
  pub bip_broadcast : BroadcastDerivation

module _ ⦃B : Backend⦄ where
  unfoldable pub phase1 : (ℕ → B.Scalar) → SessionData → Result Failure (List B.Scalar)
  phase1 draw data_of =
      let secret_polynomial = step1 draw data_of.parameters in
      step2 data_of.parameters secret_polynomial

  -- The loop over the parties: what is kept and what is sent.
  unfoldable pub zero_init :
      PhaseDraws B
      → PartyIndex
      → BTreeMap KeepInitZeroShare
      → List ℕ
      → BTreeMap KeepInitZeroShare × List TransmitInitZeroShare
  zero_init d own zero_keep [] = (zero_keep, [])
  zero_init d own zero_keep (i ∷ is) =
      let (seed, commitment, salt) = generate_seed_with_commitment (d.seed_for i) (d.salt_for i) in
      let skipped = zero_init d own zero_keep is in
      let (kept, sent) =
        zero_init d own (insert i (record { seed = seed; salt = salt }) zero_keep) is in
      if i == own then skipped else (
        kept,
        record { parties = record { sender = own; receiver = i }; commitment = commitment } ∷ sent,
      )

  unfoldable pub phase2 : PhaseDraws B → SessionData → List B.Scalar → Result Failure (PhaseTwo B)
  phase2 d data_of poly_fragments =
      step3 d.proof_draws data_of.party_index data_of.session_id poly_fragments >>= λ made.
      let zero = zero_init d data_of.party_index [] (range 1 data_of.parameters.share_count) in
      let committed = commit d.chain_code_salt d.chain_code in
      ok (record {
        poly_point = made.0;
        proof_commitment = made.1;
        zero_keep = zero.0;
        zero_transmit = zero.1;
        bip_keep = record { aux_chain_code = d.chain_code; cc_salt = committed.1 };
        bip_broadcast = record {
          sender_index = data_of.party_index;
          cc_commitment = committed.0;
          version = protocol_version;
        };
      })

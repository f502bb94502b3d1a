-- ===== src/Protocols.antt =====
-- dkls23-core/src/protocols.rs: the types that the protocols share. `Dkg` is
-- protocols/dkg.rs, and `Messages` is protocols/messages.rs.
pub mod Derivation
pub mod Dkg
pub mod Messages
pub mod Signature
pub mod Signing
pub mod SignSession
use kawasekit_dkls.Prelude.{
  ℕ, ◌≡◌, Bool, true, false, ◌||◌, Option, some, none, ◌==◌, ltb, if◌then◌else◌, Result, ok, err,
  BTreeMap, get,
}
use kawasekit_dkls.Backend.{Backend, ◌=ₚ◌}
use Prim.Native.String.{String}

-- A party's index, a `u8` that is not zero.
abbrev pub PartyIndex : Type 0
PartyIndex = ℕ

pub data InvalidPartyIndex : Type 0 where
  invalid_party_index : InvalidPartyIndex

unfoldable pub party_index_new : ℕ → Result InvalidPartyIndex PartyIndex
party_index_new value = if value == 0 then err invalid_party_index else ok value

pub record Parameters : Type 0 where
  pub threshold : ℕ
  pub share_count : ℕ

pub data InvalidParameters : Type 0 where
  invalid_parameters : InvalidParameters

unfoldable pub parameters_new : ℕ → ℕ → Result InvalidParameters Parameters
parameters_new threshold share_count =
    if ltb threshold 2 || ltb share_count threshold
    then err invalid_parameters
    else ok (record { threshold = threshold; share_count = share_count })

pub record PublicKeyPackage (B : Backend) : Type 0 where
  pub verifying_key : B.Point
  pub verifying_shares : BTreeMap B.Point
  pub parameters : Parameters

pub data AbortKind : Type 0 where
  recoverable_abort : AbortKind
  ban_counterparty : PartyIndex → AbortKind

pub data AbortReason : Type 0 where
  bad_party_index : PartyIndex → AbortReason
  wrong_counterparty_count : ℕ → ℕ → AbortReason
  duplicate_counterparty : PartyIndex → AbortReason
  self_in_counterparties : AbortReason
  malformed_session_id : AbortReason
  missing_mul_state : PartyIndex → AbortReason
  misrouted_message : PartyIndex → PartyIndex → AbortReason
  unexpected_sender : PartyIndex → AbortReason
  duplicate_sender : PartyIndex → AbortReason
  wrong_message_count : ℕ → ℕ → AbortReason
  missing_message_from_party : PartyIndex → AbortReason
  proof_verification_failed : PartyIndex → AbortReason
  commitment_mismatch : PartyIndex → AbortReason
  polynomial_inconsistency : AbortReason
  trivial_instance_point : PartyIndex → AbortReason
  trivial_public_key : AbortReason
  trivial_key_share : AbortReason
  missing_committed_point : PartyIndex → AbortReason
  ot_consistency_check_failed : PartyIndex → AbortReason
  multiplication_verification_failed : PartyIndex → String → AbortReason
  gamma_u_inconsistency : PartyIndex → AbortReason
  signature_verification_failed : AbortReason
  zero_denominator : AbortReason
  lagrange_coefficient_failed : AbortReason
  invalid_x_coordinate_hex : AbortReason
  zero_share_decommit_failed : PartyIndex → AbortReason
  chain_code_commitment_failed : PartyIndex → AbortReason
  root_agreement_mismatch : PartyIndex → AbortReason
  protocol_version_mismatch : PartyIndex → ℕ → ℕ → AbortReason
  phase_called_out_of_order : String → AbortReason
  invalid_hex : String → AbortReason

pub record Abort : Type 0 where
  pub index : PartyIndex
  pub kind : AbortKind
  pub reason : AbortReason

unfoldable pub recoverable : PartyIndex → AbortReason → Abort
recoverable index reason = record { index = index; kind = recoverable_abort; reason = reason }

unfoldable pub ban : PartyIndex → PartyIndex → AbortReason → Abort
ban index counterparty reason = record {
  index = index;
  kind = ban_counterparty counterparty;
  reason = reason;
}

-- What ends a function without a value: the error that it returns, or a panic.
pub data Failure : Type 0 where
  aborts : Abort → Failure
  panics : Failure

-- `Result::expect`
unfoldable pub expect {ℓ κ} : {E : Type ℓ} {A : Type κ} → Result E A → Result Failure A
expect (ok value) = ok value
expect (err e) = err panics

pub expect-eq-ok {ℓ κ} :
    {E : Type ℓ} {A : Type κ} (r : Result E A) {a : A} → expect r ≡ ok a → r ≡ ok a
unfolding expect
expect-eq-ok (ok value) h = cc
expect-eq-ok (err e) h = cc

pub record PartiesMessage : Type 0 where
  pub sender : PartyIndex
  pub receiver : PartyIndex

unfoldable pub reverse : PartiesMessage → PartiesMessage
reverse m = record { sender = m.receiver; receiver = m.sender }

module _ ⦃B : Backend⦄ where
  unfoldable pub verifying_share : PublicKeyPackage B → PartyIndex → Option B.Point
  verifying_share p party = get party p.verifying_shares

  unfoldable pub verify_share : PublicKeyPackage B → PartyIndex → B.Point → Bool
  verify_share p party verification_share = elim (get party p.verifying_shares) [
    | some stored ↦ stored =ₚ verification_share
    | none ↦ false
  ]

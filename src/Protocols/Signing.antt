-- ===== src/Protocols/Signing.antt =====
-- dkls23-core/src/protocols/signing.rs: the data of the signing protocol, its session ids and the
-- verification of a signature. `PhaseOne` to `PhaseFour` are the phases.
pub mod Guards
pub mod PhaseOne
pub mod PhaseTwo
pub mod PhaseThree
pub mod PhaseFour
pub mod Equation
pub mod Honest
pub mod Sound
pub mod Bans
use Prim.Native.String.{String}
use kawasekit_dkls.Prelude.{
  ℕ, List, [], ◌∷◌, ◌++◌, Bool, true, false, ◌||◌, if◌then◌else◌, Bytes, ascii, to_be_bytes, Option,
  none, some, BTreeMap, Result, ok, err, ok_or, ◌>>=◌,
}
use kawasekit_dkls.Backend.{Backend, ◌⊞◌, ◌⊗◌, ◌•◌, ◌=ₛ◌, ◌=ₚ◌}
use kawasekit_dkls.Utilities.OracleTags.{tag_root_agreement}
use kawasekit_dkls.Utilities.Hashes.{tagged_hash}
use kawasekit_dkls.Utilities.ZeroShares.{ZeroShare}
use kawasekit_dkls.Utilities.Ot.Extension.{OteDataToSender}
use kawasekit_dkls.Utilities.Multiplication.{
  MulSender, MulReceiver, MulDataToReceiver, MulDataToKeepReceiver,
}
use kawasekit_dkls.Protocols.{PartyIndex, Parameters, PartiesMessage, Failure, panics}
use kawasekit_dkls.Protocols.Signature.{Hex}

-- `DerivData` of dkls23-core/src/protocols/derivation.rs.
pub record DerivData (B : Backend) : Type 0 where
  pub depth : ℕ
  pub child_number : ℕ
  pub parent_fingerprint : Bytes
  pub poly_point : B.Scalar
  pub pk : B.Point
  pub chain_code : Bytes

-- `Party` of dkls23-core/src/protocols.rs.
pub record Party (B : Backend) : Type 0 where
  pub parameters : Parameters
  pub party_index : PartyIndex
  pub session_id : Bytes
  pub poly_point : B.Scalar
  pub pk : B.Point
  pub zero_share : ZeroShare
  pub mul_senders : BTreeMap (MulSender B)
  pub mul_receivers : BTreeMap (MulReceiver B)
  pub derivation_data : DerivData B
  pub address : String

pub record SignData : Type 0 where
  pub sign_id : Bytes
  pub counterparties : List PartyIndex
  pub message_hash : Bytes

pub record TransmitPhase1to2 : Type 0 where
  pub parties : PartiesMessage
  pub commitment : Bytes
  pub version : ℕ
  pub root_digest : Bytes
  pub mul_transmit : OteDataToSender

pub record TransmitPhase2to3 (B : Backend) : Type 0 where
  pub parties : PartiesMessage
  pub gamma_u : B.Point
  pub gamma_v : B.Point
  pub psi : B.Scalar
  pub public_share : B.Point
  pub instance_point : B.Point
  pub salt : Bytes
  pub mul_transmit : MulDataToReceiver B

pub record Broadcast3to4 (B : Backend) : Type 0 where
  pub u : B.Scalar
  pub w : B.Scalar

pub record KeepPhase1to2 (B : Backend) : Type 0 where
  pub salt : Bytes
  pub chi : B.Scalar
  pub mul_keep : MulDataToKeepReceiver B

pub record KeepPhase2to3 (B : Backend) : Type 0 where
  pub c_u : B.Scalar
  pub c_v : B.Scalar
  pub commitment : Bytes
  pub mul_keep : MulDataToKeepReceiver B
  pub chi : B.Scalar

pub record UniqueKeep1to2 (B : Backend) : Type 0 where
  pub instance_key : B.Scalar
  pub instance_point : B.Point
  pub inversion_mask : B.Scalar
  pub zeta : B.Scalar

pub record UniqueKeep2to3 (B : Backend) : Type 0 where
  pub instance_key : B.Scalar
  pub instance_point : B.Point
  pub inversion_mask : B.Scalar
  pub key_share : B.Scalar
  pub public_share : B.Point

-- What the session ids of all sub-protocols end with.
unfoldable pub signing_suffix : {B : Backend} → Party B → SignData → Bytes
signing_suffix party sign_data =
    party.session_id ++ sign_data.sign_id ++ party.derivation_data.chain_code

-- The session id of a multiplication, with its receiver first.
unfoldable pub mul_session_id : {B : Backend} → PartyIndex → PartyIndex → Party B → SignData → Bytes
mul_session_id receiver sender party sign_data =
    ascii "Multiplication protocol"
    ++ to_be_bytes 1 receiver
    ++ to_be_bytes 1 sender
    ++ signing_suffix party sign_data

unfoldable pub zero_session_id : {B : Backend} → Party B → SignData → Bytes
zero_session_id party sign_data = ascii "Zero shares protocol" ++ signing_suffix party sign_data

module _ ⦃B : Backend⦄ where
  unfoldable pub root_agreement_digest : Bytes → Bytes → Bytes → Bytes
  root_agreement_digest session_id sign_id chain_code =
      tagged_hash tag_root_agreement (session_id ∷ sign_id ∷ chain_code ∷ [])

  -- A hash output has the length of a field element.
  unfoldable pub reduce_hash_bytes : Bytes → B.Scalar
  reduce_hash_bytes hash = B.reduce hash

module _ ⦃B : Backend⦄ ⦃X : Hex⦄ where
  unfoldable pub parse_hex_to_scalar : X.Text → Option B.Scalar
  parse_hex_to_scalar hex_value = elim (X.decode hex_value) [
    | none ↦ none
    | some bytes ↦ B.from_repr bytes
  ]

  unfoldable pub reduce_hex_bytes : X.Text → Result Failure B.Scalar
  reduce_hex_bytes hex_value = ok_or panics (X.decode hex_value) >>= λ bytes. ok (B.reduce bytes)

  -- The equation of ECDSA, for r and s that have been parsed.
  unfoldable pub verify_scalars : Bytes → B.Point → B.Scalar → B.Scalar → Bool
  verify_scalars msg pk rx_as_scalar s_as_scalar =
      if (rx_as_scalar =ₛ B.zero) || (s_as_scalar =ₛ B.zero)
      then false
      else elim (B.invert s_as_scalar) [
        | none ↦ false
        | some inverse_s ↦
            let point_to_check =
              B.generator • (reduce_hash_bytes msg ⊗ inverse_s) ⊞ pk • (rx_as_scalar ⊗ inverse_s) in
            if point_to_check =ₚ B.identity
            then false
            else (B.reduce (B.x point_to_check) =ₛ rx_as_scalar)
      ]

  unfoldable pub verify_ecdsa_signature : Bytes → B.Point → X.Text → X.Text → Bool
  verify_ecdsa_signature msg pk x_coord signature = elim (parse_hex_to_scalar x_coord) [
    | none ↦ false
    | some rx_as_scalar ↦ elim (parse_hex_to_scalar signature) [
      | none ↦ false
      | some s_as_scalar ↦ verify_scalars msg pk rx_as_scalar s_as_scalar
    ]
  ]

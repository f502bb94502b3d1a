-- ===== src/Protocols/SignSession.antt =====
-- dkls23-core/src/protocols/sign_session.rs: signing as a session, which keeps what a phase leaves
-- for the next one. `phase2` and `phase3` return the session after the call and the result.
pub mod Order
pub mod Stages
pub mod Delivers
use Prim.Native.String.{String}
use kawasekit_dkls.Prelude.{
  ℕ, List, true, Option, none, some, BTreeMap, Result, ok, err, ok_or, ◌>>=◌,
}
use kawasekit_dkls.Backend.{Backend}
use kawasekit_dkls.Protocols.{
  PartyIndex, Abort, AbortReason, Failure, aborts, recoverable, phase_called_out_of_order,
  invalid_hex,
}
use kawasekit_dkls.Protocols.Signature.{Hex, EcdsaSignature}
use kawasekit_dkls.Protocols.Signing.{
  Party, SignData, TransmitPhase1to2, TransmitPhase2to3, KeepPhase1to2, KeepPhase2to3,
  UniqueKeep1to2, UniqueKeep2to3, Broadcast3to4,
}
use kawasekit_dkls.Protocols.Signing.PhaseOne.{PhaseOneDraws, sign_phase1}
use kawasekit_dkls.Protocols.Signing.PhaseTwo.{sign_phase2}
use kawasekit_dkls.Protocols.Signing.PhaseThree.{sign_phase3}
use kawasekit_dkls.Protocols.Signing.PhaseFour.{sign_phase4}

-- What phases 1 and 2 leave for the phase after them.
abbrev pub Kept1to2 : Backend → Type 0
Kept1to2 B = UniqueKeep1to2 B × BTreeMap (KeepPhase1to2 B)

abbrev pub Kept2to3 : Backend → Type 0
Kept2to3 B = UniqueKeep2to3 B × BTreeMap (KeepPhase2to3 B)

pub record SignSession (B : Backend) (X : Hex) : Type 0 where
  pub party : Party B
  pub sign_data : SignData
  pub phase1_to_2 : Option (Kept1to2 B)
  pub phase2_to_3 : Option (Kept2to3 B)
  pub x_coord : Option X.Text

unfoldable pub out_of_order : PartyIndex → String → Abort
out_of_order own phase = recoverable own (phase_called_out_of_order phase)

module _ ⦃B : Backend⦄ ⦃X : Hex⦄ where
  unfoldable pub session_new :
      PhaseOneDraws B
      → Party B
      → SignData
      → Result Failure (SignSession B X × List TransmitPhase1to2)
  session_new d party sign_data = sign_phase1 d party sign_data >>= λ made. ok (
    record {
      party = party;
      sign_data = sign_data;
      phase1_to_2 = some (made.0, made.1);
      phase2_to_3 = none;
      x_coord = none;
    },
    made.2,
  )

  -- The end of phase 2: the session keeps what the phase made, if it made something.
  unfoldable pub finish_phase2 :
      SignSession B X
      → Result Failure (UniqueKeep2to3 B × BTreeMap (KeepPhase2to3 B) × List (TransmitPhase2to3 B))
      → SignSession B X × Result Failure (List (TransmitPhase2to3 B))
  finish_phase2 session (err e) = (session, err e)
  finish_phase2 session (ok made) =
      (record session { phase2_to_3 = some (made.0, made.1) }, ok made.2)

  -- What was kept is taken from the session first, so it is gone if the phase fails.
  unfoldable pub session_phase2 :
      (PartyIndex → ℕ → B.Scalar)
      → (PartyIndex → ℕ → B.Scalar)
      → SignSession B X
      → List TransmitPhase1to2
      → SignSession B X × Result Failure (List (TransmitPhase2to3 B))
  session_phase2 pads checks session received = elim session.phase1_to_2 [
    | none ↦ (
      session,
      err (aborts (out_of_order session.party.party_index "phase2 called out of order")),
    )
    | some kept ↦
        finish_phase2 (record session { phase1_to_2 = none })
          (sign_phase2 pads checks session.party session.sign_data kept.0 kept.1 received)
  ]

  unfoldable pub finish_phase3 :
      SignSession B X
      → Result Failure (X.Text × Broadcast3to4 B)
      → SignSession B X × Result Failure (Broadcast3to4 B)
  finish_phase3 session (err e) = (session, err e)
  finish_phase3 session (ok made) = (record session { x_coord = some made.0 }, ok made.1)

  unfoldable pub session_phase3 :
      SignSession B X
      → List (TransmitPhase2to3 B)
      → SignSession B X × Result Failure (Broadcast3to4 B)
  session_phase3 session received = elim session.phase2_to_3 [
    | none ↦ (
      session,
      err (aborts (out_of_order session.party.party_index "phase3 called out of order")),
    )
    | some kept ↦
        finish_phase3 (record session { phase2_to_3 = none })
          (sign_phase3 session.party session.sign_data kept.0 kept.1 received)
  ]

  -- The session is used up. The text of the error of the hex crate is left out of the reason.
  unfoldable pub session_phase4 :
      SignSession B X → List (Broadcast3to4 B) → Result Failure EcdsaSignature
  session_phase4 session received =
      let own = session.party.party_index in
      ok_or (aborts (out_of_order own "phase4 called out of order")) session.x_coord >>= λ x_coord.
      sign_phase4 session.party session.sign_data x_coord received true >>= λ made.
      ok_or (aborts (recoverable own (invalid_hex "invalid r hex"))) (X.decode x_coord) >>= λ r.
      ok_or (aborts (recoverable own (invalid_hex "invalid s hex"))) (X.decode made.0) >>= λ s.
      ok (record { r = r; s = s; recovery_id = made.1 })

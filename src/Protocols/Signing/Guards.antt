-- ===== src/Protocols/Signing/Guards.antt =====
-- The checks on counterparties and on received messages of dkls23-core/src/protocols/signing.rs.
use kawasekit_dkls.Prelude.{
  ℕ, List, [], ◌∷◌, Bool, true, false, not, ◌||◌, ◌==◌, ltb, Bytes, bytes_eq, none, some, BTreeMap,
  get, Result, ok, ◌>>◌, fail_if,
}
use kawasekit_dkls.Backend.{Backend}
use kawasekit_dkls.Backend.Ring.Sum.{contains}
use kawasekit_dkls.Utilities.{protocol_version}
use kawasekit_dkls.Utilities.Multiplication.{
  MulFailure, mul_fails, mul_panics, ErrorMul, mul_consistency_failure, mul_malformed_message,
}
use kawasekit_dkls.Protocols.{
  Failure, aborts, panics, PartyIndex, PartiesMessage, Abort, recoverable, ban, bad_party_index,
  duplicate_counterparty, self_in_counterparties, missing_mul_state, unexpected_sender,
  misrouted_message, duplicate_sender, protocol_version_mismatch, root_agreement_mismatch,
  multiplication_verification_failed,
}
use kawasekit_dkls.Protocols.Signing.{Party, TransmitPhase1to2}

unfoldable pub contains_key {ℓ} : {V : Type ℓ} → BTreeMap V → ℕ → Bool
contains_key m k = elim (get k m) [ none ↦ false | some v ↦ true ]

-- The loop over the counterparties in phase 1, with those seen so far.
unfoldable pub check_counterparties :
    {B : Backend} → Party B → List PartyIndex → List PartyIndex → Result Abort (Unit {0})
check_counterparties party seen [] = ok tt
check_counterparties party seen (c ∷ cs) =
    let rest = check_counterparties party (c ∷ seen) cs in
    fail_if (ltb party.parameters.share_count c) (recoverable party.party_index (bad_party_index c))
    >> fail_if (contains seen c) (recoverable party.party_index (duplicate_counterparty c))
    >> fail_if (c == party.party_index) (recoverable party.party_index self_in_counterparties)
    >> fail_if (not (contains_key party.mul_senders c) || not (contains_key party.mul_receivers c))
        (recoverable party.party_index (missing_mul_state c))
    >> rest

-- The sender is a counterparty and the message is for this party.
unfoldable pub check_route : PartyIndex → List PartyIndex → PartiesMessage → Result Abort (Unit {0})
check_route own counterparties parties =
    fail_if (not (contains counterparties parties.sender))
      (recoverable own (unexpected_sender parties.sender))
    >> fail_if (not (parties.receiver == own))
        (recoverable own (misrouted_message own parties.receiver))

unfoldable pub check_fresh : PartyIndex → List PartyIndex → PartyIndex → Result Abort (Unit {0})
check_fresh own seen sender =
    fail_if (contains seen sender) (recoverable own (duplicate_sender sender))

-- The loop of phase 2 that validates the routing.
unfoldable pub check_routing :
    PartyIndex
    → List PartyIndex
    → List PartyIndex
    → List TransmitPhase1to2
    → Result Abort (Unit {0})
check_routing own counterparties seen [] = ok tt
check_routing own counterparties seen (m ∷ ms) =
    let rest = check_routing own counterparties (m.parties.sender ∷ seen) ms in
    check_route own counterparties m.parties >> check_fresh own seen m.parties.sender >> rest

unfoldable pub check_versions : PartyIndex → List TransmitPhase1to2 → Result Abort (Unit {0})
check_versions own [] = ok tt
check_versions own (m ∷ ms) =
    let rest = check_versions own ms in
    fail_if (not (m.version == protocol_version))
      (recoverable own (protocol_version_mismatch m.parties.sender protocol_version m.version))
    >> rest

unfoldable pub check_roots : PartyIndex → Bytes → List TransmitPhase1to2 → Result Abort (Unit {0})
check_roots own our_root_digest [] = ok tt
check_roots own our_root_digest (m ∷ ms) =
    let rest = check_roots own our_root_digest ms in
    fail_if (not (bytes_eq m.root_digest our_root_digest))
      (recoverable own (root_agreement_mismatch m.parties.sender))
    >> rest

-- The abort for a failed multiplication: only a consistency failure bans.
unfoldable pub abort_of_mul : PartyIndex → PartyIndex → ErrorMul → Abort
abort_of_mul own counterparty error = elim error.kind [
  | mul_consistency_failure ↦
      ban own counterparty (multiplication_verification_failed counterparty error.description)
  | mul_malformed_message ↦
      recoverable own (multiplication_verification_failed counterparty error.description)
]

-- A panic of the multiplication is a panic of the phase.
unfoldable pub failure_of_mul : (ErrorMul → Abort) → MulFailure → Failure
failure_of_mul abort (mul_fails error) = aborts (abort error)
failure_of_mul abort mul_panics = panics

-- The abort of phase 1, which never bans.
unfoldable pub recoverable_of_mul : PartyIndex → PartyIndex → ErrorMul → Abort
recoverable_of_mul own counterparty error =
    recoverable own (multiplication_verification_failed counterparty error.description)

-- ===== src/Protocols/Signing/PhaseThree.antt =====
-- `sign_phase3` of dkls23-core/src/protocols/signing.rs.
use kawasekit_dkls.Prelude.{
  List, [], ◌∷◌, not, ◌==◌, length, BTreeMap, get, Result, ok, ok_or, ◌>>=◌, ◌>>◌, fail_if, at,
}
use kawasekit_dkls.Backend.{Backend, ◌⊕◌, ◌⊗◌, ◌⊞◌, ◌•◌, ◌=ₚ◌}
use kawasekit_dkls.Utilities.Commits.{verify_commitment_point}
use kawasekit_dkls.Utilities.Multiplication.Receiver.{mul_receiver_run_phase2}
use kawasekit_dkls.Protocols.{
  PartyIndex, Abort, Failure, aborts, recoverable, ban, wrong_message_count, trivial_instance_point,
  missing_mul_state, commitment_mismatch, gamma_u_inconsistency, ot_consistency_check_failed,
  polynomial_inconsistency,
}
use kawasekit_dkls.Protocols.Signature.{Hex}
use kawasekit_dkls.Protocols.Signing.{
  Party, SignData, TransmitPhase2to3, KeepPhase2to3, UniqueKeep2to3, Broadcast3to4, mul_session_id,
  reduce_hash_bytes, reduce_hex_bytes,
}
use kawasekit_dkls.Protocols.Signing.Guards.{check_route, check_fresh, abort_of_mul, failure_of_mul}
use kawasekit_dkls.Protocols.Signing.PhaseOne.{map_err}

-- The sums of steps 8 and 9.
pub record Totals (B : Backend) : Type 0 where
  pub expected_public_key : B.Point
  pub total_instance_point : B.Point
  pub first_sum_u_v : B.Scalar
  pub second_sum_u : B.Scalar
  pub second_sum_v : B.Scalar

module _ ⦃B : Backend⦄ where
  unfoldable pub first_totals : UniqueKeep2to3 B → Totals B
  first_totals unique_kept = record {
    expected_public_key = unique_kept.public_share;
    total_instance_point = unique_kept.instance_point;
    first_sum_u_v = unique_kept.inversion_mask;
    second_sum_u = B.zero;
    second_sum_v = B.zero;
  }

  -- The checks on a message before the multiplication is finished: what was kept for its sender.
  unfoldable pub phase3_accept :
      Party B
      → SignData
      → BTreeMap (KeepPhase2to3 B)
      → List PartyIndex
      → TransmitPhase2to3 B
      → Result Abort (KeepPhase2to3 B)
  phase3_accept party sign_data kept seen message =
      let own = party.party_index in
      let counterparty = message.parties.sender in
      check_route own sign_data.counterparties message.parties
      >> fail_if (message.instance_point =ₚ B.identity)
          (recoverable own (trivial_instance_point counterparty))
      >> check_fresh own seen counterparty
      >> ok_or (recoverable own (missing_mul_state counterparty)) (get counterparty kept)
      >>= λ current_kept.
          fail_if
            (not
              (verify_commitment_point message.instance_point current_kept.commitment message.salt))
            (recoverable own (commitment_mismatch counterparty))
          >> ok current_kept

  -- `d_u` and `d_v`, from the end of the multiplication.
  unfoldable pub phase3_multiply :
      Party B
      → SignData
      → KeepPhase2to3 B
      → TransmitPhase2to3 B
      → Result Failure (B.Scalar × B.Scalar)
  phase3_multiply party sign_data current_kept message =
      let own = party.party_index in
      let counterparty = message.parties.sender in
      ok_or (aborts (recoverable own (missing_mul_state counterparty)))
        (get counterparty party.mul_receivers)
      >>= λ mul_receiver.
          map_err (failure_of_mul (abort_of_mul own counterparty)) (
            mul_receiver_run_phase2 mul_receiver (mul_session_id own counterparty party sign_data)
              current_kept.mul_keep message.mul_transmit)
          >>= λ d_values. ok (at B.zero d_values 0, at B.zero d_values 1)

  -- The first consistency checks.
  unfoldable pub phase3_consistent :
      PartyIndex
      → KeepPhase2to3 B
      → TransmitPhase2to3 B
      → B.Scalar
      → B.Scalar
      → Result Abort (Unit {0})
  phase3_consistent own current_kept message d_u d_v =
      let counterparty = message.parties.sender in
      fail_if
        (not (message.instance_point • current_kept.chi =ₚ B.generator • d_u ⊞ message.gamma_u))
        (ban own counterparty (gamma_u_inconsistency counterparty))
      >> fail_if
          (not (message.public_share • current_kept.chi =ₚ B.generator • d_v ⊞ message.gamma_v))
          (ban own counterparty (ot_consistency_check_failed counterparty))

  unfoldable pub add_message :
      Totals B → KeepPhase2to3 B → TransmitPhase2to3 B → B.Scalar → B.Scalar → Totals B
  add_message totals current_kept message d_u d_v = record {
    expected_public_key = totals.expected_public_key ⊞ message.public_share;
    total_instance_point = totals.total_instance_point ⊞ message.instance_point;
    first_sum_u_v = totals.first_sum_u_v ⊕ message.psi;
    second_sum_u = totals.second_sum_u ⊕ current_kept.c_u ⊕ d_u;
    second_sum_v = totals.second_sum_v ⊕ current_kept.c_v ⊕ d_v;
  }

  -- The loop over the received messages.
  unfoldable pub phase3_loop :
      Party B
      → SignData
      → BTreeMap (KeepPhase2to3 B)
      → List PartyIndex
      → Totals B
      → List (TransmitPhase2to3 B)
      → Result Failure (Totals B)
  phase3_loop party sign_data kept seen totals [] = ok totals
  phase3_loop party sign_data kept seen totals (m ∷ ms) =
      map_err aborts (phase3_accept party sign_data kept seen m) >>= λ current_kept.
      phase3_multiply party sign_data current_kept m >>= λ d.
      map_err aborts (phase3_consistent party.party_index current_kept m d.0 d.1)
      >> phase3_loop party sign_data kept (m.parties.sender ∷ seen)
          (add_message totals current_kept m d.0 d.1) ms

  -- The sums of all messages, with the second consistency check.
  unfoldable pub phase3_totals :
      Party B
      → SignData
      → UniqueKeep2to3 B
      → BTreeMap (KeepPhase2to3 B)
      → List (TransmitPhase2to3 B)
      → Result Failure (Totals B)
  phase3_totals party sign_data unique_kept kept received =
      let own = party.party_index in
      let expected = length sign_data.counterparties in
      fail_if (not (length received == expected))
        (aborts (recoverable own (wrong_message_count expected (length received))))
      >> phase3_loop party sign_data kept [] (first_totals unique_kept) received
      >>= λ totals.
          fail_if (not (totals.expected_public_key =ₚ party.pk))
            (aborts (recoverable own polynomial_inconsistency))
          >> fail_if (totals.total_instance_point =ₚ B.identity)
              (aborts (recoverable own polynomial_inconsistency))
          >> ok totals

  unfoldable pub u_share : UniqueKeep2to3 B → Totals B → B.Scalar
  u_share unique_kept totals = unique_kept.instance_key ⊗ totals.first_sum_u_v ⊕ totals.second_sum_u

  unfoldable pub v_share : UniqueKeep2to3 B → Totals B → B.Scalar
  v_share unique_kept totals = unique_kept.key_share ⊗ totals.first_sum_u_v ⊕ totals.second_sum_v

module _ ⦃B : Backend⦄ ⦃X : Hex⦄ where
  unfoldable pub sign_phase3 :
      Party B
      → SignData
      → UniqueKeep2to3 B
      → BTreeMap (KeepPhase2to3 B)
      → List (TransmitPhase2to3 B)
      → Result Failure (X.Text × Broadcast3to4 B)
  sign_phase3 party sign_data unique_kept kept received =
      phase3_totals party sign_data unique_kept kept received >>= λ totals.
      let x_coord = X.encode (B.x totals.total_instance_point) in
      let msg_scalar = reduce_hash_bytes sign_data.message_hash in
      reduce_hex_bytes x_coord >>= λ rx_scalar. ok (
        x_coord,
        record {
          u = u_share unique_kept totals;
          w = msg_scalar ⊗ unique_kept.inversion_mask ⊕ v_share unique_kept totals ⊗ rx_scalar;
        },
      )

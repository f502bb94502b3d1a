-- ===== src/Protocols/Signing/PhaseTwo.antt =====
-- `sign_phase2` of dkls23-core/src/protocols/signing.rs. Random draws are arguments.
use kawasekit_dkls.Prelude.{
  ℕ, List, [], ◌∷◌, ◌++◌, not, ◌==◌, length, BTreeMap, get, insert, Result, ok, ok_or, ◌>>=◌, ◌>>◌,
  fail_if, at,
}
use kawasekit_dkls.Backend.{Backend, ◌⊕◌, ◌⊖◌, ◌⊗◌, ◌•◌}
use kawasekit_dkls.Utilities.Multiplication.Sender.{mul_sender_run}
use kawasekit_dkls.Protocols.{
  Failure, aborts, PartyIndex, Abort, recoverable, lagrange_coefficient_failed, wrong_message_count,
  missing_mul_state,
}
use kawasekit_dkls.Protocols.Signing.{
  Party, SignData, TransmitPhase1to2, TransmitPhase2to3, KeepPhase1to2, KeepPhase2to3,
  UniqueKeep1to2, UniqueKeep2to3, mul_session_id, root_agreement_digest,
}
use kawasekit_dkls.Protocols.Signing.Guards.{
  check_routing, check_versions, check_roots, abort_of_mul, failure_of_mul,
}
use kawasekit_dkls.Protocols.Signing.PhaseOne.{map_err}

module _ ⦃B : Backend⦄ where
  -- The loop over the counterparties: numerator and denominator.
  unfoldable pub signer_parts :
      PartyIndex → B.Scalar → B.Scalar → List PartyIndex → B.Scalar × B.Scalar
  signer_parts own l_numerator l_denominator [] = (l_numerator, l_denominator)
  signer_parts own l_numerator l_denominator (c ∷ cs) =
      signer_parts own (l_numerator ⊗ B.from_u64 c)
        (l_denominator ⊗ (B.from_u64 c ⊖ B.from_u64 own)) cs

  unfoldable pub signer_coefficient : Party B → List PartyIndex → Result Abort B.Scalar
  signer_coefficient party counterparties =
      let (l_numerator, l_denominator) =
        signer_parts party.party_index B.one B.one counterparties in
      ok_or (recoverable party.party_index lagrange_coefficient_failed) (B.invert l_denominator)
      >>= λ l_denominator_inverse. ok (l_numerator ⊗ l_denominator_inverse)

  -- What is kept for the sender of a message and what is sent to it.
  unfoldable pub phase2_messages :
      (ℕ → B.Scalar)
      → (ℕ → B.Scalar)
      → Party B
      → SignData
      → UniqueKeep1to2 B
      → BTreeMap (KeepPhase1to2 B)
      → B.Scalar
      → TransmitPhase1to2
      → Result Failure (KeepPhase2to3 B × TransmitPhase2to3 B)
  phase2_messages pads check_values party sign_data unique_kept kept key_share message =
      let counterparty = message.parties.sender in
      let mul_sid = mul_session_id counterparty party.party_index party sign_data in
      let input = unique_kept.instance_key ∷ key_share ∷ [] in
      ok_or (aborts (recoverable party.party_index (missing_mul_state counterparty)))
        (get counterparty kept)
      >>= λ current_kept.
          ok_or (aborts (recoverable party.party_index (missing_mul_state counterparty)))
            (get counterparty party.mul_senders)
          >>= λ mul_sender.
              map_err (failure_of_mul (abort_of_mul party.party_index counterparty))
                (mul_sender_run pads check_values mul_sender mul_sid input message.mul_transmit)
              >>= λ values.
                  let c_u = at B.zero values.0 0 in
                  let c_v = at B.zero values.0 1 in
                  ok (
                    record {
                      c_u = c_u;
                      c_v = c_v;
                      commitment = message.commitment;
                      mul_keep = current_kept.mul_keep;
                      chi = current_kept.chi;
                    },
                    record {
                      parties = record { sender = party.party_index; receiver = counterparty };
                      gamma_u = B.generator • c_u;
                      gamma_v = B.generator • c_v;
                      psi = unique_kept.inversion_mask ⊖ current_kept.chi;
                      public_share = B.generator • key_share;
                      instance_point = unique_kept.instance_point;
                      salt = current_kept.salt;
                      mul_transmit = values.1;
                    },
                  )

  -- The pads and check values are drawn for each counterparty.
  unfoldable pub phase2_loop :
      (PartyIndex → ℕ → B.Scalar)
      → (PartyIndex → ℕ → B.Scalar)
      → Party B
      → SignData
      → UniqueKeep1to2 B
      → BTreeMap (KeepPhase1to2 B)
      → B.Scalar
      → List TransmitPhase1to2
      → BTreeMap (KeepPhase2to3 B)
      → List (TransmitPhase2to3 B)
      → Result Failure (BTreeMap (KeepPhase2to3 B) × List (TransmitPhase2to3 B))
  phase2_loop pads checks party sign_data unique_kept kept key_share [] keep transmit =
      ok (keep, transmit)
  phase2_loop pads checks party sign_data unique_kept kept key_share (m ∷ ms) keep transmit =
      let from = m.parties.sender in
      phase2_messages (pads from) (checks from) party sign_data unique_kept kept key_share m
      >>= λ made.
          phase2_loop pads checks party sign_data unique_kept kept key_share ms
            (insert from made.0 keep) (transmit ++ made.1 ∷ [])

  -- All checks on the received messages, before the first multiplication.
  unfoldable pub phase2_checks :
      Party B → SignData → List TransmitPhase1to2 → Result Abort (Unit {0})
  phase2_checks party sign_data received =
      let own = party.party_index in
      let expected = length sign_data.counterparties in
      fail_if (not (length received == expected))
        (recoverable own (wrong_message_count expected (length received)))
      >> check_routing own sign_data.counterparties [] received
      >> check_versions own received
      >> check_roots own
          (root_agreement_digest party.session_id sign_data.sign_id
            party.derivation_data.chain_code)
          received

  unfoldable pub sign_phase2 :
      (PartyIndex → ℕ → B.Scalar)
      → (PartyIndex → ℕ → B.Scalar)
      → Party B
      → SignData
      → UniqueKeep1to2 B
      → BTreeMap (KeepPhase1to2 B)
      → List TransmitPhase1to2
      → Result Failure (UniqueKeep2to3 B × BTreeMap (KeepPhase2to3 B) × List (TransmitPhase2to3 B))
  sign_phase2 pads checks party sign_data unique_kept kept received =
      map_err aborts (signer_coefficient party sign_data.counterparties) >>= λ l.
      let key_share = party.poly_point ⊗ l ⊕ unique_kept.zeta in
      map_err aborts (phase2_checks party sign_data received)
      >> phase2_loop pads checks party sign_data unique_kept kept key_share received [] []
      >>= λ made. ok (
        record {
          instance_key = unique_kept.instance_key;
          instance_point = unique_kept.instance_point;
          inversion_mask = unique_kept.inversion_mask;
          key_share = key_share;
          public_share = B.generator • key_share;
        },
        made.0,
        made.1,
      )

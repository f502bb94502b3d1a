-- ===== src/Protocols/Signing/PhaseOne.antt =====
-- `sign_phase1` of dkls23-core/src/protocols/signing.rs. Random draws are arguments.
use kawasekit_dkls.Prelude.{
  ℕ, ◌+◌, ◌%◌, List, [], ◌∷◌, ◌++◌, Bool, not, ◌||◌, ◌==◌, ltb, Bytes, length, BTreeMap, get,
  insert, Result, ok, err, ok_or, ◌>>=◌, ◌>>◌, fail_if,
}
use kawasekit_dkls.Backend.{Backend, ◌•◌}
use kawasekit_dkls.Utilities.{id_len, protocol_version}
use kawasekit_dkls.Utilities.Commits.{commit_point}
use kawasekit_dkls.Utilities.ZeroShares.{compute}
use kawasekit_dkls.Utilities.Multiplication.Receiver.{mul_receiver_run_phase1}
use kawasekit_dkls.Protocols.{
  Failure, aborts, PartyIndex, Abort, recoverable, malformed_session_id, wrong_counterparty_count,
  bad_party_index, missing_mul_state,
}
use kawasekit_dkls.Protocols.Signing.{
  Party, SignData, TransmitPhase1to2, KeepPhase1to2, UniqueKeep1to2, mul_session_id,
  zero_session_id, root_agreement_digest,
}
use kawasekit_dkls.Protocols.Signing.Guards.{
  check_counterparties, recoverable_of_mul, failure_of_mul,
}

-- The draws: the secrets, and for each counterparty a salt, the choice bits and the extra bits of
-- the OT extension.
pub record PhaseOneDraws (B : Backend) : Type 0 where
  pub instance_key : B.Scalar
  pub inversion_mask : B.Scalar
  pub salt_for : PartyIndex → Bytes
  pub bits_for : PartyIndex → ℕ → Bool
  pub extra_for : PartyIndex → ℕ → Bool

abbrev pub map_err {ℓ κ μ} :
    {E : Type ℓ} {F : Type κ} {A : Type μ} → (E → F) → Result E A → Result F A
map_err f (ok value) = ok value
map_err f (err e) = err (f e)

module _ ⦃B : Backend⦄ where
  -- The guards at the beginning. The difference `threshold - 1` is a `u8`.
  unfoldable pub phase1_guards : Party B → SignData → Result Abort (Unit {0})
  phase1_guards party sign_data =
      let expected = (party.parameters.threshold + 255) % 256 in
      let got = length sign_data.counterparties in
      fail_if (not (length party.session_id == id_len) || not (length sign_data.sign_id == id_len))
        (recoverable party.party_index malformed_session_id)
      >> fail_if (not (got == expected))
          (recoverable party.party_index (wrong_counterparty_count expected got))
      >> fail_if (ltb party.parameters.share_count party.party_index)
          (recoverable party.party_index (bad_party_index party.party_index))
      >> check_counterparties party [] sign_data.counterparties

  -- What is kept for one counterparty and what is sent to it.
  unfoldable pub phase1_messages :
      Party B
      → SignData
      → PhaseOneDraws B
      → PartyIndex
      → Result Failure (KeepPhase1to2 B × TransmitPhase1to2)
  phase1_messages party sign_data d counterparty =
      let instance_point = B.generator • d.instance_key in
      let (commitment, salt) = commit_point (d.salt_for counterparty) instance_point in
      let mul_sid = mul_session_id party.party_index counterparty party sign_data in
      ok_or (aborts (recoverable party.party_index (missing_mul_state counterparty)))
        (get counterparty party.mul_receivers)
      >>= λ mul_receiver.
          map_err (failure_of_mul (recoverable_of_mul party.party_index counterparty)) (
            mul_receiver_run_phase1 (d.bits_for counterparty) (d.extra_for counterparty)
              mul_receiver mul_sid)
          >>= λ values. ok (
            record { salt = salt; chi = values.0; mul_keep = values.1 },
            record {
              parties = record { sender = party.party_index; receiver = counterparty };
              commitment = commitment;
              version = protocol_version;
              root_digest =
                  root_agreement_digest party.session_id sign_data.sign_id
                    party.derivation_data.chain_code;
              mul_transmit = values.2;
            },
          )

  unfoldable pub phase1_loop :
      Party B
      → SignData
      → PhaseOneDraws B
      → List PartyIndex
      → BTreeMap (KeepPhase1to2 B)
      → List TransmitPhase1to2
      → Result Failure (BTreeMap (KeepPhase1to2 B) × List TransmitPhase1to2)
  phase1_loop party sign_data d [] keep transmit = ok (keep, transmit)
  phase1_loop party sign_data d (c ∷ cs) keep transmit =
      phase1_messages party sign_data d c >>= λ made.
      phase1_loop party sign_data d cs (insert c made.0 keep) (transmit ++ made.1 ∷ [])

  unfoldable pub sign_phase1 :
      PhaseOneDraws B
      → Party B
      → SignData
      → Result Failure (UniqueKeep1to2 B × BTreeMap (KeepPhase1to2 B) × List TransmitPhase1to2)
  sign_phase1 d party sign_data =
      map_err aborts (phase1_guards party sign_data)
      >> phase1_loop party sign_data d sign_data.counterparties [] []
      >>= λ made. ok (
        record {
          instance_key = d.instance_key;
          instance_point = B.generator • d.instance_key;
          inversion_mask = d.inversion_mask;
          zeta =
              compute party.zero_share sign_data.counterparties (zero_session_id party sign_data);
        },
        made.0,
        made.1,
      )

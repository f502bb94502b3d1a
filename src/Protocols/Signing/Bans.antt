-- ===== src/Protocols/Signing/Bans.antt =====
-- When phase 3 of signing (dkls23-core/src/protocols/signing.rs) bans a counterparty for the
-- multiplication.
use kawasekit_dkls.Prelude.{
  ◌≡◌, ◌⊎◌, inl, inr, refl, sym, ap, ◌∙◌, List, false, bytes_eq, none, some, get, Result, ok, err,
  ◌>>=◌, Option-cases,
}
use kawasekit_dkls.Backend.{Backend}
use kawasekit_dkls.Utilities.Ot.Extension.Receiver.{ote_receiver_run_phase2}
use kawasekit_dkls.Utilities.Multiplication.{
  ot_width, ote_session_id, MulReceiver, ErrorMul, MulFailure, mul_fails, mul_panics,
  mul_consistency_failure, mul_malformed_message,
}
use kawasekit_dkls.Utilities.Multiplication.Receiver.{mul_receiver_run_phase2}
use kawasekit_dkls.Utilities.Multiplication.Bans.{expected, mul_receiver_run_phase2-eq-err}
use kawasekit_dkls.Protocols.{
  PartyIndex, Abort, AbortReason, Failure, aborts, recoverable, ban, recoverable_abort,
  ban_counterparty,
}
use kawasekit_dkls.Protocols.Signing.{
  Party, SignData, KeepPhase2to3, TransmitPhase2to3, mul_session_id,
}
use kawasekit_dkls.Protocols.Signing.Guards.{abort_of_mul, failure_of_mul}
use kawasekit_dkls.Protocols.Signing.PhaseOne.{map_err}
use kawasekit_dkls.Protocols.Signing.PhaseThree.{phase3_multiply}

-- The error behind an abort.
error_of :
    {R C : Type 0} (own counterparty : PartyIndex) (run : Result MulFailure R) (k : R → C)
    (a : Abort)
    → (r : Result MulFailure R) → run ≡ r
    → (map_err (failure_of_mul (abort_of_mul own counterparty)) r >>= λ d. ok (k d))
      ≡ err (aborts a)
    → (e : ErrorMul) × (run ≡ err (mul_fails e)) × (abort_of_mul own counterparty e ≡ a)
unfolding failure_of_mul
error_of own counterparty run k a (ok d) hr h = cc
error_of own counterparty run k a (err (mul_fails e)) hr h = (e, hr, cc)
error_of own counterparty run k a (err mul_panics) hr h = cc

abort-malformed :
    (own counterparty : PartyIndex) (e : ErrorMul)
    → e.kind ≡ mul_malformed_message
    → (abort_of_mul own counterparty e).kind ≡ recoverable_abort
unfolding abort_of_mul recoverable
abort-malformed own counterparty e h = rw h refl

abort-consistency :
    (own counterparty : PartyIndex) (e : ErrorMul)
    → e.kind ≡ mul_consistency_failure
    → (abort_of_mul own counterparty e).kind ≡ ban_counterparty counterparty
unfolding abort_of_mul ban
abort-consistency own counterparty e h = rw h refl

missing :
    {A : Type 0} (own : PartyIndex) (reason : AbortReason) (a : Abort)
    → ◌≡◌ {A = Result Failure A} (err (aborts (recoverable own reason))) (err (aborts a))
    → a.kind ≡ recoverable_abort
unfolding recoverable
missing own reason a h = let same : recoverable own reason ≡ a = cc in sym (ap (λ t. t.kind) same)

module _ ⦃B : Backend⦄ where
  -- The end of the multiplication with the sender of a message, as phase 3 runs it.
  abbrev pub finish_multiplication :
      Party B
      → SignData
      → KeepPhase2to3 B
      → TransmitPhase2to3 B
      → MulReceiver B
      → Result MulFailure (List B.Scalar)
  finish_multiplication party sign_data kept message receiver =
      mul_receiver_run_phase2 receiver
        (mul_session_id party.party_index message.parties.sender party sign_data) kept.mul_keep
        message.mul_transmit

  -- The hash in a message is not the one of the matrix that the party computes from its output of
  -- the OT extension, which has succeeded.
  abbrev pub HashDiffers : Party B → SignData → KeepPhase2to3 B → TransmitPhase2to3 B → Type 0
  HashDiffers party sign_data kept message =
      let sid = mul_session_id party.party_index message.parties.sender party sign_data in
      (t_b : List (List B.Scalar)) × (ote_receiver_run_phase2 (ote_session_id sid) ot_width
          kept.mul_keep.choice_bits kept.mul_keep.extended_seeds message.mul_transmit.vector_of_tau
        ≡ ok t_b)
      × (bytes_eq message.mul_transmit.verify_r
            (expected kept.mul_keep message.mul_transmit sid t_b)
          ≡ false)

  -- If the multiplication in phase 3 aborts, then one of three things holds. The party has no
  -- state of a multiplication with the sender of the message, and the abort is recoverable. Or the multiplication has failed with
  -- a malformed message, and the abort is recoverable, so nobody is banned. Or it has failed with a
  -- consistency failure, the abort bans the sender, and the sender's hash differs from the one that
  -- the party computes from its output of the OT extension.
  pub phase3_multiply-eq-err :
      (party : Party B) (sign_data : SignData) (kept : KeepPhase2to3 B)
      (message : TransmitPhase2to3 B) (a : Abort)
      → phase3_multiply party sign_data kept message ≡ err (aborts a)
      → ((get message.parties.sender party.mul_receivers ≡ none) × (a.kind ≡ recoverable_abort))
        ⊎ ((receiver : MulReceiver B) × (get message.parties.sender party.mul_receivers
              ≡ some receiver)
            × (e : ErrorMul) × (finish_multiplication party sign_data kept message receiver
                ≡ err (mul_fails e))
            × (((e.kind ≡ mul_malformed_message) × (a.kind ≡ recoverable_abort))
                ⊎ ((e.kind ≡ mul_consistency_failure)
                    × (a.kind ≡ ban_counterparty message.parties.sender)
                    × HashDiffers party sign_data kept message)))
  unfolding phase3_multiply
  phase3_multiply-eq-err party sign_data kept message a h =
      let own = party.party_index in
      let from = message.parties.sender in
      elim (Option-cases (get from party.mul_receivers)) [
        | inl e ↦ inl (e, missing {A = B.Scalar × B.Scalar} own _ a (rw e at h))
        | inr (receiver, e) ↦
            let run = finish_multiplication party sign_data kept message receiver in
            let (error, failed, made) = error_of own from run _ a run refl (rw e at h) in
            inr (
              receiver,
              e,
              error,
              failed,
              elim (mul_receiver_run_phase2-eq-err receiver _ kept.mul_keep message.mul_transmit
                  error failed) [
                    | inl m ↦
                        inl (m, sym (ap (λ t. t.kind) made) ∙ abort-malformed own from error m)
                    | inr (c, t_b, ran, differs) ↦ inr (
                      c,
                      sym (ap (λ t. t.kind) made) ∙ abort-consistency own from error c,
                      (t_b, ran, differs),
                    )
                  ],
            )
      ]

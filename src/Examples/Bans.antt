-- ===== src/Examples/Bans.antt =====
-- The theorem on bans, for an answer without check values.
use kawasekit_dkls.Prelude.{◌≡◌, ◌⊎◌, refl, [], ◌∷◌, none, some, err, get}
use kawasekit_dkls.Backend.Toy.{n0, n1, n2}
use kawasekit_dkls.Backend.Wide.{wide}
use kawasekit_dkls.Examples.Multiplication.{mul_receiver, empty_answer, empty_kept}
use kawasekit_dkls.Examples.Signing.{party, sign_data}
use kawasekit_dkls.Utilities.Multiplication.{
  l, MulReceiver, ErrorMul, mul_fails, mul_malformed, mul_consistency_failure,
  mul_malformed_message,
}
use kawasekit_dkls.Utilities.Multiplication.Receiver.{mul_receiver_run_phase2}
use kawasekit_dkls.Protocols.{
  Abort, aborts, recoverable, recoverable_abort, ban_counterparty,
  multiplication_verification_failed,
}
use kawasekit_dkls.Protocols.Signing.{Party, KeepPhase2to3, TransmitPhase2to3}
use kawasekit_dkls.Protocols.Signing.Guards.{abort_of_mul, failure_of_mul}
use kawasekit_dkls.Protocols.Signing.PhaseThree.{phase3_multiply}
use kawasekit_dkls.Protocols.Signing.Bans.{
  finish_multiplication, HashDiffers, phase3_multiply-eq-err,
}

abbrev with_receiver : Party wide
with_receiver = record party { mul_receivers = (2, mul_receiver) ∷ [] }

abbrev kept : KeepPhase2to3 wide
kept = record { c_u = n0; c_v = n0; commitment = []; mul_keep = empty_kept; chi = n0 }

abbrev message : TransmitPhase2to3 wide
message = record {
  parties = record { sender = 2; receiver = 1 };
  gamma_u = n1;
  gamma_v = n1;
  psi = n2;
  public_share = n1;
  instance_point = n2;
  salt = [];
  mul_transmit = empty_answer;
}

abbrev refusal : Abort
refusal = record {
  index = 1;
  kind = recoverable_abort;
  reason = multiplication_verification_failed 2 "Received data has incorrect dimensions";
}

refuses : phase3_multiply with_receiver sign_data kept message ≡ err (aborts refusal)
unfolding phase3_multiply failure_of_mul abort_of_mul recoverable mul_receiver_run_phase2 l
    mul_malformed get
refuses = refl

phase3_multiply-eq-err_example :
    ((get 2 with_receiver.mul_receivers ≡ none) × (recoverable_abort ≡ recoverable_abort))
    ⊎ ((receiver : MulReceiver wide) × (get 2 with_receiver.mul_receivers ≡ some receiver)
        × (e : ErrorMul) × (finish_multiplication with_receiver sign_data kept message receiver
            ≡ err (mul_fails e))
        × (((e.kind ≡ mul_malformed_message) × (recoverable_abort ≡ recoverable_abort))
            ⊎ ((e.kind ≡ mul_consistency_failure)
                × (recoverable_abort ≡ ban_counterparty 2)
                × HashDiffers with_receiver sign_data kept message)))
phase3_multiply-eq-err_example =
    phase3_multiply-eq-err with_receiver sign_data kept message refusal refuses

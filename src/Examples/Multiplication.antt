-- ===== src/Examples/Multiplication.antt =====
-- The theorems on the OT extension and on multiplication at concrete inputs.
use kawasekit_dkls.Prelude.{
  length, ◌≤◌, arith, ℕ, ◌%◌, ◌<◌, ◌≡◌, ◌⊎◌, refl, List, [], ◌∷◌, Bool, false, Bytes, ok, bytes_eq,
  ◌==◌, if◌then◌else◌, table, at, at-table, length-table,
}
use kawasekit_dkls.Backend.Toy.{Seven, n0, n1, n2, n3, n4, n5}
use kawasekit_dkls.Backend.Wide.{wide, wide_field, wide_hash}
use kawasekit_dkls.Backend.{◌⊕◌, ◌⊗◌}
use kawasekit_dkls.Utilities.Ot.Extension.{
  kappa, batch_size, OteSender, OteReceiver, OteDataToSender,
}
use kawasekit_dkls.Utilities.Ot.Extension.Transpose.{
  entry, cut_and_transpose, cut_and_transpose-entry,
}
use kawasekit_dkls.Utilities.Ot.Extension.Sender.{ote_sender_run}
use kawasekit_dkls.Utilities.Ot.Extension.Receiver.{
  ote_receiver_run_phase1, ote_receiver_run_phase2,
}
use kawasekit_dkls.Utilities.Ot.Extension.Agree.{Matching, all_have_length-table}
use kawasekit_dkls.Utilities.Ot.Extension.Transfer.{ote_agree}
use kawasekit_dkls.Utilities.Multiplication.{
  l, MulSender, MulReceiver, MulDataToReceiver, MulDataToKeepReceiver, ErrorMul,
  mul_consistency_failure, mul_malformed_message, mul_malformed, gadget_of, ote_session_id,
  ot_width,
}
use kawasekit_dkls.Utilities.Multiplication.Rows.{length-gadget_of}
use kawasekit_dkls.Utilities.Multiplication.Sender.{mul_sender_run}
use kawasekit_dkls.Utilities.Multiplication.Receiver.{
  mul_receiver_run_phase1, mul_receiver_run_phase2,
}
use kawasekit_dkls.Utilities.Multiplication.Product.{multiplication}
use kawasekit_dkls.Utilities.Multiplication.Bans.{expected, mul_receiver_run_phase2-eq-err}

abbrev sid : Bytes
sid = 4 ∷ 2 ∷ []

abbrev thirds : ℕ → Bool
thirds i = i % 3 == 0

abbrev evens : ℕ → Bool
evens i = i % 2 == 0

abbrev seed0 : ℕ → Bytes
seed0 i = i % 256 ∷ 0 ∷ []

abbrev seed1 : ℕ → Bytes
seed1 i = i % 256 ∷ 1 ∷ []

abbrev sender : OteSender
sender = record {
  correlation = table kappa thirds;
  seeds = table kappa (λ i. if thirds i then seed1 i else seed0 i);
}

abbrev receiver : OteReceiver
receiver = record { seeds0 = table kappa seed0; seeds1 = table kappa seed1 }

choose_if :
    (i : ℕ)
    → i < kappa
    → at [] sender.seeds i
      ≡ (if at false sender.correlation i then at [] receiver.seeds1 i else at [] receiver.seeds0 i)
choose_if i h =
    rw
      (
        at-table [] kappa (λ i. if thirds i then seed1 i else seed0 i) i h,
        at-table false kappa thirds i h,
        at-table [] kappa seed0 i h,
        at-table [] kappa seed1 i h,
      )
      refl

matching : Matching sender receiver
matching = record {
  correlation_length = length-table kappa _;
  seeds_length = length-table kappa _;
  seeds0_length = length-table kappa _;
  seeds1_length = length-table kappa _;
  known = choose_if;
}

abbrev choices : List Bool
choices = table batch_size evens

abbrev correlations : List (List Seven)
correlations = table 1 (λ _. table batch_size (λ _. n3))

ote_agree_example :
    (extended : List Bytes) × (sent : OteDataToSender) × (v0 : List (List Seven)) × (tau : List
      (List Seven))
    × (t_b : List (List Seven)) × (ote_receiver_run_phase1 thirds receiver sid choices
        ≡ ok (extended, sent))
    × (ote_sender_run sender sid 1 correlations sent ≡ ok (v0, tau))
    × (ote_receiver_run_phase2 sid 1 choices extended tau ≡ ok t_b)
    × ((iteration j : ℕ)
        → iteration < 1
        → j < batch_size
        → at n0 (at [] v0 iteration) j ⊕ at n0 (at [] t_b iteration) j
          ≡ (if at false choices j then at n0 (at [] correlations iteration) j else n0))
ote_agree_example =
    ote_agree sender receiver sid choices thirds 1 correlations matching
      (length-table batch_size evens) (length-table 1 _) (all_have_length-table batch_size 1 _)

abbrev mul_sender : MulSender wide
mul_sender = record { public_gadget = gadget_of sid n4; ote_sender = sender }

abbrev pub mul_receiver : MulReceiver wide
mul_receiver = record { public_gadget = gadget_of sid n4; ote_receiver = receiver }

abbrev inputs : List Seven
inputs = n2 ∷ n5 ∷ []

long_enough : batch_size ≤ length mul_receiver.public_gadget
long_enough =
    let e : length (gadget_of sid n4) ≡ batch_size = length-gadget_of sid n4 in omega arith

two_inputs : l ≤ length inputs
unfolding l
two_inputs = omega arith

multiplication_example :
    (b : Seven) × (kept : MulDataToKeepReceiver wide) × (sent : OteDataToSender) × (c : List Seven)
    × (answer : MulDataToReceiver wide) × (d : List Seven) × (mul_receiver_run_phase1 evens thirds
          mul_receiver sid
        ≡ ok (b, kept, sent))
    × (mul_sender_run (λ _. n3) (λ _. n1) mul_sender sid inputs sent ≡ ok (c, answer))
    × (mul_receiver_run_phase2 mul_receiver sid kept answer ≡ ok d)
    × ((i : ℕ) → i < l → at n0 c i ⊕ at n0 d i ≡ at n0 inputs i ⊗ b)
multiplication_example =
    multiplication mul_sender mul_receiver sid inputs (λ _. n3) (λ _. n1) evens thirds matching refl
      long_enough two_inputs

abbrev ones : List Bytes
ones = table kappa (λ i. 255 ∷ i % 256 ∷ [])

cut_and_transpose-entry_example :
    (output : List Bytes) × (cut_and_transpose ones ≡ ok output)
    × ((r c : ℕ) → r < kappa → c < batch_size → entry output c r ≡ entry ones r c)
cut_and_transpose-entry_example = cut_and_transpose-entry ones (length-table kappa _)

-- An answer without check values.
abbrev pub empty_answer : MulDataToReceiver wide
empty_answer = record { vector_of_tau = []; verify_r = []; verify_u = []; gamma_sender = [] }

abbrev pub empty_kept : MulDataToKeepReceiver wide
empty_kept = record { b = n0; choice_bits = []; extended_seeds = []; chi_tilde = []; chi_hat = [] }

abbrev pub refused : ErrorMul
refused = mul_malformed "Received data has incorrect dimensions"

mul_receiver_run_phase2-eq-err_example :
    (refused.kind ≡ mul_malformed_message)
    ⊎ ((refused.kind ≡ mul_consistency_failure)
        × (t_b : List (List Seven)) × (ote_receiver_run_phase2
              (ote_session_id sid)
              ot_width
              []
              []
              []
            ≡ ok t_b)
        × (bytes_eq [] (expected empty_kept empty_answer sid t_b) ≡ false))
unfolding mul_receiver_run_phase2 l
mul_receiver_run_phase2-eq-err_example =
    mul_receiver_run_phase2-eq-err mul_receiver sid empty_kept empty_answer refused refl

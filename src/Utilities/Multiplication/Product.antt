-- ===== src/Utilities/Multiplication/Product.antt =====
-- Two-party multiplication between honest parties.
use kawasekit_dkls.Prelude.{
  ℕ, ◌<◌, ◌≤◌, length, false, arith, ◌≡◌, refl, sym, ap, ap₂, ◌∙◌, List, Bool, true, Bytes,
  bytes_eq, ==_refl, ok, table, at, at-table, length-table, take, drop, bytes_eq_refl,
}
use kawasekit_dkls.Backend.{Backend, FieldLaws, HashLaws, ◌⊕◌, ◌⊖◌, ◌⊗◌}
use kawasekit_dkls.Utilities.Ot.Extension.{batch_size, OteDataToSender}
use kawasekit_dkls.Utilities.Ot.Extension.Agree.{Matching}
use kawasekit_dkls.Utilities.Ot.Extension.Transfer.{ote_agree}
use kawasekit_dkls.Utilities.Multiplication.{
  too_short, l, ot_width, MulSender, MulReceiver, MulDataToReceiver, MulDataToKeepReceiver,
  map_from_ot, ote_session_id, transcript_of, chi_tilde_of, chi_hat_of, verify_r_of, gadget_sum,
}
use kawasekit_dkls.Utilities.Multiplication.Sender.{correlations_of, sender_entry, mul_sender_run}
use kawasekit_dkls.Utilities.Multiplication.Receiver.{
  pad_loop, receiver_entry, mul_receiver_run_phase1, mul_receiver_run_phase2,
}
use kawasekit_dkls.Utilities.Multiplication.Sums.{outputs_add}
use kawasekit_dkls.Utilities.Multiplication.Rows.{
  length-correlations_of, inner_lengths, verify_r_of_congr,
}
use kawasekit_dkls.Utilities.Multiplication.Agree.{Shared, entries, gadget_sums}

not_too_short {ℓ} : {A : Type ℓ} (v : List A) (n : ℕ) → n ≤ length v → too_short v n ≡ false
not_too_short v n h = ground arith

chi_fits :
    ⦃B : Backend⦄ (sid transcript : Bytes)
    → (l ≤ length (chi_tilde_of sid transcript)) × (l ≤ length (chi_hat_of sid transcript))
unfolding chi_tilde_of chi_hat_of
chi_fits sid transcript =
    let tilde : length (chi_tilde_of sid transcript) ≡ l = length-table l _ in
    let hat : length (chi_hat_of sid transcript) ≡ l = length-table l _ in
    (omega arith, omega arith)

module _ ⦃B : Backend⦄ ⦃F : FieldLaws B⦄ ⦃H : HashLaws B⦄ where
  -- Let the OT extension states of the two parties match, let their public gadget vectors be equal
  -- and have at least BATCH_SIZE entries, and let there be at least L inputs. Then, for all draws, the receiver's phase 1, the sender's run on the data of phase 1 and the
  -- receiver's phase 2 on the sender's answer all succeed, the consistency checks included, and the
  -- two outputs for each of the L inputs add up to the input times the factor b that the receiver
  -- gets in phase 1. A condition is that digests have 32 bytes.
  pub multiplication :
      (sender : MulSender B) (receiver : MulReceiver B) (sid : Bytes) (input : List B.Scalar)
      (pads check_values : ℕ → B.Scalar) (bits extra : ℕ → Bool)
      → Matching sender.ote_sender receiver.ote_receiver
      → sender.public_gadget ≡ receiver.public_gadget
      → batch_size ≤ length receiver.public_gadget
      → l ≤ length input
      → (b : B.Scalar) × (kept : MulDataToKeepReceiver B) × (sent : OteDataToSender) × (c : List
          B.Scalar)
        × (answer : MulDataToReceiver B) × (d : List B.Scalar) × (mul_receiver_run_phase1 bits extra
              receiver sid
            ≡ ok (b, kept, sent))
        × (mul_sender_run pads check_values sender sid input sent ≡ ok (c, answer))
        × (mul_receiver_run_phase2 receiver sid kept answer ≡ ok d)
        × ((i : ℕ) → i < l → at B.zero c i ⊕ at B.zero d i ≡ at B.zero input i ⊗ b)
  unfolding mul_receiver_run_phase1 mul_sender_run mul_receiver_run_phase2 map_from_ot
  multiplication sender receiver sid input pads check_values bits extra m same long enough =
      let gadget_fits : too_short receiver.public_gadget batch_size ≡ false =
        not_too_short receiver.public_gadget batch_size long in
      let sender_fits : too_short sender.public_gadget batch_size ≡ false =
        ap (λ g. too_short g batch_size) same ∙ gadget_fits in
      let a = table l pads in
      let h = table l check_values in
      let choice_bits = table batch_size bits in
      let corrs = correlations_of a h in
      let (extended, sent, v0, tau, t_b, run1, run2, run3, relation) =
        ote_agree sender.ote_sender receiver.ote_receiver (ote_session_id sid) choice_bits extra
          ot_width corrs m (length-table batch_size bits) (length-correlations_of a h)
          (inner_lengths a h) in
      let shared : Shared choice_bits a h v0 t_b = record { relation = relation } in
      let b = pad_loop B.zero 0 batch_size receiver.public_gadget bits in
      let kept : MulDataToKeepReceiver B = record {
        b = b;
        choice_bits = choice_bits;
        extended_seeds = extended;
        chi_tilde = chi_tilde_of sid (transcript_of sent);
        chi_hat = chi_hat_of sid (transcript_of sent);
      } in
      let gamma = table l (λ i. at B.zero input i ⊖ at B.zero a i) in
      let answer : MulDataToReceiver B = record {
        vector_of_tau = tau;
        verify_r =
            verify_r_of sid (sender_entry kept.chi_tilde kept.chi_hat (take l v0) (drop l v0));
        verify_u = table l (λ i.
            at B.zero kept.chi_tilde i ⊗ at B.zero a i ⊕ at B.zero kept.chi_hat i ⊗ at B.zero h i);
        gamma_sender = gamma;
      } in
      let accepted : bytes_eq answer.verify_r
            (verify_r_of sid (receiver_entry kept answer.verify_u (take l t_b) (drop l t_b)))
          ≡ true =
        ap (bytes_eq answer.verify_r)
          (sym (verify_r_of_congr sid _ _ (λ i j hi hj. entries kept a h v0 t_b i j shared hi hj)))
        ∙ bytes_eq_refl answer.verify_r in
      (
        b,
        kept,
        sent,
        table l (gadget_sum sender.public_gadget (take l v0)),
        answer,
        table l (λ i. b ⊗ at B.zero gamma i ⊕ gadget_sum receiver.public_gadget (take l t_b) i),
        rw (gadget_fits, run1) refl,
        rw (run2, not_too_short input l enough, sender_fits) refl,
        rw
            (
              length-table l (λ i.
                  at B.zero kept.chi_tilde i ⊗ at B.zero a i
                  ⊕ at B.zero kept.chi_hat i ⊗ at B.zero h i),
              length-table l (λ i. at B.zero input i ⊖ at B.zero a i),
              ==_refl l,
              run3,
              not_too_short kept.chi_tilde l (chi_fits sid (transcript_of sent)).0,
              not_too_short kept.chi_hat l (chi_fits sid (transcript_of sent)).1,
              accepted,
              gadget_fits,
            )
            refl,
        λ i hi.
            ap₂ ◌⊕◌ (at-table B.zero l _ i hi) (
              at-table B.zero l _ i hi
              ∙ ap (λ t. b ⊗ t ⊕ gadget_sum receiver.public_gadget (take l t_b) i)
                  (at-table B.zero l _ i hi))
            ∙ ap
                (λ g.
                  gadget_sum g (take l v0) i
                  ⊕ (b ⊗ (at B.zero input i ⊖ at B.zero a i)
                      ⊕ gadget_sum receiver.public_gadget (take l t_b) i))
                same
            ∙ outputs_add b (at B.zero a i) (at B.zero input i) _ _
                (gadget_sums receiver.public_gadget bits a h v0 t_b i shared hi),
      )

-- ===== src/Utilities/Ot/Extension/Transfer.antt =====
-- The whole OT extension between honest parties.
use kawasekit_dkls.Prelude.{
  ℕ, ◌<◌, ◌≡◌, refl, sym, ap, ◌∙◌, inl, inr, List, [], Bool, true, false, Bool-cases, Bytes, length,
  length-map, if◌then◌else◌, ==_refl, ok, table, at, at-table, at-at-table, at-append_left,
  length-table,
}
use kawasekit_dkls.Backend.{Backend, FieldLaws, HashLaws, ◌⊕◌, ◌⊖◌}
use kawasekit_dkls.Backend.Ring.{add_assoc, add_comm, add-neg, add-neg_cancel, neg-add_cancel}
use kawasekit_dkls.Utilities.Ot.Extension.{
  kappa, batch_size, OteSender, OteReceiver, OteDataToSender, randomize,
}
use kawasekit_dkls.Utilities.Ot.Extension.Transpose.{cut_and_transpose}
use kawasekit_dkls.Utilities.Ot.Extension.Sender.{
  all_have_length, q_matrix, plus_correlation, v0_of, v1_of, tau_of, check_dimensions,
  ote_sender_run,
}
use kawasekit_dkls.Utilities.Ot.Extension.Receiver.{
  u_matrix, ote_receiver_run_phase1, v_of, t_b_of, ote_receiver_run_phase2,
}
use kawasekit_dkls.Utilities.Ot.Extension.Correlation.{row_of, row_clear, row_set}
use kawasekit_dkls.Utilities.Ot.Extension.Agree.{
  Matching, bits, t0, t1, sent, q, known_rows, phase1, checked, chosen, all_have_length-table,
}

transposed : List Bytes → List Bytes
transposed input = table batch_size (row_of input)

cut_and_transpose-eq-ok :
    (input : List Bytes) → length input ≡ kappa → cut_and_transpose input ≡ ok (transposed input)
unfolding cut_and_transpose transposed
cut_and_transpose-eq-ok input h = rw (h, ==_refl kappa) refl

module _ ⦃B : Backend⦄ ⦃L : FieldLaws B⦄ where
  -- What the two parties hold for one choice bit.
  shares :
      (b : Bool) (v0 v1 v c : B.Scalar)
      → v ≡ (if b then v1 else v0)
      → v0 ⊕ (if b then v1 ⊖ v0 ⊕ c ⊕ B.neg v else B.neg v) ≡ (if b then c else B.zero)
  shares true v0 v1 v c e =
      ap (λ t. v0 ⊕ (v1 ⊖ v0 ⊕ c ⊕ B.neg t)) e
      ∙ ap (λ t. v0 ⊕ t)
          (ap (λ t. t ⊕ B.neg v1) (add_assoc v1 (B.neg v0) c)
            ∙ add_comm _ (B.neg v1)
            ∙ neg-add_cancel v1 (B.neg v0 ⊕ c))
      ∙ add-neg_cancel v0 c
  shares false v0 v1 v c e = ap (λ t. v0 ⊕ B.neg t) e ∙ add-neg v0

module _ ⦃B : Backend⦄ ⦃L : FieldLaws B⦄ ⦃H : HashLaws B⦄ (receiver : OteReceiver) (sid : Bytes)
    (choice_bits : List Bool) (draw : ℕ → Bool) (choices : length choice_bits ≡ batch_size)
    (sender : OteSender) (m : Matching sender receiver) (ot_width : ℕ)
    (corrs : List (List B.Scalar)) (corrs_length : length corrs ≡ ot_width)
    (corrs_inner : all_have_length batch_size corrs ≡ true) where
  abbrev q_rows : List Bytes
  q_rows = transposed (q receiver sid choice_bits draw sender m)

  abbrev t_rows : List Bytes
  t_rows = transposed (t0 receiver sid choice_bits draw)

  abbrev v0 : List (List B.Scalar)
  v0 = v0_of sid ot_width q_rows

  abbrev v1 : List (List B.Scalar)
  v1 = v1_of sid ot_width sender.correlation q_rows

  abbrev tau : List (List B.Scalar)
  tau = tau_of ot_width v0 v1 corrs

  abbrev v : List (List B.Scalar)
  v = v_of sid ot_width t_rows

  dimensions : check_dimensions sender ot_width corrs (sent receiver sid choice_bits draw) ≡ ok tt
  unfolding check_dimensions u_matrix
  dimensions =
      rw
        (
          corrs_length,
          corrs_inner,
          m.correlation_length,
          m.seeds_length,
          length-table kappa _,
          length-map _ (t0 receiver sid choice_bits draw),
          length-table kappa _,
          ==_refl ot_width,
          ==_refl kappa,
        )
        refl

  length-q : length (q receiver sid choice_bits draw sender m) ≡ kappa
  unfolding q_matrix
  length-q = length-table kappa _

  sender_runs :
      ote_sender_run sender sid ot_width corrs (sent receiver sid choice_bits draw) ≡ ok (v0, tau)
  unfolding ote_sender_run
  sender_runs =
      rw
        (
          dimensions,
          checked receiver sid choice_bits draw sender m,
          cut_and_transpose-eq-ok (q receiver sid choice_bits draw sender m) length-q,
        )
        refl

  tau-length : length tau ≡ ot_width
  unfolding tau_of
  tau-length = length-table ot_width _

  tau_lengths : all_have_length batch_size tau ≡ true
  unfolding tau_of
  tau_lengths = all_have_length-table batch_size ot_width _

  receiver_runs :
      ote_receiver_run_phase2 sid ot_width choice_bits (t0 receiver sid choice_bits draw) tau
      ≡ ok (t_b_of ot_width choice_bits v tau)
  unfolding ote_receiver_run_phase2
  receiver_runs =
      rw
        (
          choices,
          length-table kappa _,
          tau-length,
          tau_lengths,
          ==_refl batch_size,
          ==_refl kappa,
          ==_refl ot_width,
          cut_and_transpose-eq-ok (t0 receiver sid choice_bits draw) (length-table kappa _),
        )
        refl

  v-at :
      (iteration j : ℕ)
      → iteration < ot_width
      → j < batch_size
      → at B.zero (at [] v iteration) j ≡ (
          if at false choice_bits j
          then at B.zero (at [] v1 iteration) j
          else at B.zero (at [] v0 iteration) j)
  unfolding v_of v0_of v1_of transposed
  v-at iteration j hi hj =
      let b = at false choice_bits j in
      let extended : at false (bits receiver sid choice_bits draw) j ≡ b =
        at-append_left false choice_bits _ j (rw choices hj) in
      let t_row : at [] t_rows j ≡ row_of (t0 receiver sid choice_bits draw) j =
        at-table [] batch_size _ j hj in
      let q_row : at [] q_rows j ≡ row_of (q receiver sid choice_bits draw sender m) j =
        at-table [] batch_size _ j hj in
      elim (Bool-cases b) [
        | inl e ↦ rw e (
            at-at-table B.zero ot_width batch_size _ iteration j hi hj
            ∙ ap (randomize sid iteration j) (
                t_row
                ∙ sym (
                    row_set sender.correlation (t0 receiver sid choice_bits draw)
                      (t1 receiver sid choice_bits draw)
                      (known_rows receiver sid choice_bits draw sender m)
                      (chosen receiver sid choice_bits draw sender m)
                      (bits receiver sid choice_bits draw) j hj (extended ∙ e))
                ∙ ap (plus_correlation sender.correlation) (sym q_row))
            ∙ sym (at-at-table B.zero ot_width batch_size _ iteration j hi hj))
        | inr e ↦ rw e (
            at-at-table B.zero ot_width batch_size _ iteration j hi hj
            ∙ ap (randomize sid iteration j) (
                t_row
                ∙ sym (
                    row_clear sender.correlation (t0 receiver sid choice_bits draw)
                      (t1 receiver sid choice_bits draw)
                      (known_rows receiver sid choice_bits draw sender m)
                      (chosen receiver sid choice_bits draw sender m)
                      (bits receiver sid choice_bits draw) j hj (extended ∙ e))
                ∙ sym q_row)
            ∙ sym (at-at-table B.zero ot_width batch_size _ iteration j hi hj))
      ]

  outputs_share :
      (iteration j : ℕ)
      → iteration < ot_width
      → j < batch_size
      → at B.zero (at [] v0 iteration) j
          ⊕ at B.zero (at [] (t_b_of ot_width choice_bits v tau) iteration) j
        ≡ (if at false choice_bits j then at B.zero (at [] corrs iteration) j else B.zero)
  unfolding t_b_of tau_of
  outputs_share iteration j hi hj =
      let b = at false choice_bits j in
      let cell0 = at B.zero (at [] v0 iteration) j in
      let cell1 = at B.zero (at [] v1 iteration) j in
      let c = at B.zero (at [] corrs iteration) j in
      ap (λ t. cell0 ⊕ t)
        (at-at-table B.zero ot_width batch_size _ iteration j hi hj
          ∙ ap
              (λ t.
                if b
                then t ⊕ B.neg (at B.zero (at [] v iteration) j)
                else B.neg (at B.zero (at [] v iteration) j))
              (at-at-table B.zero ot_width batch_size _ iteration j hi hj))
      ∙ shares b cell0 cell1 (at B.zero (at [] v iteration) j) c (v-at iteration j hi hj)

-- Let the sender know one seed of each pair of the receiver, as the bits of his correlation say.
-- Then, for all choice bits and input correlations of the right lengths, the receiver's phase 1,
-- the sender's run on the data of phase 1 and the receiver's phase 2 on the sender's tau all
-- succeed, the consistency check included. In every iteration, the outputs of the two parties add
-- up to the entry of the input correlation where the choice bit is set, and to zero elsewhere.
-- A condition is that digests have 32 bytes.
pub ote_agree :
    ⦃B : Backend⦄ ⦃L : FieldLaws B⦄ ⦃H : HashLaws B⦄ (sender : OteSender) (receiver : OteReceiver)
    (sid : Bytes) (choice_bits : List Bool) (draw : ℕ → Bool) (ot_width : ℕ)
    (corrs : List (List B.Scalar))
    → Matching sender receiver
    → length choice_bits ≡ batch_size
    → length corrs ≡ ot_width
    → all_have_length batch_size corrs ≡ true
    → (extended : List Bytes) × (sent : OteDataToSender) × (v0 : List (List B.Scalar)) × (tau : List
        (List B.Scalar))
      × (t_b : List (List B.Scalar)) × (ote_receiver_run_phase1 draw receiver sid choice_bits
          ≡ ok (extended, sent))
      × (ote_sender_run sender sid ot_width corrs sent ≡ ok (v0, tau))
      × (ote_receiver_run_phase2 sid ot_width choice_bits extended tau ≡ ok t_b)
      × ((iteration j : ℕ)
          → iteration < ot_width
          → j < batch_size
          → at B.zero (at [] v0 iteration) j ⊕ at B.zero (at [] t_b iteration) j
            ≡ (if at false choice_bits j then at B.zero (at [] corrs iteration) j else B.zero))
ote_agree sender receiver sid choice_bits draw ot_width corrs m hb hc hi = (
  _,
  _,
  _,
  _,
  _,
  phase1 receiver sid choice_bits draw hb m.seeds0_length m.seeds1_length,
  sender_runs receiver sid choice_bits draw hb sender m ot_width corrs hc hi,
  receiver_runs receiver sid choice_bits draw hb sender m ot_width corrs hc hi,
  outputs_share receiver sid choice_bits draw hb sender m ot_width corrs hc hi,
)

-- ===== src/Utilities/Multiplication/Agree.antt =====
-- What the two parties of a multiplication compute from shared correlations.
use kawasekit_dkls.Prelude.{
  ℕ, ◌+◌, ◌<◌, ◌≡◌, sym, ap, ap₂, ◌∙◌, List, [], Bool, false, take, drop, if◌then◌else◌, arith,
  table, at, at-table,
}
use kawasekit_dkls.Backend.{Backend, FieldLaws, ◌⊕◌, ◌⊖◌, ◌⊗◌}
use kawasekit_dkls.Backend.Ring.{zero-mul, zero-add, mul-add}
use kawasekit_dkls.Utilities.Ot.Extension.{batch_size}
use kawasekit_dkls.Utilities.Multiplication.{
  l, ot_width, MulDataToKeepReceiver, cell, sum_to, gadget_sum,
}
use kawasekit_dkls.Utilities.Multiplication.Sender.{correlations_of, sender_entry}
use kawasekit_dkls.Utilities.Multiplication.Receiver.{pad_loop, receiver_entry}
use kawasekit_dkls.Utilities.Multiplication.Sums.{
  sum_to-add, sum_to_congr, pad_loop-mul, select-mul, entries_agree,
}
use kawasekit_dkls.Utilities.Multiplication.Rows.{
  width_lem, correlation_tilde, correlation_hat, cell-take, cell-drop,
}

-- The rows of the sender and of the receiver, with the choices that relate them.
pub record Shared ⦃B : Backend⦄ (choice_bits : List Bool) (a h : List B.Scalar)
    (v0 t_b : List (List B.Scalar)) : Type 0 where
  pub relation :
      (i j : ℕ)
      → i < ot_width
      → j < batch_size
      → at B.zero (at [] v0 i) j ⊕ at B.zero (at [] t_b i) j
        ≡ (if at false choice_bits j then at B.zero (at [] (correlations_of a h) i) j else B.zero)

module _ ⦃B : Backend⦄ ⦃L : FieldLaws B⦄ where
  tilde_share :
      (choice_bits : List Bool) (a h : List B.Scalar) (v0 t_b : List (List B.Scalar)) (i j : ℕ)
      → Shared choice_bits a h v0 t_b
      → i < l
      → j < batch_size
      → cell (take l v0) i j ⊕ cell (take l t_b) i j
        ≡ (if at false choice_bits j then at B.zero a i else B.zero)
  tilde_share choice_bits a h v0 t_b i j s hi hj =
      ap₂ ◌⊕◌ (cell-take v0 i j hi) (cell-take t_b i j hi)
      ∙ s.relation i j (omega (arith, width_lem)) hj
      ∙ ap (λ t. if at false choice_bits j then t else B.zero) (correlation_tilde a h i j hi hj)

  hat_share :
      (choice_bits : List Bool) (a h : List B.Scalar) (v0 t_b : List (List B.Scalar)) (i j : ℕ)
      → Shared choice_bits a h v0 t_b
      → i < l
      → j < batch_size
      → cell (drop l v0) i j ⊕ cell (drop l t_b) i j
        ≡ (if at false choice_bits j then at B.zero h i else B.zero)
  hat_share choice_bits a h v0 t_b i j s hi hj =
      ap₂ ◌⊕◌ (cell-drop v0 i j) (cell-drop t_b i j)
      ∙ s.relation (l + i) j (omega (arith, width_lem)) hj
      ∙ ap (λ t. if at false choice_bits j then t else B.zero) (correlation_hat a h i j hi hj)

  -- Both parties hash one matrix r.
  pub entries :
      (kept : MulDataToKeepReceiver B) (a h : List B.Scalar) (v0 t_b : List (List B.Scalar))
      (i j : ℕ)
      → Shared kept.choice_bits a h v0 t_b
      → i < l
      → j < batch_size
      → sender_entry kept.chi_tilde kept.chi_hat (take l v0) (drop l v0) i j
        ≡ receiver_entry kept
            (table l (λ i.
              at B.zero kept.chi_tilde i ⊗ at B.zero a i
              ⊕ at B.zero kept.chi_hat i ⊗ at B.zero h i))
            (take l t_b)
            (drop l t_b)
            i
            j
  unfolding sender_entry receiver_entry
  entries kept a h v0 t_b i j s hi hj =
      entries_agree (at false kept.choice_bits j) (at B.zero kept.chi_tilde i)
        (at B.zero kept.chi_hat i) _ _ _ _ (at B.zero a i) (at B.zero h i)
        (tilde_share kept.choice_bits a h v0 t_b i j s hi hj)
        (hat_share kept.choice_bits a h v0 t_b i j s hi hj)
      ∙ ap
          (λ u.
            if at false kept.choice_bits j
            then B.neg (at B.zero kept.chi_tilde i ⊗ cell (take l t_b) i j)
              ⊖ at B.zero kept.chi_hat i ⊗ cell (drop l t_b) i j
              ⊕ u
            else B.neg (at B.zero kept.chi_tilde i ⊗ cell (take l t_b) i j)
              ⊖ at B.zero kept.chi_hat i ⊗ cell (drop l t_b) i j)
          (sym (at-table B.zero l _ i hi))

  -- The sums over the gadget add up to the pad of the receiver times that of the sender.
  pub gadget_sums :
      (gadget : List B.Scalar) (bits : ℕ → Bool) (a h : List B.Scalar)
      (v0 t_b : List (List B.Scalar)) (i : ℕ)
      → Shared (table batch_size bits) a h v0 t_b
      → i < l
      → gadget_sum gadget (take l v0) i ⊕ gadget_sum gadget (take l t_b) i
        ≡ pad_loop B.zero 0 batch_size gadget bits ⊗ at B.zero a i
  unfolding gadget_sum
  gadget_sums gadget bits a h v0 t_b i s hi =
      sum_to-add B.zero B.zero 0 batch_size _ _
      ∙ ap
          (λ t. sum_to t 0 batch_size (λ j.
            at B.zero gadget j ⊗ cell (take l v0) i j ⊕ at B.zero gadget j ⊗ cell (take l t_b) i j))
          (zero-add B.zero ∙ sym (zero-mul (at B.zero a i)))
      ∙ sum_to_congr _ 0 batch_size _ _ (λ j hj.
        sym (mul-add (at B.zero gadget j) _ _)
        ∙ ap (λ t. at B.zero gadget j ⊗ t)
            (tilde_share (table batch_size bits) a h v0 t_b i j s hi (omega arith)
              ∙ ap (λ b. if b then at B.zero a i else B.zero)
                  (at-table false batch_size bits j (omega arith)))
        ∙ select-mul (bits j) (at B.zero gadget j) (at B.zero a i))
      ∙ pad_loop-mul (at B.zero a i) B.zero 0 batch_size gadget bits

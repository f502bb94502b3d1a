-- ===== src/Utilities/Multiplication/Rows.antt =====
-- The rows of the matrices that the two parties of a multiplication hold.
use kawasekit_dkls.Prelude.{
  ℕ, zero, suc, ◌+◌, ◌<◌, ◌≡◌, refl, sym, ap, ap₂, ◌∙◌, List, [], ◌∷◌, true, Bytes, length,
  length-append, take, drop, concat, table, at, at-at-table, at-append_left, at-append_right,
  at-take, at-drop, table_congr, length-table, All-table, All-append,
}
use kawasekit_dkls.Backend.{Backend, ◌⊕◌}
use kawasekit_dkls.Utilities.OracleTags.{tag_mul_verify}
use kawasekit_dkls.Utilities.Hashes.{tagged_hash, scalar_to_bytes}
use kawasekit_dkls.Utilities.Ot.Extension.{batch_size}
use kawasekit_dkls.Utilities.Ot.Extension.Sender.{all_have_length}
use kawasekit_dkls.Utilities.Ot.Extension.Agree.{All-lengths}
use kawasekit_dkls.Utilities.Multiplication.{gadget_from, gadget_of, l, ot_width, cell, verify_r_of}
use kawasekit_dkls.Utilities.Multiplication.Sender.{correlations_of}

pub width_lem : ot_width ≡ l + l
unfolding ot_width l
width_lem = refl

module _ ⦃B : Backend⦄ where
  length-gadget_from :
      (sid : Bytes) (counter : B.Scalar) (n : ℕ) → length (gadget_from sid counter n) ≡ n
  unfolding gadget_from
  length-gadget_from sid counter zero = refl
  length-gadget_from sid counter (suc n) = ap suc (length-gadget_from sid (counter ⊕ B.one) n)

  -- Both parties' gadget vectors have the length that the runs need.
  pub length-gadget_of :
      (sid : Bytes) (nonce : B.Scalar) → length (gadget_of sid nonce) ≡ batch_size
  unfolding gadget_of
  length-gadget_of sid nonce = length-gadget_from sid nonce batch_size

  pub length-correlations_of : (a h : List B.Scalar) → length (correlations_of a h) ≡ ot_width
  unfolding correlations_of
  length-correlations_of a h =
      length-append (table l (λ i. table batch_size (λ _. at B.zero a i))) _
      ∙ ap₂ (◌+◌) (length-table l _) (length-table l _)
      ∙ sym width_lem

  pub inner_lengths :
      (a h : List B.Scalar) → all_have_length batch_size (correlations_of a h) ≡ true
  unfolding correlations_of
  inner_lengths a h = All-lengths batch_size _ (
      All-append _ (table l _) (table l _) (All-table _ l _ (λ i _. length-table batch_size _))
        (All-table _ l _ (λ i _. length-table batch_size _)))

  pub correlation_tilde :
      (a h : List B.Scalar) (i j : ℕ)
      → i < l
      → j < batch_size
      → at B.zero (at [] (correlations_of a h) i) j ≡ at B.zero a i
  unfolding correlations_of
  correlation_tilde a h i j hi hj =
      ap (λ row. at B.zero row j)
        (at-append_left [] (table l _) (table l _) i (rw (length-table {A = List B.Scalar} l _) hi))
      ∙ at-at-table B.zero l batch_size _ i j hi hj

  pub correlation_hat :
      (a h : List B.Scalar) (i j : ℕ)
      → i < l
      → j < batch_size
      → at B.zero (at [] (correlations_of a h) (l + i)) j ≡ at B.zero h i
  unfolding correlations_of
  correlation_hat a h i j hi hj =
      ap (λ n. at B.zero (at [] (correlations_of a h) (n + i)) j) (sym (length-table l _))
      ∙ ap (λ row. at B.zero row j) (at-append_right [] (table l _) (table l _) i)
      ∙ at-at-table B.zero l batch_size _ i j hi hj

  pub cell-take :
      (rows : List (List B.Scalar)) (i j : ℕ)
      → i < l
      → cell (take l rows) i j ≡ at B.zero (at [] rows i) j
  unfolding cell
  cell-take rows i j h = ap (λ row. at B.zero row j) (at-take [] l rows i h)

  pub cell-drop :
      (rows : List (List B.Scalar)) (i j : ℕ)
      → cell (drop l rows) i j ≡ at B.zero (at [] rows (l + i)) j
  unfolding cell
  cell-drop rows i j = ap (λ row. at B.zero row j) (at-drop [] l rows i)

  pub verify_r_of_congr :
      (sid : Bytes) (f g : ℕ → ℕ → B.Scalar)
      → ((i j : ℕ) → i < l → j < batch_size → f i j ≡ g i j)
      → verify_r_of sid f ≡ verify_r_of sid g
  unfolding verify_r_of
  verify_r_of_congr sid f g h =
      ap (λ rows. tagged_hash tag_mul_verify (sid ∷ concat rows ∷ []))
        (table_congr l _ _ (λ i hi.
          ap concat (table_congr batch_size _ _ (λ j hj. ap scalar_to_bytes (h i j hi hj)))))

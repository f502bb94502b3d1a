-- ===== src/Utilities/Ot/Extension/Transpose.antt =====
-- `cut_and_transpose` of dkls23-core/src/utilities/ot/extension.rs.
use kawasekit_dkls.Prelude.{
  ℕ, ◌+◌, ◌*◌, ◌/◌, ◌%◌, List, [], Bytes, length, ◌==◌, if◌then◌else◌, Result, ok, err, table, at,
  nth_bit, or_shifted, refl, ◌≡◌, ◌<◌, ◌≤◌, ap, ◌∙◌, ==_refl, nth_bit-le_one, nth_bit-or_shifted,
  at-at-table, arith,
}
use kawasekit_dkls.Utilities.Ot.{ErrorOt, malformed}
use kawasekit_dkls.Utilities.Ot.Extension.{kappa, batch_size, raw_security}

-- The element of the matrix of bits at a row and a column: the columns of a row are packed in bytes.
unfoldable pub entry : List Bytes → ℕ → ℕ → ℕ
entry input row_bit column_bit =
    nth_bit (at 0 (at [] input row_bit) (column_bit / 8)) (column_bit % 8)

-- The byte of the output that eight iterations of the loop over `row_bit_within_byte` write.
unfoldable pub output_byte : List Bytes → ℕ → ℕ → ℕ
output_byte input column_bit row_byte =
    or_shifted 0
      (λ row_bit_within_byte. entry input (row_byte * 8 + row_bit_within_byte) column_bit) 0 8

unfoldable pub cut_and_transpose : List Bytes → Result ErrorOt (List Bytes)
cut_and_transpose input =
    if length input == kappa
    then ok (
        table batch_size
          (λ column_bit. table (kappa / 8) (λ row_byte. output_byte input column_bit row_byte)))
    else err (malformed "Transpose input matrix has incorrect dimensions")

entry-le_one : (input : List Bytes) (row col : ℕ) → entry input row col ≤ 1
unfolding entry
entry-le_one input row col = nth_bit-le_one _ _

output_byte-nth_bit :
    (input : List Bytes) (r c : ℕ) → nth_bit (output_byte input c (r / 8)) (r % 8) ≡ entry input r c
unfolding output_byte
output_byte-nth_bit input r c =
    nth_bit-or_shifted (λ k. entry input (r / 8 * 8 + k) c) (λ k. entry-le_one input _ c) 8 (r % 8)
      (omega arith)
    ∙ ap (λ i. entry input i c) {x = r / 8 * 8 + r % 8} {y = r} (omega arith)

row_byte-lt : (r : ℕ) → r < kappa → r / 8 < kappa / 8
unfolding kappa raw_security
row_byte-lt r h = omega arith

entry-table :
    (input : List Bytes) (r c : ℕ)
    → r < kappa
    → c < batch_size
    → entry (table batch_size (λ col. table (kappa / 8) (λ row. output_byte input col row))) c r
      ≡ entry input r c
unfolding entry
entry-table input r c hr hc =
    ap (λ t. nth_bit t (r % 8))
      (at-at-table 0 batch_size (kappa / 8) (output_byte input) c (r / 8) hc (row_byte-lt r hr))
    ∙ output_byte-nth_bit input r c

-- For a matrix of KAPPA rows, the output has the element of the input at the row r and the
-- column c at its row c and its column r, for every row of the input and each of its first
-- BATCH_SIZE columns.
pub cut_and_transpose-entry :
    (input : List Bytes)
    → length input ≡ kappa
    → (output : List Bytes) × (cut_and_transpose input ≡ ok output)
      × ((r c : ℕ) → r < kappa → c < batch_size → entry output c r ≡ entry input r c)
unfolding cut_and_transpose
cut_and_transpose-entry input h = (_, rw (h, ==_refl kappa) refl, entry-table input)

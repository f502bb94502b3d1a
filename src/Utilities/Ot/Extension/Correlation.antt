-- ===== src/Utilities/Ot/Extension/Correlation.antt =====
-- How the transposed matrices of the two parties of the OT extension are related.
use kawasekit_dkls.Prelude.{
  ℕ, ◌+◌, ◌*◌, ◌/◌, ◌%◌, ◌≤◌, ◌<◌, ◌≡◌, refl, sym, ap, ap₂, ◌∙◌, List, [], Bool, true, false, Bytes,
  if◌then◌else◌, arith, table, at, at-table, at-at-table, table_congr, bit, bit_xor, nth_bit,
  or_shifted, nth_bit-or_shifted, nth_bit-xor, nth_bit-le_one, bit-le_one, or_shifted_xor,
  or_shifted_congr, xor_assoc, xor_comm, xor_left_comm, xor_self, xor-zero, zero-xor,
}
use kawasekit_dkls.Utilities.Ot.Extension.{
  kappa, batch_size, prg_data_size, extended_batch_size, raw_security, stat_security, ot_security,
  base_security, compress,
}
use kawasekit_dkls.Utilities.Ot.Extension.Transpose.{entry, output_byte}
use kawasekit_dkls.Utilities.Ot.Extension.Sender.{q_matrix, plus_correlation}
use kawasekit_dkls.Utilities.Ot.Extension.Receiver.{u_matrix}

pub column_in_prg : (col : ℕ) → col < batch_size → col / 8 < prg_data_size
unfolding batch_size prg_data_size extended_batch_size raw_security stat_security ot_security
    base_security
column_in_prg col h = omega arith

-- The digit of a compressed vector of bits.
nth_bit-compress :
    (n : ℕ) (bits : List Bool) (j : ℕ)
    → j / 8 < n
    → nth_bit (at 0 (compress n bits) (j / 8)) (j % 8) ≡ bit (at false bits j)
unfolding compress
nth_bit-compress n bits j h =
    ap (λ t. nth_bit t (j % 8))
      (at-table 0 n (λ i. or_shifted 0 (λ k. bit (at false bits (i * 8 + k))) 0 8) (j / 8) h)
    ∙ nth_bit-or_shifted (λ k. bit (at false bits (j / 8 * 8 + k))) (λ k. bit-le_one _) 8 (j % 8)
        (omega arith)
    ∙ ap (λ t. bit (at false bits t)) {x = j / 8 * 8 + j % 8} {y = j} (omega arith)

nth_bit_of_zero : (s : ℕ) → nth_bit 0 s ≡ 0
nth_bit_of_zero s = omega (arith, nth_bit-xor 0 0 s, nth_bit-le_one 0 s)

xor-cancel : (a b : ℕ) → bit_xor (bit_xor a b) b ≡ a
xor-cancel a b = xor_assoc a b b ∙ ap (bit_xor a) (xor_self b) ∙ xor-zero a

cancels : (a b x : ℕ) → bit_xor (bit_xor (bit_xor a b) x) b ≡ bit_xor a x
cancels a b x =
    ap (λ t. bit_xor t b) (xor_assoc a b x ∙ xor_left_comm a b x)
    ∙ xor_comm (bit_xor b (bit_xor a x)) b
    ∙ sym (xor_assoc b b (bit_xor a x))
    ∙ ap (λ t. bit_xor t (bit_xor a x)) (xor_self b)
    ∙ zero-xor (bit_xor a x)

choose :
    (c : Bool) (a b x : ℕ)
    → bit_xor (bit c * bit_xor (bit_xor a b) x) (if c then b else a) ≡ bit_xor a (bit c * x)
choose true a b x =
    ap (λ t. bit_xor t b) {x = 1 * bit_xor (bit_xor a b) x} {y = bit_xor (bit_xor a b) x}
      (omega arith)
    ∙ cancels a b x
    ∙ ap (bit_xor a) {x = x} {y = 1 * x} (omega arith)
choose false a b x =
    ap (λ t. bit_xor t a) {x = 0 * bit_xor (bit_xor a b) x} {y = 0} (omega arith)
    ∙ zero-xor a
    ∙ sym (xor-zero a)
    ∙ ap (bit_xor a) {x = 0} {y = 0 * x} (omega arith)

at_if :
    (c : Bool) (xs ys : Bytes) (j : ℕ)
    → at 0 (if c then xs else ys) j ≡ (if c then at 0 xs j else at 0 ys j)
at_if true xs ys j = refl
at_if false xs ys j = refl

nth_bit_scaled : (c : Bool) (a s : ℕ) → nth_bit (bit c * a) s ≡ bit c * nth_bit a s
nth_bit_scaled true a s = ap (λ t. nth_bit t s) {x = 1 * a} {y = a} (omega arith) ∙ omega arith
nth_bit_scaled false a s =
    ap (λ t. nth_bit t s) {x = 0 * a} {y = 0} (omega arith) ∙ nth_bit_of_zero s ∙ omega arith

entry-le_one : (input : List Bytes) (i col : ℕ) → entry input i col ≤ 1
unfolding entry
entry-le_one input i col = nth_bit-le_one _ _

-- A row of the transposed matrix.
abbrev pub row_of : List Bytes → ℕ → Bytes
row_of input col = table (kappa / 8) (λ row_byte. output_byte input col row_byte)

-- The sender knows, of each pair of rows, the one that the correlation's bit chooses.
module _ (correlation : List Bool) (t0 t1 known : List Bytes)
    (chosen : (i : ℕ)
      → i < kappa
      → at [] known i ≡ (if at false correlation i then at [] t1 i else at [] t0 i))
    (bits : List Bool) where
  abbrev x : Bytes
  x = compress prg_data_size bits

  abbrev q : List Bytes
  q = q_matrix correlation (u_matrix t0 t1 x) known

  pub q-cell :
      (i j : ℕ)
      → i < kappa
      → j < prg_data_size
      → at 0 (at [] q i) j ≡ bit_xor (at 0 (at [] t0 i) j) (bit (at false correlation i) * at 0 x j)
  unfolding q_matrix u_matrix
  q-cell i j hi hj =
      let c = at false correlation i in
      at-at-table 0 kappa prg_data_size _ i j hi hj
      ∙ ap₂ (λ u e. bit_xor (bit c * u) e) (at-at-table 0 kappa prg_data_size _ i j hi hj)
          (ap (λ row. at 0 row j) (chosen i hi) ∙ at_if c (at [] t1 i) (at [] t0 i) j)
      ∙ choose c (at 0 (at [] t0 i) j) (at 0 (at [] t1 i) j) (at 0 x j)

  entry-q :
      (i col : ℕ)
      → i < kappa
      → col < batch_size
      → entry q i col
        ≡ (entry t0 i col + bit (at false correlation i) * bit (at false bits col)) % 2
  unfolding entry
  entry-q i col hi hc =
      let c = at false correlation i in
      ap (λ t. nth_bit t (col % 8)) (q-cell i (col / 8) hi (column_in_prg col hc))
      ∙ nth_bit-xor (at 0 (at [] t0 i) (col / 8)) (bit c * at 0 x (col / 8)) (col % 8)
      ∙ ap (λ t. (entry t0 i col + t) % 2)
          (nth_bit_scaled c (at 0 x (col / 8)) (col % 8)
            ∙ ap (λ t. bit c * t) (nth_bit-compress prg_data_size bits col (column_in_prg col hc)))

  -- At a clear choice bit the two transposed matrices have one row.
  output_byte_clear :
      (col row_byte : ℕ)
      → col < batch_size
      → row_byte < kappa / 8
      → at false bits col ≡ false
      → output_byte q col row_byte ≡ output_byte t0 col row_byte
  unfolding output_byte
  output_byte_clear col row_byte hc hr clear = or_shifted_congr _ _ 0 0 8 (λ k hk.
      entry-q (row_byte * 8 + k) col (omega arith) hc
      ∙ ap
          (λ b.
            (entry t0 (row_byte * 8 + k) col
              + bit (at false correlation (row_byte * 8 + k)) * bit b)
            % 2)
          clear
      ∙ omega (arith, entry-le_one t0 (row_byte * 8 + k) col))

  -- At a set choice bit the rows differ by the correlation.
  output_byte_set :
      (col row_byte : ℕ)
      → col < batch_size
      → row_byte < kappa / 8
      → at false bits col ≡ true
      → output_byte q col row_byte
        ≡ bit_xor (output_byte t0 col row_byte) (at 0 (compress (kappa / 8) correlation) row_byte)
  unfolding output_byte compress
  output_byte_set col row_byte hc hr set =
      let d : ℕ → ℕ = λ k. bit (at false correlation (row_byte * 8 + k)) in
      or_shifted_congr _ (λ k. (entry t0 (row_byte * 8 + k) col + d k) % 2) 0 0 8
        (λ k hk.
          entry-q (row_byte * 8 + k) col (omega arith) hc
          ∙ ap (λ b. (entry t0 (row_byte * 8 + k) col + d k * bit b) % 2) set
          ∙ omega arith)
      ∙ sym (
          or_shifted_xor (λ k. entry t0 (row_byte * 8 + k) col) d
            (λ k. entry-le_one t0 (row_byte * 8 + k) col) (λ k. bit-le_one _) 8)
      ∙ ap (bit_xor _) (sym (at-table 0 (kappa / 8) _ row_byte hr))

  pub row_clear :
      (col : ℕ) → col < batch_size → at false bits col ≡ false → row_of q col ≡ row_of t0 col
  row_clear col hc clear =
      table_congr (kappa / 8) _ _ (λ row_byte hr. output_byte_clear col row_byte hc hr clear)

  pub row_set :
      (col : ℕ)
      → col < batch_size
      → at false bits col ≡ true
      → plus_correlation correlation (row_of q col) ≡ row_of t0 col
  unfolding plus_correlation
  row_set col hc set = table_congr (kappa / 8) _ _ (λ row_byte hr.
      ap₂ bit_xor (at-table 0 (kappa / 8) _ row_byte hr ∙ output_byte_set col row_byte hc hr set)
        refl
      ∙ xor-cancel (output_byte t0 col row_byte) (at 0 (compress (kappa / 8) correlation) row_byte))

-- ===== src/Utilities/Ot/Extension/Check.antt =====
-- The consistency check of the OT extension accepts what an honest receiver sends.
use kawasekit_dkls.Prelude.{
  ℕ, ◌+◌, ◌*◌, ◌<◌, ◌≡◌, refl, sym, ap, ap₂, ◌∙◌, List, [], ◌∷◌, Bool, true, false, Bytes, length,
  length-drop, length-take, take, drop, arith, ==_refl, ok, table, at, at-table, table_congr,
  at-take, at-drop, bit, bit_xor, xor_self, xor_assoc, xor_comm, xor_left_comm, bytes_eq_refl,
}
use kawasekit_dkls.Utilities.Ot.Extension.{
  prg_data_size, field_size, extended_batch_size, batch_size, ot_security, base_security,
  stat_security, raw_security,
}
use kawasekit_dkls.Utilities.Ot.Extension.FieldMul.{field_mul, product}
use kawasekit_dkls.Utilities.Ot.Extension.Linear.{IsSum, product_sum}
use kawasekit_dkls.Utilities.Ot.Extension.Sender.{weigh, rows_eq}

-- The length of a row, in field elements.
row_size : prg_data_size ≡ field_size + field_size + field_size
unfolding prg_data_size field_size extended_batch_size batch_size ot_security base_security
    stat_security raw_security
row_size = refl

third : (k : ℕ) → k < field_size → 2 * field_size + k < prg_data_size
third k h = omega (arith, row_size)

weighed_at : Bytes → Bytes → Bytes → ℕ → ℕ
weighed_at chi1 chi2 row k =
    bit_xor
      (bit_xor (at 0 (product (take field_size row) chi1) k)
        (at 0 (product (take field_size (drop field_size row)) chi2) k))
      (at 0 row (2 * field_size + k))

pub weighed : Bytes → Bytes → Bytes → Bytes
weighed chi1 chi2 row = table field_size (weighed_at chi1 chi2 row)

swap_parts :
    (a b c d e f : ℕ)
    → bit_xor (bit_xor (bit_xor a b) (bit_xor c d)) (bit_xor e f)
      ≡ bit_xor (bit_xor (bit_xor a c) e) (bit_xor (bit_xor b d) f)
swap_parts a b c d e f = simp (xor_assoc, xor_comm, xor_left_comm)

field_mul-eq-ok :
    (left right : Bytes)
    → length left ≡ field_size
    → length right ≡ field_size
    → field_mul left right ≡ ok (product left right)
unfolding field_mul
field_mul-eq-ok left right hl hr = rw (hl, hr, ==_refl field_size) refl

pub weigh-eq-ok :
    (chi1 chi2 row : Bytes)
    → length chi1 ≡ field_size
    → length chi2 ≡ field_size
    → length row ≡ prg_data_size
    → weigh chi1 chi2 row ≡ ok (weighed chi1 chi2 row)
unfolding weigh weighed weighed_at
weigh-eq-ok chi1 chi2 row h1 h2 h =
    rw
      (
        field_mul-eq-ok (take field_size row) chi1
            (length-take field_size row (omega (arith, h, row_size))) h1,
        field_mul-eq-ok (take field_size (drop field_size row)) chi2
            (length-take field_size (drop field_size row)
              (omega (arith, h, row_size, length-drop field_size row)))
            h2,
      )
      refl

IsSum-take :
    (z x y : Bytes)
    → IsSum z x y prg_data_size
    → IsSum (take field_size z) (take field_size x) (take field_size y) field_size
IsSum-take z x y s =
    let inside : (i : ℕ) → i < field_size → i < prg_data_size = λ i h. omega (arith, row_size) in
    record {
      sum = λ i h.
          at-take 0 field_size z i h
          ∙ s.sum i (inside i h)
          ∙ sym (ap₂ bit_xor (at-take 0 field_size x i h) (at-take 0 field_size y i h));
      small_x = λ i h. rw (at-take 0 field_size x i h) (s.small_x i (inside i h));
      small_y = λ i h. rw (at-take 0 field_size y i h) (s.small_y i (inside i h));
    }

at_second :
    (row : Bytes) (i : ℕ)
    → i < field_size
    → at 0 (take field_size (drop field_size row)) i ≡ at 0 row (field_size + i)
at_second row i h = at-take 0 field_size (drop field_size row) i h ∙ at-drop 0 field_size row i

IsSum-second :
    (z x y : Bytes)
    → IsSum z x y prg_data_size
    → IsSum
        (take field_size (drop field_size z))
        (take field_size (drop field_size x))
        (take field_size (drop field_size y))
        field_size
IsSum-second z x y s =
    let inside : (i : ℕ) → i < field_size → field_size + i < prg_data_size =
      λ i h. omega (arith, row_size) in
    record {
      sum = λ i h.
          at_second z i h
          ∙ s.sum (field_size + i) (inside i h)
          ∙ sym (ap₂ bit_xor (at_second x i h) (at_second y i h));
      small_x = λ i h. rw (at_second x i h) (s.small_x (field_size + i) (inside i h));
      small_y = λ i h. rw (at_second y i h) (s.small_y (field_size + i) (inside i h));
    }

weighed-sum :
    (chi1 chi2 z x y : Bytes) (k : ℕ)
    → IsSum z x y prg_data_size
    → k < field_size
    → at 0 (weighed chi1 chi2 z) k
      ≡ bit_xor (at 0 (weighed chi1 chi2 x) k) (at 0 (weighed chi1 chi2 y) k)
unfolding weighed weighed_at
weighed-sum chi1 chi2 z x y k s h =
    let part1 : Bytes → ℕ = λ v. at 0 (product (take field_size v) chi1) k in
    let part2 : Bytes → ℕ = λ v. at 0 (product (take field_size (drop field_size v)) chi2) k in
    let part3 : Bytes → ℕ = λ v. at 0 v (2 * field_size + k) in
    at-table 0 field_size _ k h
    ∙ ap₂ bit_xor
        (ap₂ bit_xor (product_sum _ _ _ chi1 k (IsSum-take z x y s) h)
          (product_sum _ _ _ chi2 k (IsSum-second z x y s) h))
        (s.sum (2 * field_size + k) (third k h))
    ∙ swap_parts (part1 x) (part1 y) (part2 x) (part2 y) (part3 x) (part3 y)
    ∙ sym (ap₂ bit_xor (at-table 0 field_size _ k h) (at-table 0 field_size _ k h))

weighed-empty : (chi1 chi2 : Bytes) (k : ℕ) → k < field_size → at 0 (weighed chi1 chi2 []) k ≡ 0
unfolding at
weighed-empty chi1 chi2 k h =
    let nothing : IsSum [] [] [] prg_data_size = record {
      sum = λ i _. sym (xor_self 0);
      small_x = λ i _. omega arith;
      small_y = λ i _. omega arith;
    } in
    weighed-sum chi1 chi2 [] [] [] k nothing h ∙ xor_self _

times_zero : (i : ℕ) (x : Bytes) → 0 * at 0 x i ≡ at 0 [] i
unfolding at
times_zero i x = omega arith

nothing_small : (i : ℕ) → at 0 [] i < 256
unfolding at
nothing_small i = omega arith

-- A row plus the choice bits, as often as the correlation's bit says.
pub record IsShifted (c : Bool) (row base x : Bytes) : Type 0 where
  pub cell : (j : ℕ) → j < prg_data_size → at 0 row j ≡ bit_xor (at 0 base j) (bit c * at 0 x j)
  pub small_base : (j : ℕ) → at 0 base j < 256
  pub small_x : (j : ℕ) → at 0 x j < 256

pub weighed-shifted :
    (c : Bool) (chi1 chi2 row base x : Bytes) (k : ℕ)
    → IsShifted c row base x
    → k < field_size
    → at 0 (weighed chi1 chi2 row) k
      ≡ bit_xor (at 0 (weighed chi1 chi2 base) k) (bit c * at 0 (weighed chi1 chi2 x) k)
weighed-shifted true chi1 chi2 row base x k s h =
    let sums : IsSum row base x prg_data_size = record {
      sum = λ i p.
          s.cell i p ∙ ap (bit_xor (at 0 base i)) {x = 1 * at 0 x i} {y = at 0 x i} (omega arith);
      small_x = λ i _. s.small_base i;
      small_y = λ i _. s.small_x i;
    } in
    weighed-sum chi1 chi2 row base x k sums h
    ∙ ap (bit_xor _) {y = 1 * at 0 (weighed chi1 chi2 x) k} (omega arith)
weighed-shifted false chi1 chi2 row base x k s h =
    let sums : IsSum row base [] prg_data_size = record {
      sum = λ i p.
          s.cell i p
          ∙ ap (bit_xor (at 0 base i)) {x = 0 * at 0 x i} {y = at 0 [] i} (times_zero i x);
      small_x = λ i _. s.small_base i;
      small_y = λ i _. nothing_small i;
    } in
    weighed-sum chi1 chi2 row base [] k sums h
    ∙ ap (bit_xor _) {y = 0 * at 0 (weighed chi1 chi2 x) k}
        (weighed-empty chi1 chi2 k h ∙ omega arith)

pub rows_eq_refl : (rows : List Bytes) → rows_eq rows rows ≡ true
unfolding rows_eq
rows_eq_refl [] = refl
rows_eq_refl (x ∷ xs) = rw (bytes_eq_refl x, rows_eq_refl xs) refl

pub weighed_eta :
    (chi1 chi2 row : Bytes)
    → weighed chi1 chi2 row ≡ table field_size (λ k. at 0 (weighed chi1 chi2 row) k)
unfolding weighed
weighed_eta chi1 chi2 row =
    table_congr field_size _ _ (λ k h. sym (at-table 0 field_size (weighed_at chi1 chi2 row) k h))

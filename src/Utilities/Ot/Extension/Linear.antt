-- ===== src/Utilities/Ot/Extension/Linear.antt =====
-- The product of the binary field is linear in its left factor.
use Prim.Native.Nat.{bit_and}
use kawasekit_dkls.Prelude.{
  ℕ, zero, suc, ◌+◌, ◌-◌, ◌*◌, ◌/◌, ◌%◌, ◌^◌, ◌≤◌, ◌<◌, ◌≡◌, refl, sym, ap, ap₂, ◌∙◌, ◌&&◌, inl,
  inr, Bool-cases, Bytes, ltb, leb, ◌==◌, arith, at, at-table, bit_xor, nth_bit, nth_bit-xor,
  nth_bit-le_one, xor_assoc, xor_comm, xor_left_comm, zero-xor,
}
use kawasekit_dkls.Utilities.Ot.Extension.{field_size, ot_security, base_security, stat_security}
use kawasekit_dkls.Utilities.Ot.Extension.FieldMul.{
  shl, shr, Words, or_bytes, to_words, mask_of, xor_masked, comb, shift_b, mul_loop, reduce_block,
  reduce_last, from_words, product,
}
use kawasekit_dkls.Utilities.Ot.Extension.Words.{
  shl-xor, shr-xor, and-xor, masked-xor, or_byte, xor-lt_pow,
}

ruleset xor_ac = (xor_assoc, xor_comm, xor_left_comm)

-- The bytes of one factor, added to those of another.
pub record IsSum (z x y : Bytes) (n : ℕ) : Type 0 where
  pub sum : (i : ℕ) → i < n → at 0 z i ≡ bit_xor (at 0 x i) (at 0 y i)
  pub small_x : (i : ℕ) → i < n → at 0 x i < 256
  pub small_y : (i : ℕ) → i < n → at 0 y i < 256

small_z : {z x y : Bytes} {n : ℕ} → IsSum z x y n → (i : ℕ) → i < n → at 0 z i < 256
small_z s i h = omega (arith, s.sum i h, xor-lt_pow 8 _ _ (s.small_x i h) (s.small_y i h))

swap_middle :
    (a b c d : ℕ) → bit_xor (bit_xor a b) (bit_xor c d) ≡ bit_xor (bit_xor a c) (bit_xor b d)
swap_middle a b c d = simp xor_ac

-- The conversion loop with `^` in place of `|`.
xor_in : Bytes → ℕ → ℕ → ℕ → ℕ → ℕ
xor_in xs word i m zero = word
xor_in xs word i m (suc n) = xor_in xs (bit_xor word (shl (at 0 xs i) (m * 8))) (suc i) (suc m) n

or_bytes-xor_in :
    (xs : Bytes) (w m n word i size : ℕ)
    → i ≡ w * 8 + m
    → m + n ≤ 8
    → i + n ≤ size
    → ((j : ℕ) → j < size → at 0 xs j < 256)
    → word < 2 ^ (m * 8)
    → or_bytes xs word i n ≡ xor_in xs word i m n
unfolding or_bytes xor_in
or_bytes-xor_in xs w m zero word i size e hm hs small hw = refl
or_bytes-xor_in xs w m (suc n) word i size e hm hs small hw =
    let (same, bound) = or_byte m word (at 0 xs i) (omega arith) (small i (omega arith)) hw in
    let offset : i % 8 * 8 ≡ m * 8 = omega arith in
    rw (offset, same)
      (or_bytes-xor_in xs w (suc m) n _ (suc i) size (omega arith) (omega arith) (omega arith) small
        bound)

xor_in_sum :
    (z x y : Bytes) (size n wx wy i m : ℕ)
    → IsSum z x y size
    → i + n ≤ size
    → xor_in z (bit_xor wx wy) i m n ≡ bit_xor (xor_in x wx i m n) (xor_in y wy i m n)
unfolding xor_in
xor_in_sum z x y size zero wx wy i m s h = refl
xor_in_sum z x y size (suc n) wx wy i m s h =
    let bx = shl (at 0 x i) (m * 8) in
    let by = shl (at 0 y i) (m * 8) in
    ap (λ t. xor_in z t (suc i) (suc m) n)
      (ap (λ t. bit_xor (bit_xor wx wy) (shl t (m * 8))) (s.sum i (omega arith))
        ∙ ap (bit_xor (bit_xor wx wy)) (shl-xor (at 0 x i) (at 0 y i) (m * 8))
        ∙ swap_middle wx wy bx by)
    ∙ xor_in_sum z x y size n (bit_xor wx bx) (bit_xor wy by) (suc i) (suc m) s (omega arith)

word_sum :
    (z x y : Bytes) (size w n : ℕ)
    → IsSum z x y size
    → n ≤ 8
    → w * 8 + n ≤ size
    → or_bytes z 0 (w * 8) n ≡ bit_xor (or_bytes x 0 (w * 8) n) (or_bytes y 0 (w * 8) n)
word_sum z x y size w n s hn hs =
    let through : (v : Bytes)
        → ((j : ℕ) → j < size → at 0 v j < 256)
        → or_bytes v 0 (w * 8) n ≡ xor_in v 0 (w * 8) 0 n =
      λ v small.
        or_bytes-xor_in v w 0 n 0 (w * 8) size (omega arith) (omega arith) hs small (omega arith) in
    through z (small_z s)
    ∙ ap (λ t. xor_in z t (w * 8) 0 n) (sym (zero-xor 0))
    ∙ xor_in_sum z x y size n 0 0 (w * 8) 0 s hs
    ∙ sym (ap₂ bit_xor (through x s.small_x) (through y s.small_y))

-- Words that are a sum at every index.
abbrev Sums : Words → Words → Words → Type 0
Sums c a b = (i : ℕ) → c i ≡ bit_xor (a i) (b i)

size_is_26 : field_size ≡ 26
unfolding field_size ot_security base_security stat_security
size_is_26 = refl

to_words_sum :
    (z x y : Bytes) → IsSum z x y field_size → Sums (to_words z) (to_words x) (to_words y)
unfolding to_words or_bytes
to_words_sum z x y s w = elim (Bool-cases (ltb w 3)) [
  | inl e ↦ rw e (word_sum z x y field_size w 8 s (omega arith) (ground (arith, size_is_26)))
  | inr e ↦ elim (Bool-cases (w == 3)) [
    | inl f ↦ rw (e, f) (word_sum z x y field_size w 2 s (omega arith) (ground (arith, size_is_26)))
    | inr f ↦ rw (e, f) (sym (zero-xor 0))
  ]
]

xor_masked_sum :
    (j p q : ℕ) (b c c1 c2 : Words)
    → p ≤ 1
    → q ≤ 1
    → Sums c c1 c2
    → Sums
        (xor_masked j (mask_of ((p + q) % 2)) b c)
        (xor_masked j (mask_of p) b c1)
        (xor_masked j (mask_of q) b c2)
unfolding xor_masked
xor_masked_sum j p q b c c1 c2 hp hq s i = elim (Bool-cases (leb j i && leb i (j + 4))) [
  | inl e ↦
      rw e (ap₂ bit_xor (s i) (masked-xor (b (i - j)) p q hp hq) ∙ swap_middle (c1 i) (c2 i) _ _)
  | inr e ↦ rw e (s i)
]

comb_sum :
    (k j n : ℕ) (a a1 a2 b c c1 c2 : Words)
    → Sums a a1 a2
    → Sums c c1 c2
    → Sums (comb k j n a b c) (comb k j n a1 b c1) (comb k j n a2 b c2)
unfolding comb
comb_sum k j zero a a1 a2 b c c1 c2 sa sc = sc
comb_sum k j (suc n) a a1 a2 b c c1 c2 sa sc =
    let digit : nth_bit (a j) k ≡ (nth_bit (a1 j) k + nth_bit (a2 j) k) % 2 =
      ap (λ t. nth_bit t k) (sa j) ∙ nth_bit-xor (a1 j) (a2 j) k in
    rw digit (
      comb_sum k (suc j) n a a1 a2 b _ _ _ sa (
        xor_masked_sum j (nth_bit (a1 j) k) (nth_bit (a2 j) k) b c c1 c2 (nth_bit-le_one _ _)
          (nth_bit-le_one _ _) sc))

mul_loop_sum :
    (k n : ℕ) (a a1 a2 b c c1 c2 : Words)
    → Sums a a1 a2
    → Sums c c1 c2
    → Sums (mul_loop k n a b c) (mul_loop k n a1 b c1) (mul_loop k n a2 b c2)
unfolding mul_loop
mul_loop_sum k zero a a1 a2 b c c1 c2 sa sc = sc
mul_loop_sum k (suc n) a a1 a2 b c c1 c2 sa sc =
    mul_loop_sum (suc k) n a a1 a2 (shift_b k b) _ _ _ sa (comb_sum k 0 4 a a1 a2 b c c1 c2 sa sc)

upper_sum :
    (a b : ℕ)
    → bit_xor
        (bit_xor (bit_xor (shl (bit_xor a b) 57) (shl (bit_xor a b) 51)) (shl (bit_xor a b) 49))
        (shl (bit_xor a b) 48)
      ≡ bit_xor
          (bit_xor (bit_xor (bit_xor (shl a 57) (shl a 51)) (shl a 49)) (shl a 48))
          (bit_xor (bit_xor (bit_xor (shl b 57) (shl b 51)) (shl b 49)) (shl b 48))
upper_sum a b = simp (shl-xor, xor_ac)

lower_sum :
    (a b : ℕ)
    → bit_xor
        (bit_xor (bit_xor (shr (bit_xor a b) 7) (shr (bit_xor a b) 13)) (shr (bit_xor a b) 15))
        (shr (bit_xor a b) 16)
      ≡ bit_xor
          (bit_xor (bit_xor (bit_xor (shr a 7) (shr a 13)) (shr a 15)) (shr a 16))
          (bit_xor (bit_xor (bit_xor (shr b 7) (shr b 13)) (shr b 15)) (shr b 16))
lower_sum a b = simp (shr-xor, xor_ac)

last_sum :
    (a b : ℕ)
    → bit_xor
        (bit_xor (bit_xor (shl (bit_xor a b) 9) (shl (bit_xor a b) 3)) (shl (bit_xor a b) 1))
        (bit_xor a b)
      ≡ bit_xor
          (bit_xor (bit_xor (bit_xor (shl a 9) (shl a 3)) (shl a 1)) a)
          (bit_xor (bit_xor (bit_xor (shl b 9) (shl b 3)) (shl b 1)) b)
last_sum a b = simp (shl-xor, xor_ac)

reduce_block_sum :
    (i : ℕ) (c c1 c2 : Words)
    → Sums c c1 c2
    → Sums (reduce_block i c) (reduce_block i c1) (reduce_block i c2)
unfolding reduce_block
reduce_block_sum i c c1 c2 s n = elim (Bool-cases (n == i)) [
  | inl e ↦ rw e (sym (zero-xor 0))
  | inr e ↦ elim (Bool-cases (n == i - 4)) [
    | inl f ↦ rw (e, f, s n, s i, upper_sum (c1 i) (c2 i)) (swap_middle (c1 n) (c2 n) _ _)
    | inr f ↦ elim (Bool-cases (n == i - 3)) [
      | inl g ↦ rw (e, f, g, s n, s i, lower_sum (c1 i) (c2 i)) (swap_middle (c1 n) (c2 n) _ _)
      | inr g ↦ rw (e, f, g) (s n)
    ]
  ]
]

reduce_last_sum :
    (c c1 c2 : Words) → Sums c c1 c2 → Sums (reduce_last c) (reduce_last c1) (reduce_last c2)
unfolding reduce_last
reduce_last_sum c c1 c2 s n =
    let top : shr (c 3) 16 ≡ bit_xor (shr (c1 3) 16) (shr (c2 3) 16) =
      ap (λ t. shr t 16) (s 3) ∙ shr-xor (c1 3) (c2 3) 16 in
    elim (Bool-cases (n == 0)) [
      | inl e ↦
          rw (e, top, s n, last_sum (shr (c1 3) 16) (shr (c2 3) 16)) (swap_middle (c1 n) (c2 n) _ _)
      | inr e ↦ elim (Bool-cases (n == 3)) [
        | inl f ↦ rw (e, f, s n) (and-xor (c1 n) (c2 n) 65535)
        | inr f ↦ rw (e, f) (s n)
      ]
    ]

-- The product of a sum with a factor is the sum of the products, byte by byte.
pub product_sum :
    (z x y right : Bytes) (i : ℕ)
    → IsSum z x y field_size
    → i < field_size
    → at 0 (product z right) i ≡ bit_xor (at 0 (product x right) i) (at 0 (product y right) i)
unfolding product from_words
product_sum z x y right i s h =
    let loops =
      mul_loop_sum 0 64 _ _ _ (to_words right) (λ _. 0) (λ _. 0) (λ _. 0) (to_words_sum z x y s)
        (λ _. sym (zero-xor 0)) in
    let reduced = reduce_last_sum _ _ _ (
      reduce_block_sum 4 _ _ _
        (reduce_block_sum 5 _ _ _ (reduce_block_sum 6 _ _ _ (reduce_block_sum 7 _ _ _ loops)))) in
    at-table 0 field_size _ i h
    ∙ ap (λ t. bit_and (shr t (i % 8 * 8)) 255) (reduced (i / 8))
    ∙ ap (λ t. bit_and t 255) (shr-xor _ _ (i % 8 * 8))
    ∙ and-xor _ _ 255
    ∙ sym (ap₂ bit_xor (at-table 0 field_size _ i h) (at-table 0 field_size _ i h))

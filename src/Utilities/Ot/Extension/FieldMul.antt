-- ===== src/Utilities/Ot/Extension/FieldMul.antt =====
-- `field_mul` of dkls23-core/src/utilities/ot/extension.rs: the product in the field of
-- 2 ^ 208 elements. An array of `u64` is a function from the index, and the loops over the
-- words of `a` and the positions of `c` are one function of the position.
use kawasekit_dkls.Prelude.{
  ℕ, zero, suc, ◌+◌, ◌-◌, ◌*◌, ◌/◌, ◌%◌, ◌^◌, not, ◌||◌, ◌&&◌, Bytes, length, ltb, leb, ◌==◌,
  if◌then◌else◌, Result, ok, err, table, at, bit_xor, bit_or, nth_bit,
}
use Prim.Native.Nat.{bit_and}
use kawasekit_dkls.Utilities.Ot.{ErrorOt, malformed}
use kawasekit_dkls.Utilities.Ot.Extension.{field_size}

-- `<<` and `>>` on `u64`.
unfoldable pub shl : ℕ → ℕ → ℕ
shl word n = word * 2 ^ n % 2 ^ 64

unfoldable pub shr : ℕ → ℕ → ℕ
shr word n = word / 2 ^ n

abbrev pub Words : Type 0
Words = ℕ → ℕ

-- The bytes that the conversion loop writes to one word, from the i-th byte of `xs` on.
unfoldable pub or_bytes : Bytes → ℕ → ℕ → ℕ → ℕ
or_bytes xs word i zero = word
or_bytes xs word i (suc n) = or_bytes xs (bit_or word (shl (at 0 xs i) (i % 8 * 8))) (suc i) n

-- The conversion of [u8; 26] to words; byte i goes to word i / 8, so the last word gets two.
unfoldable pub to_words : Bytes → Words
to_words xs word = or_bytes xs 0 (word * 8) (if ltb word 3 then 8 else if word == 3 then 2 else 0)

-- `0u64.wrapping_sub(bit)`
unfoldable pub mask_of : ℕ → ℕ
mask_of bit = (2 ^ 64 - bit) % 2 ^ 64

-- `c[j + i] ^= b[i] & mask` for i in 0..=4.
unfoldable pub xor_masked : ℕ → ℕ → Words → Words → Words
xor_masked j mask b c position =
    if leb j position && leb position (j + 4)
    then bit_xor (c position) (bit_and (b (position - j)) mask)
    else c position

-- The loop over `j` in 0..4.
unfoldable pub comb : ℕ → ℕ → ℕ → Words → Words → Words → Words
comb k j zero a b c = c
comb k j (suc n) a b c = comb k (suc j) n a b (xor_masked j (mask_of (nth_bit (a j) k)) b c)

-- `b` shifted one digit to the left; in the last iteration only its first word is.
unfoldable pub shift_b : ℕ → Words → Words
shift_b k b i =
    if i == 0
    then shl (b 0) 1
    else if k == 63
    then b i
    else bit_or (shl (b i) 1) (shr (b (i - 1)) 63)

-- The loop over `k` in 0..64, n iterations before its end.
unfoldable pub mul_loop : ℕ → ℕ → Words → Words → Words → Words
mul_loop k zero a b c = c
mul_loop k (suc n) a b c = mul_loop (suc k) n a (shift_b k b) (comb k 0 4 a b c)

-- Block i is reduced modulo X ^ 208 + X ^ 9 + X ^ 3 + X + 1.
unfoldable pub reduce_block : ℕ → Words → Words
reduce_block i c position =
    let t = c i in
    if position == i
    then 0
    else if position == i - 4
    then bit_xor (c position)
        (bit_xor (bit_xor (bit_xor (shl t 57) (shl t 51)) (shl t 49)) (shl t 48))
    else if position == i - 3
    then bit_xor (c position)
        (bit_xor (bit_xor (bit_xor (shr t 7) (shr t 13)) (shr t 15)) (shr t 16))
    else c position

-- The 48 upper bits of c[3] are reduced, and its last 16 bits kept.
unfoldable pub reduce_last : Words → Words
reduce_last c position =
    let t = shr (c 3) 16 in
    if position == 0
    then bit_xor (c position) (bit_xor (bit_xor (bit_xor (shl t 9) (shl t 3)) (shl t 1)) t)
    else if position == 3
    then bit_and (c position) 65535
    else c position

unfoldable pub from_words : Words → Bytes
from_words c = table field_size (λ i. bit_and (shr (c (i / 8)) (i % 8 * 8)) 255)

unfoldable pub product : Bytes → Bytes → Bytes
product left right =
    let c = mul_loop 0 64 (to_words left) (to_words right) (λ _. 0) in
    from_words (reduce_last (reduce_block 4 (reduce_block 5 (reduce_block 6 (reduce_block 7 c)))))

unfoldable pub field_mul : Bytes → Bytes → Result ErrorOt Bytes
field_mul left right =
    if not (length left == field_size) || not (length right == field_size)
    then err (malformed "Binary field multiplication: entries don't have the correct length")
    else ok (product left right)

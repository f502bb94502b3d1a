-- ===== src/Utilities/Hashes/Injective.antt =====
-- The encoding under `tagged_hash` separates domains: it determines the tag and the components.
use kawasekit_dkls.Prelude.{
  ℕ, ◌^◌, ◌<◌, ◌≡◌, refl, sym, ap, ap₂, ◌∙◌, List, [], ◌∷◌, ◌++◌, append_assoc, length,
  length-append, append_cancel, All, Bytes, to_be_bytes, from_be_bytes, length-to_be_bytes,
  from-to_be_bytes, arith,
}
use kawasekit_dkls.Utilities.Hashes.{len_prefixed, encode_components, encoded}

-- A component's length fits the eight bytes of its prefix.
abbrev pub Fits : Bytes → Type 0
Fits c = length c < 256 ^ 8

to_be_bytes-injective :
    (w n m : ℕ) → n < 256 ^ w → m < 256 ^ w → to_be_bytes w n ≡ to_be_bytes w m → n ≡ m
to_be_bytes-injective w n m hn hm e =
    sym (from-to_be_bytes w n hn) ∙ ap (from_be_bytes 0) e ∙ from-to_be_bytes w m hm

-- A component can be told apart from what follows it.
len_prefixed_cancel :
    (c d : Bytes) {r s : Bytes}
    → Fits c
    → Fits d
    → len_prefixed c ++ r ≡ len_prefixed d ++ s
    → (c ≡ d) × (r ≡ s)
unfolding len_prefixed
len_prefixed_cancel c d {r} {s} hc hd e =
    let (heads, tails) =
      append_cancel (to_be_bytes 8 (length c)) (to_be_bytes 8 (length d))
        (length-to_be_bytes 8 _ ∙ sym (length-to_be_bytes 8 _))
        (sym (append_assoc _ c r) ∙ e ∙ append_assoc _ d s) in
    append_cancel c d (to_be_bytes-injective 8 _ _ hc hd heads) tails

len_prefixed_nonempty : (c r : Bytes) → 0 < length (len_prefixed c ++ r)
unfolding len_prefixed
len_prefixed_nonempty c r = omega (
  arith,
  length-append (to_be_bytes 8 (length c) ++ c) r,
  length-append (to_be_bytes 8 (length c)) c,
  length-to_be_bytes 8 (length c),
)

encode_components-injective :
    (cs ds : List Bytes)
    → All Fits cs
    → All Fits ds
    → encode_components cs ≡ encode_components ds
    → cs ≡ ds
unfolding encode_components
encode_components-injective [] [] hc hd e = refl
encode_components-injective [] (d ∷ ds) hc hd e =
    absurd (omega (arith, len_prefixed_nonempty d (encode_components ds), ap length e))
encode_components-injective (c ∷ cs) [] hc hd e =
    absurd (omega (arith, len_prefixed_nonempty c (encode_components cs), ap length e))
encode_components-injective (c ∷ cs) (d ∷ ds) hc hd e =
    let (heads, tails) = len_prefixed_cancel c d hc.0 hd.0 e in
    let rest = encode_components-injective cs ds hc.1 hd.1 tails in ap₂ ◌∷◌ heads rest

-- Two inputs of `tagged_hash` with one encoding have the same tag and the same components, whose
-- lengths are below 2 ^ 64.
pub encoded-injective :
    (t u : Bytes) (cs ds : List Bytes)
    → All Fits (t ∷ cs)
    → All Fits (u ∷ ds)
    → encoded t cs ≡ encoded u ds
    → (t ≡ u) × (cs ≡ ds)
unfolding encoded
encoded-injective t u cs ds hc hd e =
    let (tags, rests) = len_prefixed_cancel t u hc.0 hd.0 e in
    (tags, encode_components-injective cs ds hc.1 hd.1 rests)

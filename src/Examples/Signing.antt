-- ===== src/Examples/Signing.antt =====
-- The theorems on signing at the field of seven elements.
use kawasekit_dkls.Prelude.{
  ℕ, ◌<◌, ◌≡◌, ◌≢◌, refl, List, [], ◌∷◌, Bool, true, false, Bytes, Option, none, some, ok, err,
  if◌then◌else◌, Bool-cases, inl, inr, arith, at, bytes_eq, ltb, ◌%◌, ap, ◌∙◌, replicate, ltb→lt,
}
use kawasekit_dkls.Backend.Toy.{of_nat, parse, Seven, n0, n1, n2, n3, n4, n5, n6}
use kawasekit_dkls.Backend.Wide.{wide, wide_field, wide_group}
use kawasekit_dkls.Protocols.{panics}
use kawasekit_dkls.Protocols.Signature.{Hex, HexLaws}
use kawasekit_dkls.Protocols.Signing.{
  parse_hex_to_scalar, reduce_hex_bytes, reduce_hash_bytes, verify_scalars, Party, SignData,
  Broadcast3to4, verify_ecdsa_signature,
}
use kawasekit_dkls.Protocols.Signing.PhaseFour.{
  assemble, normalized, recover, signature_point, recovery_id_of, sign_phase4,
}
use kawasekit_dkls.Protocols.Signing.Equation.{CurveLaws}
use kawasekit_dkls.Protocols.Signing.Honest.{HonestBroadcasts, sign_phase4-HonestBroadcasts}
use kawasekit_dkls.Protocols.Signing.Sound.{sign_phase4-total, sign_phase4-verify_ecdsa_signature}

-- Bytes that are written as themselves.
instance abbrev pub plain : Hex
plain = record { Text = Bytes; encode = λ bytes. bytes; decode = some }

instance pub plain_laws : HexLaws wide plain
plain_laws = record { decode-encode = λ a. refl }

from_to_repr : (a : Seven) → wide.from_repr (wide.to_repr a) ≡ some a
from_to_repr n0 = refl
from_to_repr n1 = refl
from_to_repr n2 = refl
from_to_repr n3 = refl
from_to_repr n4 = refl
from_to_repr n5 = refl
from_to_repr n6 = refl

x_point_neg : (p : Seven) → wide.x (wide.point_neg p) ≡ wide.x p
x_point_neg n0 = refl
x_point_neg n1 = refl
x_point_neg n2 = refl
x_point_neg n3 = refl
x_point_neg n4 = refl
x_point_neg n5 = refl
x_point_neg n6 = refl

is_high_neg : (a : Seven) → wide.is_high a ≡ true → wide.is_high (wide.neg a) ≡ false
is_high_neg n0 h = refl
is_high_neg n1 h = cc
is_high_neg n2 h = cc
is_high_neg n3 h = cc
is_high_neg n4 h = refl
is_high_neg n5 h = refl
is_high_neg n6 h = refl

reduce_byte :
    (b : ℕ) (a : Seven) → (if ltb b 7 then some (of_nat b) else none) ≡ some a → of_nat (b % 7) ≡ a
reduce_byte b a h = elim (Bool-cases (ltb b 7)) [
  | inl e ↦
      let lt : b < 7 = ltb→lt b 7 e in
      let small : b % 7 ≡ b = omega arith in
      let same : ◌≡◌ {A = Option Seven} (some (of_nat b)) (some a) = rw e at h in
      ap of_nat small ∙ cc
  | inr e ↦ let never : ◌≡◌ {A = Option Seven} none (some a) = rw e at h in cc
]

reduce_parse : (bytes : Bytes) (a : Seven) → parse bytes ≡ some a → wide.reduce bytes ≡ a
reduce_parse [] a h = cc
reduce_parse (b ∷ bs) a h = reduce_byte b a h

instance pub wide_curve : CurveLaws wide
wide_curve = record {
  from-to_repr = from_to_repr;
  reduce-repr = reduce_parse;
  x-point_neg = x_point_neg;
  is_high-neg = is_high_neg;
}

abbrev pub party : Party wide
party = record {
  parameters = record { threshold = 2; share_count = 2 };
  party_index = 1;
  session_id = replicate 32 1;
  poly_point = n3;
  pk = n3;
  zero_share = record { seeds = [] };
  mul_senders = [];
  mul_receivers = [];
  derivation_data = record {
    depth = 0;
    child_number = 0;
    parent_fingerprint = [];
    poly_point = n3;
    pk = n3;
    chain_code = replicate 32 5;
  };
  address = "";
}

abbrev pub sign_data : SignData
sign_data = record { sign_id = replicate 32 2; counterparties = 2 ∷ []; message_hash = 1 ∷ [] }

abbrev broadcasts : List (Broadcast3to4 wide)
broadcasts = record { u = n1; w = n2 } ∷ record { u = n1; w = n4 } ∷ []

-- The key is 3, the nonce is 2 and the mask is 1.
honest : HonestBroadcasts party sign_data (4 ∷ []) broadcasts n3 n2 n1 n4
unfolding assemble reduce_hash_bytes
honest = record {
  key = refl;
  numerator = refl;
  denominator = refl;
  x_decodes = refl;
  x_canonical = refl;
  point_ne = λ e. cc;
  k_ne = λ e. cc;
  phi_ne = λ e. cc;
  rx_ne = λ e. cc;
  sum_ne = λ e. cc;
}

sign_phase4-HonestBroadcasts_example :
    (signature : Bytes) × (rec_id : ℕ) × (sign_phase4 party sign_data (4 ∷ []) broadcasts true
      ≡ ok (signature, rec_id))
    × (verify_ecdsa_signature (1 ∷ []) n3 (4 ∷ []) signature ≡ true)
sign_phase4-HonestBroadcasts_example =
    sign_phase4-HonestBroadcasts party sign_data (4 ∷ []) broadcasts true n3 n2 n1 n4 honest

-- No broadcasts at all.
sign_phase4-total_example : sign_phase4 party sign_data (4 ∷ []) [] true ≢ err panics
sign_phase4-total_example = sign_phase4-total party sign_data (4 ∷ []) [] true

signature-ok : sign_phase4 party sign_data (4 ∷ []) broadcasts true ≡ ok (3 ∷ [], 0)
unfolding sign_phase4 assemble normalized recover signature_point recovery_id_of
    verify_ecdsa_signature parse_hex_to_scalar verify_scalars reduce_hash_bytes reduce_hex_bytes at
    bytes_eq
signature-ok = refl

sign_phase4-verify_ecdsa_signature_example :
    (verify_ecdsa_signature (1 ∷ []) n3 (4 ∷ []) (3 ∷ []) ≡ true)
    × (s : Seven) × (◌≡◌ {A = Bytes} (3 ∷ []) (plain.encode (wide.to_repr s)))
    × (◌≡◌ {A = Bool} true true → wide.is_high s ≡ false)
sign_phase4-verify_ecdsa_signature_example =
    sign_phase4-verify_ecdsa_signature party sign_data (4 ∷ []) broadcasts true (3 ∷ []) 0
      signature-ok

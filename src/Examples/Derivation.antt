-- ===== src/Examples/Derivation.antt =====
-- The theorem on derivation, along a path of two children.
use kawasekit_dkls.Prelude.{
  some, get, ℕ, ◌+◌, ◌≡◌, ◌≤◌, refl, List, [], ◌∷◌, Bytes, ok, bytes_eq, length, arith,
}
use kawasekit_dkls.Backend.{◌⊕◌, ◌⊞◌, ◌•◌}
use kawasekit_dkls.Backend.Toy.{Seven, n1, n3, n4, n5, n6}
use kawasekit_dkls.Backend.Wide.{wide, wide_field, wide_group}
use kawasekit_dkls.Protocols.Signing.{DerivData}
use kawasekit_dkls.Protocols.Derivation.{
  package_derive_child, DerivHashes, split, digits, parse_u32, parse_parts, parse_path, tweak_of,
  child_tweak, derive_child, derive_all, derive_from_path,
}
use kawasekit_dkls.Protocols.Derivation.Shift.{derive_from_path-shift}
use kawasekit_dkls.Protocols.Derivation.Package.{package_derive_child-derive_child}
use kawasekit_dkls.Protocols.{PublicKeyPackage}

instance abbrev hashes : DerivHashes
hashes = record { hmac_sha512 = λ _ _. 2 ∷ []; ripemd160 = λ _. 1 ∷ 2 ∷ 3 ∷ 4 ∷ 5 ∷ [] }

abbrev start : DerivData wide
start = record {
  depth = 0;
  child_number = 0;
  parent_fingerprint = [];
  poly_point = n4;
  pk = n1;
  chain_code = [];
}

abbrev final : DerivData wide
final = record {
  depth = 2;
  child_number = 12;
  parent_fingerprint = 1 ∷ 2 ∷ 3 ∷ 4 ∷ [];
  poly_point = n1;
  pk = n5;
  chain_code = [];
}

-- The path m/7/12.
abbrev path : Bytes
path = 109 ∷ 47 ∷ 55 ∷ 47 ∷ 49 ∷ 50 ∷ []

derived : derive_from_path start path ≡ ok final
unfolding split digits parse_u32 parse_parts parse_path tweak_of child_tweak derive_child derive_all
    derive_from_path bytes_eq
derived = refl

derive_from_path-shift_example :
    (t : Seven) × ((p : Seven)
      → derive_from_path (record start { poly_point = p }) path
        ≡ ok (record final { poly_point = p ⊕ t }))
    × (n1 ≡ n4 ⊕ t)
    × (n5 ≡ n1 • t ⊞ n1)
    × (nums : List ℕ) × (parse_path path ≡ ok nums)
    × (2 ≡ 0 + length nums)
    × (2 ≤ 255)
derive_from_path-shift_example = derive_from_path-shift start path final (omega arith) derived

abbrev child : DerivData wide
child = record {
  depth = 1;
  child_number = 7;
  parent_fingerprint = 1 ∷ 2 ∷ 3 ∷ 4 ∷ [];
  poly_point = n6;
  pk = n3;
  chain_code = [];
}

abbrev key_package : PublicKeyPackage wide
key_package = record {
  verifying_key = n1;
  verifying_shares = (1, n4) ∷ (2, n5) ∷ [];
  parameters = record { threshold = 2; share_count = 2 };
}

first_child : derive_child start 7 ≡ ok child
unfolding tweak_of child_tweak derive_child bytes_eq
first_child = refl

package_derive_child-derive_child_example :
    (derived : PublicKeyPackage wide) × (package_derive_child key_package [] 7 ≡ ok derived)
    × (derived.verifying_key ≡ n3)
    × (t : Seven) × (n6 ≡ n4 ⊕ t)
    × ((i : ℕ) (p : Seven)
        → get i key_package.verifying_shares ≡ some (n1 • p)
        → get i derived.verifying_shares ≡ some (n1 • (p ⊕ t)))
package_derive_child-derive_child_example =
    package_derive_child-derive_child key_package start child 7 refl first_child

-- ===== src/Protocols/Derivation.antt =====
-- dkls23-core/src/protocols/derivation.rs: non-hardened BIP-32. HMAC-SHA512 and RIPEMD-160 are
-- third-party code. A path is the list of its characters' codes.
pub mod Shift
pub mod Package
use Prim.Native.String.{String}
use kawasekit_dkls.Prelude.{
  ℕ, ◌+◌, ◌*◌, ◌-◌, ◌%◌, List, [], ◌∷◌, ◌++◌, Bool, true, false, not, ◌&&◌, ◌||◌, ◌==◌, ltb, leb,
  if◌then◌else◌, Bytes, bytes_eq, length, take, drop, to_be_bytes, ascii, Option, none, some,
  BTreeMap, Result, ok, err, ok_or, ◌>>=◌, ◌>>◌, fail_if,
}
use kawasekit_dkls.Backend.{Backend, ◌⊕◌, ◌⊞◌, ◌•◌, ◌=ₚ◌}
use kawasekit_dkls.Utilities.Hashes.{point_to_bytes}
use kawasekit_dkls.Protocols.{PublicKeyPackage}
use kawasekit_dkls.Protocols.Signing.{DerivData, Party}

-- `Hmac::<Sha512>` of a key and a message, and `Ripemd160::digest`.
pub record DerivHashes : Type 0 where
  pub hmac_sha512 : Bytes → Bytes → Bytes
  pub ripemd160 : Bytes → Bytes

pub record ErrorDeriv : Type 0 where
  pub description : String

unfoldable pub error_deriv : String → ErrorDeriv
error_deriv description = record { description = description }

abbrev pub chain_code_len : ℕ
chain_code_len = 32

abbrev pub max_depth : ℕ
max_depth = 255

-- `i32::MAX`
abbrev pub max_child_number : ℕ
max_child_number = 2147483647

-- `str::split` at the character `/`.
unfoldable pub split : Bytes → List Bytes
split [] = [] ∷ []
split (c ∷ cs) = elim (split cs) [
  | [] ↦ []
  | part ∷ parts ↦ if c == 47 then [] ∷ part ∷ parts else (c ∷ part) ∷ parts
]

-- The digits of a `u32`, after those read so far.
unfoldable pub digits : ℕ → Bytes → Option ℕ
digits acc [] = some acc
digits acc (c ∷ cs) =
    let rest = digits (acc * 10 + (c - 48)) cs in
    if leb 48 c && leb c 57 && ltb (acc * 10 + (c - 48)) 4294967296 then rest else none

-- `str::parse::<u32>`, which allows a plus sign.
unfoldable pub parse_u32 : Bytes → Option ℕ
parse_u32 [] = none
parse_u32 (c ∷ []) = digits 0 (c ∷ [])
parse_u32 (c ∷ d ∷ cs) = if c == 43 then digits 0 (d ∷ cs) else digits 0 (c ∷ d ∷ cs)

-- The loop over the parts of a path.
unfoldable pub parse_parts : List Bytes → Result ErrorDeriv (List ℕ)
parse_parts [] = ok []
parse_parts (part ∷ parts) =
    ok_or (error_deriv "Invalid path format or index out of bounds!") (parse_u32 part) >>= λ num.
    fail_if (ltb max_child_number num) (error_deriv "Invalid path format or index out of bounds!")
    >> parse_parts parts
    >>= λ nums. ok (num ∷ nums)

unfoldable pub parse_path : Bytes → Result ErrorDeriv (List ℕ)
parse_path path = elim (split path) [
  | [] ↦ err (error_deriv "Invalid path format!")
  | first ∷ parts ↦
      fail_if (not (bytes_eq first (ascii "m"))) (error_deriv "Invalid path format!")
      >> parse_parts parts
      >>= λ path_parsed.
          fail_if (ltb max_depth (length path_parsed)) (error_deriv "The path is too long!")
          >> ok path_parsed
]

module _ ⦃B : Backend⦄ ⦃H : DerivHashes⦄ where
  -- The tweak and the chain code of a child, from its parent's public data.
  unfoldable pub tweak_of : Bytes → B.Point → ℕ → Result ErrorDeriv (B.Scalar × Bytes)
  tweak_of chain_code pk child_number =
      let hmac_bytes = H.hmac_sha512 chain_code (point_to_bytes pk ++ to_be_bytes 4 child_number) in
      let tweak_bytes = take chain_code_len hmac_bytes in
      let tweak = B.reduce tweak_bytes in
      fail_if (not (bytes_eq (B.to_repr tweak) tweak_bytes))
        (error_deriv "BIP-32: HMAC left half >= curve order, child index is invalid")
      >> ok (tweak, drop chain_code_len hmac_bytes)

  unfoldable pub child_tweak : DerivData B → ℕ → Result ErrorDeriv (B.Scalar × Bytes × Bytes)
  child_tweak parent child_number = tweak_of parent.chain_code parent.pk child_number >>= λ made.
      ok (made.0, made.1, take 4 (H.ripemd160 (B.sha256 (point_to_bytes parent.pk))))

  unfoldable pub derive_child : DerivData B → ℕ → Result ErrorDeriv (DerivData B)
  derive_child parent child_number =
      fail_if (parent.depth == max_depth) (error_deriv "We are already at maximum depth!")
      >> fail_if (ltb max_child_number child_number)
          (error_deriv "Child index should be between 0 and 2^31 - 1!")
      >> child_tweak parent child_number
      >>= λ made.
          let new_pk = B.generator • made.0 ⊞ parent.pk in
          fail_if (new_pk =ₚ B.identity)
            (error_deriv "Very improbable: Child index results in value not allowed by BIP-32!")
          >> ok (record {
            depth = (parent.depth + 1) % 256;
            child_number = child_number;
            parent_fingerprint = made.2;
            poly_point = parent.poly_point ⊕ made.0;
            pk = new_pk;
            chain_code = made.1;
          })

  -- The loop over a parsed path.
  unfoldable pub derive_all : DerivData B → List ℕ → Result ErrorDeriv (DerivData B)
  derive_all final_data [] = ok final_data
  derive_all final_data (n ∷ ns) = derive_child final_data n >>= λ child. derive_all child ns

  unfoldable pub derive_from_path : DerivData B → Bytes → Result ErrorDeriv (DerivData B)
  derive_from_path start path = parse_path path >>= derive_all start

  -- The party of derived data. The address function is an argument, as in the source.
  unfoldable pub with_data : Party B → (B.Point → String) → DerivData B → Party B
  with_data party address_fn new_derivation_data = record party {
    poly_point = new_derivation_data.poly_point;
    pk = new_derivation_data.pk;
    derivation_data = new_derivation_data;
    address = address_fn new_derivation_data.pk;
  }

  unfoldable pub party_derive_child : Party B → ℕ → (B.Point → String) → Result ErrorDeriv (Party B)
  party_derive_child party child_number address_fn =
      derive_child party.derivation_data child_number >>= λ child.
      ok (with_data party address_fn child)

  unfoldable pub party_derive_from_path :
      Party B → Bytes → (B.Point → String) → Result ErrorDeriv (Party B)
  party_derive_from_path party path address_fn =
      derive_from_path party.derivation_data path >>= λ child. ok (with_data party address_fn child)

  unfoldable pub shift_shares : B.Point → BTreeMap B.Point → BTreeMap B.Point
  shift_shares tweak_point [] = []
  shift_shares tweak_point (e ∷ es) = (e.0, tweak_point ⊞ e.1) ∷ shift_shares tweak_point es

  unfoldable pub package_derive_child :
      PublicKeyPackage B → Bytes → ℕ → Result ErrorDeriv (PublicKeyPackage B)
  package_derive_child pkg chain_code child_number =
      fail_if (ltb max_child_number child_number)
        (error_deriv "Child index should be between 0 and 2^31 - 1!")
      >> tweak_of chain_code pkg.verifying_key child_number
      >>= λ made.
          let tweak_point = B.generator • made.0 in
          let new_verifying_key = tweak_point ⊞ pkg.verifying_key in
          fail_if (new_verifying_key =ₚ B.identity)
            (error_deriv "Very improbable: Child index results in value not allowed by BIP-32!")
          >> ok (record {
            verifying_key = new_verifying_key;
            verifying_shares = shift_shares tweak_point pkg.verifying_shares;
            parameters = pkg.parameters;
          })

-- ===== src/Utilities/Multiplication.antt =====
-- dkls23-core/src/utilities/multiplication.rs: two-party multiplication over the OT extension.
-- `Sender` and `Receiver` are the two parties.
pub mod Sender
pub mod Receiver
pub mod Sums
pub mod Rows
pub mod Agree
pub mod Product
pub mod Bans
use Prim.Native.String.{String, ◌++◌ as join}
use kawasekit_dkls.Prelude.{
  ℕ, zero, suc, ◌+◌, ◌*◌, List, [], ◌∷◌, ◌++◌, Bool, Bytes, ascii, concat, to_be_bytes, table, at,
  Result, ok, err, ltb, length,
}
use kawasekit_dkls.Backend.{Backend, ◌⊕◌, ◌⊗◌}
use kawasekit_dkls.Utilities.OracleTags.{
  tag_mul_gadget, tag_mul_chi_tilde, tag_mul_chi_hat, tag_mul_verify,
}
use kawasekit_dkls.Utilities.Hashes.{tagged_hash, tagged_hash_as_scalar, scalar_to_bytes}
use kawasekit_dkls.Utilities.Ot.{ErrorOt, OtErrorKind, consistency_failure, malformed_message}
use kawasekit_dkls.Utilities.Ot.Extension.{batch_size, OteSender, OteReceiver, OteDataToSender}

-- `L`
unfoldable pub l : ℕ
l = 2

unfoldable pub ot_width : ℕ
ot_width = 2 * l

pub record MulSender (B : Backend) : Type 0 where
  pub public_gadget : List B.Scalar
  pub ote_sender : OteSender

pub record MulReceiver (B : Backend) : Type 0 where
  pub public_gadget : List B.Scalar
  pub ote_receiver : OteReceiver

pub record MulDataToReceiver (B : Backend) : Type 0 where
  pub vector_of_tau : List (List B.Scalar)
  pub verify_r : Bytes
  pub verify_u : List B.Scalar
  pub gamma_sender : List B.Scalar

pub record MulDataToKeepReceiver (B : Backend) : Type 0 where
  pub b : B.Scalar
  pub choice_bits : List Bool
  pub extended_seeds : List Bytes
  pub chi_tilde : List B.Scalar
  pub chi_hat : List B.Scalar

pub data MulErrorKind : Type 0 where
  mul_consistency_failure mul_malformed_message : MulErrorKind

pub record ErrorMul : Type 0 where
  pub description : String
  pub kind : MulErrorKind

unfoldable pub mul_consistency : String → ErrorMul
mul_consistency description = record { description = description; kind = mul_consistency_failure }

unfoldable pub mul_malformed : String → ErrorMul
mul_malformed description = record { description = description; kind = mul_malformed_message }

-- The classification of the error; the description gets a prefix. None of the descriptions has a
-- character that the format `{:?}` escapes.
unfoldable pub from_ot : ErrorOt → ErrorMul
from_ot error = record {
  description = join "OTE error during multiplication: \"" (join error.description "\"");
  kind = elim error.kind [
    | consistency_failure ↦ mul_consistency_failure
    | malformed_message ↦ mul_malformed_message
  ];
}

-- What ends a run without a value: the error that it returns, or the panic of an index that is out
-- of range.
pub data MulFailure : Type 0 where
  mul_fails : ErrorMul → MulFailure
  mul_panics : MulFailure

unfoldable pub map_from_ot {ℓ} : {A : Type ℓ} → Result ErrorOt A → Result MulFailure A
map_from_ot (ok value) = ok value
map_from_ot (err error) = err (mul_fails (from_ot error))

-- Does a vector end before the indices `0..n` do?
abbrev pub too_short {ℓ} : {A : Type ℓ} → List A → ℕ → Bool
too_short v n = ltb (length v) n

unfoldable pub ote_session_id : Bytes → Bytes
ote_session_id session_id = ascii "OT Extension protocol" ++ session_id

unfoldable pub transcript_of : OteDataToSender → Bytes
transcript_of received = concat received.u ++ received.verify_x ++ concat received.verify_t

module _ ⦃B : Backend⦄ where
  -- The loop that derives the public gadget vector from a counter.
  unfoldable pub gadget_from : Bytes → B.Scalar → ℕ → List B.Scalar
  gadget_from session_id counter zero = []
  gadget_from session_id counter (suc n) =
      let next = counter ⊕ B.one in
      tagged_hash_as_scalar tag_mul_gadget (session_id ∷ scalar_to_bytes next ∷ [])
      ∷ gadget_from session_id next n

  unfoldable pub gadget_of : Bytes → B.Scalar → List B.Scalar
  gadget_of session_id nonce = gadget_from session_id nonce batch_size

  -- The shared random values.
  unfoldable pub chi_tilde_of : Bytes → Bytes → List B.Scalar
  chi_tilde_of session_id transcript = table l (λ i.
      tagged_hash_as_scalar tag_mul_chi_tilde (session_id ∷ to_be_bytes 1 i ∷ transcript ∷ []))

  unfoldable pub chi_hat_of : Bytes → Bytes → List B.Scalar
  chi_hat_of session_id transcript =
      table l (λ i.
        tagged_hash_as_scalar tag_mul_chi_hat (session_id ∷ to_be_bytes 1 i ∷ transcript ∷ []))

  -- The element of a matrix of scalars.
  unfoldable pub cell : List (List B.Scalar) → ℕ → ℕ → B.Scalar
  cell matrix i j = at B.zero (at [] matrix i) j

  -- The hash of the matrix r, given by its entries.
  unfoldable pub verify_r_of : Bytes → (ℕ → ℕ → B.Scalar) → Bytes
  verify_r_of session_id entry =
      let rows_r_as_bytes =
        table l (λ i. concat (table batch_size (λ j. scalar_to_bytes (entry i j)))) in
      tagged_hash tag_mul_verify (session_id ∷ concat rows_r_as_bytes ∷ [])

  -- `for j in 0..n { acc += f(j) }`
  unfoldable pub sum_to : B.Scalar → ℕ → ℕ → (ℕ → B.Scalar) → B.Scalar
  sum_to acc j zero f = acc
  sum_to acc j (suc n) f = sum_to (acc ⊕ f j) (suc j) n f

  -- `summation` of the last step. Both runs test first that the gadget vector is long enough.
  unfoldable pub gadget_sum : List B.Scalar → List (List B.Scalar) → ℕ → B.Scalar
  gadget_sum public_gadget z i =
      sum_to B.zero 0 batch_size (λ j. at B.zero public_gadget j ⊗ cell z i j)

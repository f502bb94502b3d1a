-- ===== src/Utilities/Ot/Extension.antt =====
-- dkls23-core/src/utilities/ot/extension.rs: the OT extension of KOS with the transfer of
-- DKLs18. `FieldMul` and `Transpose` are the functions at the end of the file, `Sender` and
-- `Receiver` the two parties.
pub mod FieldMul
pub mod Transpose
pub mod Sender
pub mod Receiver
pub mod Correlation
pub mod Seeds
pub mod Words
pub mod Linear
pub mod Check
pub mod Agree
pub mod Transfer
use kawasekit_dkls.Prelude.{
  ℕ, zero, suc, ◌+◌, ◌*◌, ◌/◌, List, [], ◌∷◌, ◌++◌, Bool, false, Bytes, length, take, to_be_bytes,
  leb, if◌then◌else◌, table, at, bit, or_shifted,
}
use kawasekit_dkls.Backend.{Backend}
use kawasekit_dkls.Utilities.OracleTags.{tag_ote_prg, tag_ote_chi, tag_ote_randomize}
use kawasekit_dkls.Utilities.Hashes.{tagged_hash, tagged_hash_as_scalar}

-- `RAW_SECURITY` and `STAT_SECURITY` of lib.rs.
unfoldable pub raw_security : ℕ
raw_security = 256

unfoldable pub stat_security : ℕ
stat_security = 80

unfoldable pub kappa : ℕ
kappa = raw_security

unfoldable pub base_security : ℕ
base_security = 128

unfoldable pub ot_security : ℕ
ot_security = base_security + stat_security

unfoldable pub batch_size : ℕ
batch_size = raw_security + 2 * stat_security

unfoldable pub extended_batch_size : ℕ
extended_batch_size = batch_size + ot_security

-- The length of a `PRGOutput` and of a `FieldElement` in bytes.
unfoldable pub prg_data_size : ℕ
prg_data_size = extended_batch_size / 8

unfoldable pub field_size : ℕ
field_size = ot_security / 8

pub record OteSender : Type 0 where
  pub correlation : List Bool
  pub seeds : List Bytes

pub record OteReceiver : Type 0 where
  pub seeds0 : List Bytes
  pub seeds1 : List Bytes

pub record OteDataToSender : Type 0 where
  pub u : List Bytes
  pub verify_x : Bytes
  pub verify_t : List Bytes

-- Bits "in compressed form", as the little-endian representation of a number of `n` bytes.
unfoldable pub compress : ℕ → List Bool → Bytes
compress n bits = table n (λ i. or_shifted 0 (λ k. bit (at false bits (i * 8 + k))) 0 8)

module _ ⦃B : Backend⦄ where
  -- The `count`-th chunk that a seed gives.
  unfoldable pub prg_chunk : Bytes → ℕ → Bytes → ℕ → Bytes
  prg_chunk session_id i seed count =
      tagged_hash tag_ote_prg (session_id ∷ to_be_bytes 2 i ∷ to_be_bytes 2 count ∷ seed ∷ [])

  -- The sender's loop `while prg.len() < EXTENDED_BATCH_SIZE / 8`, on fuel.
  unfoldable pub prg_loop : ℕ → Bytes → ℕ → Bytes → ℕ → Bytes → Bytes
  prg_loop zero session_id i seed count prg = prg
  prg_loop (suc fuel) session_id i seed count prg =
      let longer =
        prg_loop fuel session_id i seed (suc count) (prg ++ prg_chunk session_id i seed count) in
      if leb prg_data_size (length prg) then prg else longer

  -- The receiver's loop, which extends both seeds while the first is short.
  unfoldable pub prg_loop_both : ℕ → Bytes → ℕ → Bytes → Bytes → ℕ → Bytes → Bytes → Bytes × Bytes
  prg_loop_both zero session_id i seed0 seed1 count prg0 prg1 = (prg0, prg1)
  prg_loop_both (suc fuel) session_id i seed0 seed1 count prg0 prg1 =
      let longer =
        prg_loop_both fuel session_id i seed0 seed1 (suc count)
          (prg0 ++ prg_chunk session_id i seed0 count)
          (prg1 ++ prg_chunk session_id i seed1 count) in
      if leb prg_data_size (length prg0) then (prg0, prg1) else longer

  unfoldable pub extend_seed : Bytes → ℕ → Bytes → Bytes
  extend_seed session_id i seed = take prg_data_size (prg_loop prg_data_size session_id i seed 0 [])

  unfoldable pub extend_seeds : Bytes → ℕ → Bytes → Bytes → Bytes × Bytes
  extend_seeds session_id i seed0 seed1 =
      let (prg0, prg1) = prg_loop_both prg_data_size session_id i seed0 seed1 0 [] [] in
      (take prg_data_size prg0, take prg_data_size prg1)

  -- `chi1` and `chi2`.
  unfoldable pub chi : Bytes → Bytes → Bytes → Bytes
  chi session_id label msg =
      take field_size (tagged_hash tag_ote_chi (session_id ∷ label ∷ msg ∷ []))

  -- The scalar that a row of the transposed matrix gives.
  unfoldable pub randomize : Bytes → ℕ → ℕ → Bytes → B.Scalar
  randomize session_id iteration j row =
      tagged_hash_as_scalar tag_ote_randomize
        (session_id ∷ to_be_bytes 2 j ∷ to_be_bytes 1 iteration ∷ row ∷ [])

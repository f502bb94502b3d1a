-- ===== src/Utilities.antt =====
-- dkls23-core/src/utilities: what the protocols are built from.
pub mod OracleTags
pub mod Hashes
pub mod Commits
pub mod ZeroShares
pub mod Proofs
pub mod Ot
pub mod Multiplication
use kawasekit_dkls.Prelude.{ℕ}

-- `ID_LEN`, the length of a session or sign id in bytes.
abbrev pub id_len : ℕ
id_len = 32

-- `SECURITY` of lib.rs, the length of seeds, salts and hash outputs in bytes.
abbrev pub security : ℕ
security = 32

-- `PROTOCOL_VERSION` of lib.rs.
abbrev pub protocol_version : ℕ
protocol_version = 1

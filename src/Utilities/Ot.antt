-- ===== src/Utilities/Ot.antt =====
-- dkls23-core/src/utilities/ot.rs: the errors of oblivious transfer. `Base` is ot/base.rs.
pub mod Base
pub mod Extension
use Prim.Native.String.{String}

-- Only a `consistency_failure` bans the counterparty.
pub data OtErrorKind : Type 0 where
  consistency_failure malformed_message : OtErrorKind

pub record ErrorOt : Type 0 where
  pub description : String
  pub kind : OtErrorKind

abbrev pub malformed : String → ErrorOt
malformed description = record { description = description; kind = malformed_message }

abbrev pub consistency : String → ErrorOt
consistency description = record { description = description; kind = consistency_failure }

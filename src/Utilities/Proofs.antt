-- ===== src/Utilities/Proofs.antt =====
-- dkls23-core/src/utilities/proofs.rs: zero-knowledge proofs. This file has what both kinds of
-- proof share; `DLog` and `Enc` model the two kinds.
pub mod DLog
pub mod Enc
pub mod Schnorr
use kawasekit_dkls.Prelude.{ℕ, zero, suc, if◌then◌else◌}
use kawasekit_dkls.Backend.{Backend, ◌=ₛ◌}

module _ ⦃B : Backend⦄ where
  -- `while s == ZERO { s = random() }` over the draws `draw 0`, `draw 1`, ...; the loop is given
  -- `tries` draws after the first one.
  unfoldable pub nonzero_draw : ℕ → (ℕ → B.Scalar) → B.Scalar
  nonzero_draw zero draw = draw 0
  nonzero_draw (suc tries) draw =
      let rest = nonzero_draw tries (λ i. draw (suc i)) in if draw 0 =ₛ B.zero then rest else draw 0

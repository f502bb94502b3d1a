-- ===== src/Prelude/Maps.antt =====
-- `BTreeMap` with numbers for keys: an association list in the order of the keys.
use mathlib.Core.Path.{◌≡◌, refl}
use mathlib.Core.List.{List, [], ◌∷◌}
use mathlib.Core.Option.{Option, none, some}
use native.Mathlib.Omega.{arith}
use Prim.Native.Nat.{ℕ}
use kawasekit_dkls.Prelude.Tests.{◌==◌, ltb, if◌then◌else◌}

abbrev pub BTreeMap {ℓ} : Type ℓ → Type ℓ
BTreeMap V = List (ℕ × V)

module _ {ℓ} {V : Type ℓ} where
  unfoldable pub insert : ℕ → V → BTreeMap V → BTreeMap V
  insert k v [] = (k, v) ∷ []
  insert k v (e ∷ m) =
      let rest = insert k v m in
      if k == e.0 then (k, v) ∷ m else if ltb k e.0 then (k, v) ∷ e ∷ m else e ∷ rest

  unfoldable pub get : ℕ → BTreeMap V → Option V
  get k [] = none
  get k (e ∷ m) = let rest = get k m in if k == e.0 then some e.1 else rest

  pub get-insert :
      (k j : ℕ) (v : V) (m : BTreeMap V)
      → get k (insert j v m) ≡ (if k == j then some v else get k m)
  unfolding get insert
  get-insert k j v [] = refl
  get-insert k j v (e ∷ m) = ground (arith, get-insert k j v m)

-- ===== src/Prelude/Tables.antt =====
-- Vectors that a loop `for i in 0..n` fills, and reading an index.
use Prim.Native.Nat.{ℕ, zero, suc, ◌+◌, ◌<◌}
use mathlib.Core.Path.{◌≡◌, refl, ap, ap₂, ◌∙◌}
use mathlib.Core.List.{List, [], ◌∷◌, ◌++◌, map}
use native.Mathlib.Omega.{arith}
use kawasekit_dkls.Prelude.Lists.{All, length, range, take, drop, length-map, length-range}

module _ {ℓ} {A : Type ℓ} where
  -- `xs[i]`; the default stands where the source panics.
  unfoldable pub at : A → List A → ℕ → A
  at default [] i = default
  at default (x ∷ xs) zero = x
  at default (x ∷ xs) (suc i) = at default xs i

  unfoldable pub table : ℕ → (ℕ → A) → List A
  table n f = map f (range 0 n)

  at-map-range :
      (default : A) (f : ℕ → A) (lo n i : ℕ)
      → i < n
      → at default (map f (range lo n)) i ≡ f (lo + i)
  unfolding at
  at-map-range default f lo zero i h = absurd (omega arith)
  at-map-range default f lo (suc n) zero h = ap f {x = lo} (omega arith)
  at-map-range default f lo (suc n) (suc i) h =
      at-map-range default f (suc lo) n i (omega arith)
      ∙ ap f {x = suc lo + i} {y = lo + suc i} (omega arith)

  pub at-table : (default : A) (n : ℕ) (f : ℕ → A) (i : ℕ) → i < n → at default (table n f) i ≡ f i
  unfolding table
  at-table default n f i h = at-map-range default f 0 n i h ∙ ap f {x = 0 + i} (omega arith)

  map-range_congr :
      (f g : ℕ → A) (lo n : ℕ)
      → ((i : ℕ) → i < lo + n → f i ≡ g i)
      → map f (range lo n) ≡ map g (range lo n)
  map-range_congr f g lo zero h = refl
  map-range_congr f g lo (suc n) h =
      ap₂ ◌∷◌ (h lo (omega arith)) (map-range_congr f g (suc lo) n (λ i p. h i (omega arith)))

  pub table_congr : (n : ℕ) (f g : ℕ → A) → ((i : ℕ) → i < n → f i ≡ g i) → table n f ≡ table n g
  unfolding table
  table_congr n f g h = map-range_congr f g 0 n (λ i p. h i (omega arith))

  pub length-table : (n : ℕ) (f : ℕ → A) → length (table n f) ≡ n
  unfolding table
  length-table n f = length-map f (range 0 n) ∙ length-range 0 n

  pub at-append_left :
      (default : A) (xs ys : List A) (i : ℕ)
      → i < length xs
      → at default (xs ++ ys) i ≡ at default xs i
  unfolding at
  at-append_left default [] ys i h = absurd (omega arith)
  at-append_left default (x ∷ xs) ys zero h = refl
  at-append_left default (x ∷ xs) ys (suc i) h = at-append_left default xs ys i (omega arith)

-- The element of a table of tables.
pub at-at-table {ℓ} :
    {A : Type ℓ} (default : A) (n m : ℕ) (f : ℕ → ℕ → A) (i j : ℕ)
    → i < n
    → j < m
    → at default (at [] (table n (λ i. table m (f i))) i) j ≡ f i j
at-at-table default n m f i j hi hj =
    ap (λ row. at default row j) (at-table [] n (λ i. table m (f i)) i hi)
    ∙ at-table default m (f i) j hj

module _ {ℓ} {A : Type ℓ} where
  pub at-take :
      (default : A) (n : ℕ) (xs : List A) (i : ℕ)
      → i < n
      → at default (take n xs) i ≡ at default xs i
  unfolding at
  at-take default zero xs i h = absurd (omega arith)
  at-take default (suc n) [] i h = refl
  at-take default (suc n) (x ∷ xs) zero h = refl
  at-take default (suc n) (x ∷ xs) (suc i) h = at-take default n xs i (omega arith)

  pub at-drop :
      (default : A) (n : ℕ) (xs : List A) (i : ℕ) → at default (drop n xs) i ≡ at default xs (n + i)
  unfolding at
  at-drop default zero xs i = ap (at default xs) {y = zero + i} (omega arith)
  at-drop default (suc n) [] i = refl
  at-drop default (suc n) (x ∷ xs) i =
      at-drop default n xs i
      ∙ ap (at default (x ∷ xs)) {x = suc (n + i)} {y = suc n + i} (omega arith)

  All-map-range {κ} :
      (P : A → Type κ) (f : ℕ → A) (lo n : ℕ)
      → ((i : ℕ) → i < lo + n → P (f i))
      → All P (map f (range lo n))
  All-map-range P f lo zero h = tt
  All-map-range P f lo (suc n) h =
      (h lo (omega arith), All-map-range P f (suc lo) n (λ i p. h i (omega arith)))

  pub All-table {κ} :
      (P : A → Type κ) (n : ℕ) (f : ℕ → A) → ((i : ℕ) → i < n → P (f i)) → All P (table n f)
  unfolding table
  All-table P n f h = All-map-range P f 0 n (λ i p. h i (omega arith))

  pub at-All {κ} :
      (P : A → Type κ) (default : A) (xs : List A) (i : ℕ)
      → P default
      → All P xs
      → P (at default xs i)
  unfolding at
  at-All P default [] i d h = d
  at-All P default (x ∷ xs) zero d h = h.0
  at-All P default (x ∷ xs) (suc i) d h = at-All P default xs i d h.1

map-map-range {ℓ κ} :
    {A : Type ℓ} {B : Type κ} (g : A → B) (f : ℕ → A) (lo n : ℕ)
    → map g (map f (range lo n)) ≡ map (λ i. g (f i)) (range lo n)
map-map-range g f lo zero = refl
map-map-range g f lo (suc n) = ap (◌∷◌ (g (f lo))) (map-map-range g f (suc lo) n)

pub map-table {ℓ κ} :
    {A : Type ℓ} {B : Type κ} (g : A → B) (n : ℕ) (f : ℕ → A)
    → map g (table n f) ≡ table n (λ i. g (f i))
unfolding table
map-table g n f = map-map-range g f 0 n

pub at-append_right {ℓ} :
    {A : Type ℓ} (default : A) (xs ys : List A) (i : ℕ)
    → at default (xs ++ ys) (length xs + i) ≡ at default ys i
unfolding at
at-append_right default [] ys i = ap (at default ys) {x = 0 + i} (omega arith)
at-append_right default (x ∷ xs) ys i =
    ap (at default (x ∷ xs ++ ys)) {x = suc (length xs) + i} {y = suc (length xs + i)} (omega arith)
    ∙ at-append_right default xs ys i

-- ===== src/Prelude/Lists.antt =====
-- Lists measured and indexed by native numbers, under the library's names.
use Prim.Native.Nat.{ℕ, zero, suc, ◌+◌}
use mathlib.Core.Path.{◌≡◌}
use mathlib.Core.List.{List, [], ◌∷◌, ◌++◌}
use mathlib.Core.Option.{Option, none, some}
use mathlib.Core.Bool.{Bool, true, ◌&&◌}
use native.Mathlib.Omega.{arith}
use yanesemu.Prelude.Tests.{◌==◌, if◌then◌else◌}

module _ {ℓ} {A : Type ℓ} where
  abbrev pub length : List A → ℕ
  length [] = 0
  length (x ∷ xs) = suc (length xs)

  abbrev pub get_elem? : List A → ℕ → Option A
  get_elem? [] i = none
  get_elem? (x ∷ xs) zero = some x
  get_elem? (x ∷ xs) (suc i) = get_elem? xs i

  pub length-append : (xs ys : List A) → length (xs ++ ys) ≡ length xs + length ys
  length-append [] ys = omega arith
  length-append (x ∷ xs) ys = omega (arith, length-append xs ys)

-- A `switch` over numbers whose cases are a table.
module _ {ℓ} {A : Type ℓ} where
  unfoldable pub lookup : ℕ → List (ℕ × A) → Option A
  lookup k [] = none
  lookup k ((j, v) ∷ l) = if j == k then some v else lookup k l

  -- A test of every row.
  unfoldable pub all_rows : (ℕ → A → Bool) → List (ℕ × A) → Bool
  all_rows p [] = true
  all_rows p ((j, v) ∷ l) = p j v && all_rows p l

  pub lookup-all_rows :
      (p : ℕ → A → Bool) (l : List (ℕ × A)) (k : ℕ) (v : A)
      → all_rows p l ≡ true
      → lookup k l ≡ some v
      → p k v ≡ true
  unfolding lookup all_rows
  lookup-all_rows p [] k v h e = ground arith
  lookup-all_rows p ((j, w) ∷ l) k v h e = ground (arith, lookup-all_rows p l k v)

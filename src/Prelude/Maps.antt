-- ===== src/Prelude/Maps.antt =====
-- `HashMap<u64, V>` as an association list with no repeated key that a caller can see.
use Prim.Native.Nat.{ℕ}
use mathlib.Core.Path.{◌≡◌}
use mathlib.Core.Bool.{Bool}
use mathlib.Core.List.{List, [], ◌∷◌}
use mathlib.Core.Option.{Option, none, some}
use native.Mathlib.Omega.{arith}
use sekas.Prelude.Tests.{◌==◌, if◌then◌else◌, is_some}

abbrev pub Map {ℓ} : Type ℓ → Type ℓ
Map V = List (ℕ × V)

module _ {ℓ} {V : Type ℓ} where
  -- `get`.
  unfoldable pub map_get : ℕ → Map V → Option V
  map_get k [] = none
  map_get k ((j, v) ∷ m) = if j == k then some v else map_get k m

  -- `remove`.
  unfoldable pub map_remove : ℕ → Map V → Map V
  map_remove k [] = []
  map_remove k ((j, v) ∷ m) = let rest = map_remove k m in if j == k then rest else (j, v) ∷ rest

  -- `insert`.
  unfoldable pub map_insert : ℕ → V → Map V → Map V
  map_insert k v m = (k, v) ∷ map_remove k m

  -- `entry(k).or_insert(v)`.
  unfoldable pub map_or_insert : ℕ → V → Map V → Map V
  unfolding map_get map_insert
  map_or_insert k v m = if is_some (map_get k m) then m else map_insert k v m

  unfoldable pub map_contains : ℕ → Map V → Bool
  unfolding map_get
  map_contains k m = is_some (map_get k m)

  pub map_get-remove :
      (k j : ℕ) (m : Map V) → map_get j (map_remove k m) ≡ (if k == j then none else map_get j m)
  unfolding map_get map_remove
  map_get-remove k j [] = ground arith
  map_get-remove k j ((i, v) ∷ m) = ground (arith, map_get-remove k j m)

  pub map_get-insert :
      (k j : ℕ) (v : V) (m : Map V)
      → map_get j (map_insert k v m) ≡ (if k == j then some v else map_get j m)
  unfolding map_get map_insert
  map_get-insert k j v m = ground (arith, map_get-remove k j m)

pub ruleset map_laws = (map_get-remove, map_get-insert)

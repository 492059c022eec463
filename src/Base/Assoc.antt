-- ===== src/Base/Assoc.antt =====
-- Go maps with string keys as association lists; `none` for a nil map stands at the uses.
use mathlib.Core.Path.{◌≡◌, refl}
use mathlib.Core.Bool.{Bool, true, false, ◌||◌}
use mathlib.Core.Option.{Option, none, some}
use mathlib.Core.List.{List, [], ◌∷◌}
use native.Mathlib.Omega.{arith}
use oam_kubernetes_runtime.Base.Tests.{if◌then◌else◌}
use oam_kubernetes_runtime.Base.Text.{GoString, ◌==◌, ==_iff}

abbrev pub Map : Type 0 → Type 0
Map V = List (GoString × V)

module _ {V : Type 0} where
  unfoldable pub lookup : GoString → Map V → Option V
  lookup key [] = none
  lookup key ((i, w) ∷ rest) = if i == key then some w else lookup key rest

  -- m[key] = v
  unfoldable pub insert : GoString → V → Map V → Map V
  insert key v [] = (key, v) ∷ []
  insert key v ((i, w) ∷ rest) = if i == key then (key, v) ∷ rest else (i, w) ∷ insert key v rest

  pub lookup-insert :
      (key j : GoString) (v : V) (map : Map V)
      → lookup j (insert key v map) ≡ (if key == j then some v else lookup j map)
  unfolding lookup insert
  lookup-insert key j v [] = refl
  lookup-insert key j v ((i, w) ∷ rest) =
      ground (arith, ==_iff key j, ==_iff i key, ==_iff i j, lookup-insert key j v rest)

  unfoldable pub has_key : GoString → Map V → Bool
  has_key k m = elim (lookup k m) [ none ↦ false | some v ↦ true ]

  pub has_key-insert :
      (k j : GoString) (v : V) (m : Map V) → has_key j (insert k v m) ≡ ((k == j) || has_key j m)
  unfolding has_key
  has_key-insert k j v m = ground (arith, lookup-insert k j v m)

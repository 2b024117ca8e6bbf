-- ===== src/Shared/Maps.antt =====
-- A hash map with number keys as an association list, which keeps one entry for a key.
use Prim.Native.Nat.{ℕ}
use mathlib.Core.Path.{◌≡◌, refl}
use mathlib.Core.List.{List, [], ◌∷◌}
use mathlib.Core.Option.{Option, none, some}
use native.Mathlib.Omega.{arith}
use r_llm.Shared.Tests.{◌==◌, if◌then◌else◌}

abbrev pub Map {ℓ} : Type ℓ → Type ℓ
Map V = List (ℕ × V)

module _ {ℓ} {V : Type ℓ} where
  unfoldable pub lookup : ℕ → Map V → Option V
  lookup key [] = none
  lookup key (entry ∷ table) = if entry.0 == key then some entry.1 else lookup key table

  unfoldable pub insert : ℕ → V → Map V → Map V
  insert key value [] = (key, value) ∷ []
  insert key value (entry ∷ table) =
      if entry.0 == key then (key, value) ∷ table else entry ∷ insert key value table

  -- Every entry of the key goes.
  unfoldable pub delete : ℕ → Map V → Map V
  delete key [] = []
  delete key (entry ∷ table) =
      let rest = delete key table in if entry.0 == key then rest else entry ∷ rest

  pub lookup-insert :
      (key other : ℕ) (value : V) (table : Map V)
      → lookup other (insert key value table)
        ≡ (if key == other then some value else lookup other table)
  unfolding lookup insert
  lookup-insert key other value [] = refl
  lookup-insert key other value (entry ∷ table) =
      let rest = lookup-insert key other value table in ground (arith, rest)

  pub lookup-delete :
      (key other : ℕ) (table : Map V)
      → lookup other (delete key table) ≡ (if key == other then none else lookup other table)
  unfolding lookup delete
  lookup-delete key other [] = ground arith
  lookup-delete key other (entry ∷ table) =
      let rest = lookup-delete key other table in ground (arith, rest)

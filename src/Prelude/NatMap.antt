-- ===== src/Prelude/NatMap.antt =====
-- A `HashMap` with numbers as keys: an association list in which no key is repeated.
pub mod Laws
pub mod Lookup
use Prim.Native.Nat.{ℕ}
use mathlib.Core.Bool.{Bool, true, false}
use mathlib.Core.List.{List, [], ◌∷◌}
use mathlib.Core.Option.{Option, none, some}
use puzzlefs.Prelude.Tests.{◌==◌, if◌then◌else◌}

module _ {ℓ} {A : Type ℓ} where
  -- `get`
  unfoldable pub map_get : ℕ → List (ℕ × A) → Option A
  map_get k [] = none
  map_get k ((j, a) ∷ m) = if j == k then some a else map_get k m

  -- `insert`: a value that is there is replaced.
  unfoldable pub map_insert : ℕ → A → List (ℕ × A) → List (ℕ × A)
  map_insert k a [] = (k, a) ∷ []
  map_insert k a ((j, b) ∷ m) =
      let rest = map_insert k a m in if j == k then (k, a) ∷ m else (j, b) ∷ rest

  -- A change of the value that `get_mut` gives; none without one.
  unfoldable pub map_modify : ℕ → (A → A) → List (ℕ × A) → Option (List (ℕ × A))
  map_modify k f [] = none
  map_modify k f ((j, b) ∷ m) =
      let rest = map_modify k f m in
      if j == k
      then some ((j, f b) ∷ m)
      else (elim rest [ none ↦ none | some m' ↦ some ((j, b) ∷ m') ])

  -- `into_values`, in the order of the list.
  abbrev pub map_values : List (ℕ × A) → List A
  map_values [] = []
  map_values ((j, a) ∷ m) = a ∷ map_values m

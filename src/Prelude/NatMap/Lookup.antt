-- ===== src/Prelude/NatMap/Lookup.antt =====
-- What a map has after inserting and changing.
use Prim.Native.Nat.{ℕ}
use mathlib.Core.Path.{◌≡◌, refl, subst}
use mathlib.Core.Logic.{inl, inr}
use mathlib.Core.List.{List, [], ◌∷◌}
use mathlib.Core.Option.{Option, none, some, some-injective}
use native.Mathlib.Omega.{arith}
use puzzlefs.Prelude.Tests.{◌==◌, if◌then◌else◌, Bool-cases, Option-cases}
use puzzlefs.Prelude.Lists.{All, All-weaken}
use puzzlefs.Prelude.Sort.{count}
use puzzlefs.Prelude.NatMap.{map_get, map_insert, map_modify, map_values}

module _ {ℓ} {A : Type ℓ} where
  pub map_get-map_insert :
      (i j : ℕ) (a : A) (m : List (ℕ × A))
      → map_get i (map_insert j a m) ≡ (if j == i then some a else map_get i m)
  unfolding map_get map_insert
  map_get-map_insert i j a [] = refl
  map_get-map_insert i j a ((k, b) ∷ m) = ground (arith, map_get-map_insert i j a m)

  pub count-map_insert_new :
      (key : A → ℕ) (k j : ℕ) (a : A) (m : List (ℕ × A))
      → map_get j m ≡ none
      → count key k (map_values (map_insert j a m)) ≡ count key k (a ∷ map_values m)
  unfolding map_get map_insert
  count-map_insert_new key k j a [] missing = refl
  count-map_insert_new key k j a ((i, b) ∷ m) missing = elim (Bool-cases (i == j)) [
    | inl same ↦ absurd (cc (rw same at missing))
    | inr other ↦
        let missing' : map_get j m ≡ none = rw other at missing in
        rw other (omega (arith, count-map_insert_new key k j a m missing'))
  ]

  pub All-map_insert :
      (P : A → Type 0) (j : ℕ) (a : A) (m : List (ℕ × A))
      → P a
      → All P (map_values m)
      → All P (map_values (map_insert j a m))
  unfolding map_insert
  All-map_insert P j a [] new old = (new, tt)
  All-map_insert P j a ((i, b) ∷ m) new (here, old) = elim (Bool-cases (i == j)) [
    | inl same ↦ rw same (new, old)
    | inr other ↦ rw other (here, All-map_insert P j a m new old)
  ]

  pub All-map_get :
      (P : A → Type 0) (j : ℕ) (a : A) (m : List (ℕ × A))
      → All P (map_values m)
      → map_get j m ≡ some a
      → P a
  unfolding map_get
  All-map_get P j a [] old there = cc
  All-map_get P j a ((i, b) ∷ m) (here, old) there = elim (Bool-cases (i == j)) [
    | inl same ↦
        let found : some b ≡ some a = rw same at there in subst P (some-injective b a found) here
    | inr other ↦
        let there' : map_get j m ≡ some a = rw other at there in All-map_get P j a m old there'
  ]

  -- The head and the rest of a map that was changed.
  pub map_modify-cases {κ} :
      (Q : List (ℕ × A) → Type κ) (j i : ℕ) (f : A → A) (b : A) (m m' : List (ℕ × A))
      → map_modify j f ((i, b) ∷ m) ≡ some m'
      → Q ((i, f b) ∷ m)
      → ((rest : List (ℕ × A)) → map_modify j f m ≡ some rest → Q ((i, b) ∷ rest))
      → Q m'
  unfolding map_modify
  map_modify-cases Q j i f b m m' changed first later = elim (Bool-cases (i == j)) [
    | inl here ↦
        let made : some ((i, f b) ∷ m) ≡ some m' = rw here at changed in
        subst Q (some-injective _ m' made) first
    | inr other ↦ elim (Option-cases (map_modify j f m)) [
      | inl missing ↦
          let never : ◌≡◌ {A = Option (List (ℕ × A))} none (some m') =
            rw (other, missing) at changed in
          cc
      | inr (rest, changed') ↦
          let made : some ((i, b) ∷ rest) ≡ some m' = rw (other, changed') at changed in
          subst Q (some-injective _ m' made) (later rest changed')
    ]
  ]

  pub All-map_modify :
      (P Q : A → Type 0) (j : ℕ) (f : A → A) (m m' : List (ℕ × A))
      → ((a : A) → P a → Q a)
      → ((a : A) → P a → Q (f a))
      → map_modify j f m ≡ some m'
      → All P (map_values m)
      → All Q (map_values m')
  unfolding map_modify
  All-map_modify P Q j f [] m' same change changed old = cc
  All-map_modify P Q j f ((i, b) ∷ m) m' same change changed (here, old) =
      map_modify-cases (λ n. All Q (map_values n)) j i f b m m' changed
        (change b here, All-weaken P Q same (map_values m) old)
        (λ rest changed'. (same b here, All-map_modify P Q j f m rest same change changed' old))

  pub map_get-map_modify-none :
      (k j : ℕ) (f : A → A) (m m' : List (ℕ × A))
      → map_modify j f m ≡ some m'
      → map_get k m ≡ none
      → map_get k m' ≡ none
  unfolding map_get map_modify
  map_get-map_modify-none k j f [] m' changed missing = cc
  map_get-map_modify-none k j f ((i, b) ∷ m) m' changed missing = elim (Bool-cases (i == k)) [
    | inl same ↦ absurd (cc (rw same at missing))
    | inr other ↦
        let missing' : map_get k m ≡ none = rw other at missing in
        map_modify-cases (λ n. map_get k n ≡ none) j i f b m m' changed (rw other missing')
          (λ rest changed'. rw other (map_get-map_modify-none k j f m rest changed' missing'))
  ]

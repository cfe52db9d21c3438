-- ===== src/Prelude/NatMap/Laws.antt =====
-- What inserting and changing do to the values of a map, counted by a key of the values.
use Prim.Native.Nat.{ℕ, suc, ◌≤◌, ◌<◌}
use mathlib.Core.Path.{◌≡◌, refl, sym, ap, ◌∙◌}
use mathlib.Core.Logic.{inl, inr}
use mathlib.Core.List.{List, [], ◌∷◌}
use mathlib.Core.Option.{Option, none, some, some-injective}
use native.Mathlib.Omega.{arith}
use puzzlefs.Prelude.Tests.{◌==◌, Bool-cases, Option-cases}
use puzzlefs.Prelude.Lists.{length}
use puzzlefs.Prelude.Sort.{count, count-all}
use puzzlefs.Prelude.NatMap.{map_get, map_insert, map_modify, map_values}

module _ {ℓ} {A : Type ℓ} (key : A → ℕ) where
  -- Inserting adds at most the new value.
  pub count-map_insert :
      (k j : ℕ) (a : A) (m : List (ℕ × A))
      → count key k (map_values (map_insert j a m)) ≤ count key k (a ∷ map_values m)
  unfolding map_insert
  count-map_insert k j a [] = omega arith
  count-map_insert k j a ((i, b) ∷ m) = elim (Bool-cases (i == j)) [
    | inl same ↦ rw same (omega arith)
    | inr other ↦ rw other (omega (arith, count-map_insert k j a m))
  ]

  -- Replacing a value by one of the same key keeps the counts.
  pub count-map_insert_same :
      (k j : ℕ) (a b : A) (m : List (ℕ × A))
      → map_get j m ≡ some b
      → key a ≡ key b
      → count key k (map_values (map_insert j a m)) ≡ count key k (map_values m)
  unfolding map_insert map_get
  count-map_insert_same k j a b [] there same = cc
  count-map_insert_same k j a b ((i, c) ∷ m) there same = elim (Bool-cases (i == j)) [
    | inl here ↦
        let found : some c ≡ some b = rw here at there in
        let keys : key a ≡ key c =
          same ∙ sym (ap (λ o. elim o [ none ↦ key a | some x ↦ key x ]) found) in
        rw (here, keys)
    | inr other ↦
        let there' : map_get j m ≡ some b = rw other at there in
        rw other (omega (arith, count-map_insert_same k j a b m there' same))
  ]

  pub count-map_modify :
      (k j : ℕ) (f : A → A) (m m' : List (ℕ × A))
      → ((a : A) → key (f a) ≡ key a)
      → map_modify j f m ≡ some m'
      → count key k (map_values m') ≡ count key k (map_values m)
  unfolding map_modify
  count-map_modify k j f [] m' keeps changed = cc
  count-map_modify k j f ((i, b) ∷ m) m' keeps changed =
      let values : (n : List (ℕ × A))
          → some n ≡ some m'
          → count key k (map_values m') ≡ count key k (map_values n) =
        λ n made. ap (λ l. count key k (map_values l)) (sym (some-injective n m' made)) in
      elim (Bool-cases (i == j)) [
        | inl here ↦
            let made : some ((i, f b) ∷ m) ≡ some m' = rw here at changed in
            values _ made ∙ rw (keeps b)
        | inr other ↦ elim (Option-cases (map_modify j f m)) [
          | inl missing ↦
              let never : ◌≡◌ {A = Option (List (ℕ × A))} none (some m') =
                rw (other, missing) at changed in
              cc
          | inr (rest, changed') ↦
              let made : some ((i, b) ∷ rest) ≡ some m' = rw (other, changed') at changed in
              let kept = count-map_modify k j f m rest keeps changed' in values _ made ∙ rw kept
        ]
      ]

module _ {ℓ} {A : Type ℓ} where
  pub length-map_insert : (j : ℕ) (a : A) (m : List (ℕ × A)) → length m ≤ length (map_insert j a m)
  unfolding map_insert
  length-map_insert j a [] = omega arith
  length-map_insert j a ((i, b) ∷ m) = elim (Bool-cases (i == j)) [
    | inl same ↦ rw same (omega arith)
    | inr other ↦ rw other (omega (arith, length-map_insert j a m))
  ]

  pub map_insert-length : (j : ℕ) (a : A) (m : List (ℕ × A)) → 0 < length (map_insert j a m)
  unfolding map_insert
  map_insert-length j a [] = omega arith
  map_insert-length j a ((i, b) ∷ m) = elim (Bool-cases (i == j)) [
    | inl same ↦ rw same (omega arith)
    | inr other ↦ rw other (omega arith)
  ]

  pub length-map_values : (m : List (ℕ × A)) → length (map_values m) ≡ length m
  length-map_values [] = refl
  length-map_values ((i, b) ∷ m) = ap (λ n. suc n) (length-map_values m)

  pub length-map_modify :
      (j : ℕ) (f : A → A) (m m' : List (ℕ × A)) → map_modify j f m ≡ some m' → length m ≡ length m'
  length-map_modify j f m m' changed =
      sym (length-map_values m)
      ∙ count-all (map_values m)
      ∙ sym (count-map_modify (λ a. 0) 0 j f m m' (λ a. refl) changed)
      ∙ sym (count-all (map_values m'))
      ∙ length-map_values m'

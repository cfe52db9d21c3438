-- ===== src/Prelude/Sort.antt =====
-- `sort_by` with a total order on keys, as a stable insertion sort, and how often a key stands in a
-- list.
pub mod Ascending
use Prim.Native.Nat.{ℕ, zero, suc, ◌+◌, ◌≤◌, ◌<◌, compare}
use mathlib.Core.Path.{◌≡◌, refl, sym, ap, ◌∙◌}
use mathlib.Core.Logic.{inl, inr}
use mathlib.Core.Bool.{Bool, true, false}
use mathlib.Core.List.{List, [], ◌∷◌, ◌++◌}
use mathlib.Core.Option.{Option, none, some}
use native.Mathlib.Omega.{arith}
use puzzlefs.Prelude.Lists.{length, get_elem?, All}
use puzzlefs.Prelude.Tests.{◌==◌, leb, if◌then◌else◌, Bool-cases, ==_iff}

module _ {ℓ} {A : Type ℓ} (below : A → A → Bool) where
  -- `below x y` says that x may stand before y. Equal elements keep their order.
  unfoldable pub sort_insert : A → List A → List A
  sort_insert x [] = x ∷ []
  sort_insert x (y ∷ ys) = let rest = sort_insert x ys in if below x y then x ∷ y ∷ ys else y ∷ rest

  unfoldable pub sort : List A → List A
  unfolding sort_insert
  sort [] = []
  sort (x ∷ xs) = sort_insert x (sort xs)

module _ {ℓ} {A : Type ℓ} (below : A → A → Bool) where
  All-sort_insert :
      (P : A → Type 0) (x : A) (ys : List A) → P x → All P ys → All P (sort_insert below x ys)
  unfolding sort_insert
  All-sort_insert P x [] h k = (h, tt)
  All-sort_insert P x (y ∷ ys) h k = elim (Bool-cases (below x y)) [
    | inl before ↦ rw before (h, k)
    | inr after ↦ rw after (k.0, All-sort_insert P x ys h k.1)
  ]

  pub All-sort : (P : A → Type 0) (xs : List A) → All P xs → All P (sort below xs)
  unfolding sort
  All-sort P [] h = h
  All-sort P (x ∷ xs) h = All-sort_insert P x (sort below xs) h.0 (All-sort P xs h.1)

module _ {ℓ} {A : Type ℓ} (key : A → ℕ) where
  -- How many elements have the key.
  abbrev pub count : ℕ → List A → ℕ
  count k [] = 0
  count k (x ∷ xs) = (if key x == k then 1 else 0) + count k xs

  -- The comparison of the keys.
  abbrev pub by_key : A → A → Bool
  by_key x y = leb (key x) (key y)

  -- Every element's key is at most that of each element after it.
  abbrev pub IsSortedBy : List A → Type 0
  IsSortedBy [] = Unit
  IsSortedBy (x ∷ xs) = All (λ y. key x ≤ key y) xs × IsSortedBy xs

  pub count-append : (k : ℕ) (xs ys : List A) → count k (xs ++ ys) ≡ count k xs + count k ys
  count-append k [] ys = omega arith
  count-append k (x ∷ xs) ys = omega (arith, count-append k xs ys)

  count-sort_insert :
      (k : ℕ) (x : A) (ys : List A) → count k (sort_insert by_key x ys) ≡ count k (x ∷ ys)
  unfolding sort_insert
  count-sort_insert k x [] = refl
  count-sort_insert k x (y ∷ ys) = elim (Bool-cases (by_key x y)) [
    | inl before ↦ rw before
    | inr after ↦ rw after (omega (arith, count-sort_insert k x ys))
  ]

  -- Sorting keeps how often each key stands in the list.
  pub count-sort : (k : ℕ) (xs : List A) → count k (sort by_key xs) ≡ count k xs
  unfolding sort
  count-sort k [] = refl
  count-sort k (x ∷ xs) = omega (arith, count-sort_insert k x (sort by_key xs), count-sort k xs)

  All-le : (a b : ℕ) (ys : List A) → a ≤ b → All (λ y. b ≤ key y) ys → All (λ y. a ≤ key y) ys
  All-le a b [] le h = h
  All-le a b (y ∷ ys) le h = (omega (arith, h.0), All-le a b ys le h.1)

  sort_insert-IsSortedBy :
      (x : A) (ys : List A) → IsSortedBy ys → IsSortedBy (sort_insert by_key x ys)
  unfolding sort_insert
  sort_insert-IsSortedBy x [] h = (tt, tt)
  sort_insert-IsSortedBy x (y ∷ ys) h = elim (Bool-cases (by_key x y)) [
    | inl before ↦
        let le : key x ≤ key y = ground arith in
        rw before ((le, All-le (key x) (key y) ys le h.0), h)
    | inr after ↦
        let le : key y ≤ key x = ground arith in
        rw after
          (All-sort_insert by_key (λ z. key y ≤ key z) x ys le h.0, sort_insert-IsSortedBy x ys h.1)
  ]

  pub sort-IsSortedBy : (xs : List A) → IsSortedBy (sort by_key xs)
  unfolding sort
  sort-IsSortedBy [] = tt
  sort-IsSortedBy (x ∷ xs) = sort_insert-IsSortedBy x (sort by_key xs) (sort-IsSortedBy xs)

module _ {ℓ} {A : Type ℓ} (below : A → A → Bool) where
  length-sort_insert : (x : A) (ys : List A) → length (sort_insert below x ys) ≡ suc (length ys)
  unfolding sort_insert
  length-sort_insert x [] = refl
  length-sort_insert x (y ∷ ys) = elim (Bool-cases (below x y)) [
    | inl before ↦ rw before
    | inr after ↦ rw after (omega (arith, length-sort_insert x ys))
  ]

  pub length-sort : (xs : List A) → length (sort below xs) ≡ length xs
  unfolding sort
  length-sort [] = refl
  length-sort (x ∷ xs) = omega (arith, length-sort_insert x (sort below xs), length-sort xs)

module _ {ℓ} {A : Type ℓ} where
  -- Counting without a key is the length.
  pub count-all : (xs : List A) → length xs ≡ count (λ a. 0) 0 xs
  count-all [] = refl
  count-all (x ∷ xs) = omega (arith, count-all xs)

-- ===== src/Prelude/Sort/Ascending.antt =====
-- Sorted lists by position: where no key is repeated, the keys ascend strictly.
use Prim.Native.Nat.{ℕ, zero, suc, ◌+◌, ◌≤◌, ◌<◌}
use mathlib.Core.Path.{◌≡◌, refl, sym, ap, ◌∙◌, subst}
use mathlib.Core.Bool.{true}
use mathlib.Core.Logic.{inl, inr}
use mathlib.Core.List.{List, [], ◌∷◌}
use mathlib.Core.List.{Permᴰ}
use mathlib.Core.Option.{some, some-injective}
use native.Mathlib.Omega.{arith}
use puzzlefs.Prelude.Lists.{length, get_elem?, All}
use puzzlefs.Prelude.Tests.{Bool-cases, ◌==◌, if◌then◌else◌, ==_iff}
use puzzlefs.Prelude.Sort.{count, count-all, IsSortedBy}

module _ {ℓ} {A : Type ℓ} (key : A → ℕ) where
  pub count-get_elem :
      (xs : List A) (q : ℕ) (y : A) → get_elem? xs q ≡ some y → 1 ≤ count key (key y) xs
  count-get_elem [] q y there = cc
  count-get_elem (x ∷ xs) zero y there =
      let same : x ≡ y = some-injective x y there in
      let found : (key x == key y) ≡ true = (==_iff (key x) (key y)).1 (ap key same) in
      rw found (omega arith)
  count-get_elem (x ∷ xs) (suc q) y there = omega (arith, count-get_elem xs q y there)

  pub All-get_elem :
      (P : A → Type 0) (xs : List A) (q : ℕ) (y : A) → All P xs → get_elem? xs q ≡ some y → P y
  All-get_elem P [] q y h there = cc
  All-get_elem P (x ∷ xs) zero y h there = subst P (some-injective x y there) h.0
  All-get_elem P (x ∷ xs) (suc q) y h there = All-get_elem P xs q y h.1 there

  -- In a sorted list where no key stands twice, the keys ascend.
  pub ascending :
      (xs : List A) (p q : ℕ) (x y : A)
      → IsSortedBy key xs
      → ((k : ℕ) → count key k xs ≤ 1)
      → p < q
      → get_elem? xs p ≡ some x
      → get_elem? xs q ≡ some y
      → key x < key y
  ascending [] p q x y sorted once lt at_p at_q = cc
  ascending (z ∷ zs) p zero x y sorted once lt at_p at_q = absurd (omega arith)
  ascending (z ∷ zs) zero (suc q) x y sorted once lt at_p at_q =
      let le : key z ≤ key y = All-get_elem (λ v. key z ≤ key v) zs q y sorted.0 at_q in
      let here : key z ≡ key x = ap key (some-injective z x at_p) in
      ground (arith, once (key y), count-get_elem zs q y at_q)
  ascending (z ∷ zs) (suc p) (suc q) x y sorted once lt at_p at_q =
      ascending zs p q x y sorted.1 (λ k. omega (arith, once k)) (omega arith) at_p at_q

  -- A reordering keeps how often each key stands in the list.
  pub count-perm : (k : ℕ) {xs ys : List A} → Permᴰ xs ys → count key k xs ≡ count key k ys
  count-perm k Permᴰ.nil = refl
  count-perm k (Permᴰ.cons {a} {b} {l₁} {l₂} e p) =
      omega (arith, ap {B = ℕ} (λ x. if key x == k then 1 else 0) e, count-perm k p)
  count-perm k (Permᴰ.swap {a} {b} {a'} {b'} {l} e₁ e₂) = omega (
    arith,
    ap {B = ℕ} (λ x. if key x == k then 1 else 0) e₁,
    ap {B = ℕ} (λ x. if key x == k then 1 else 0) e₂,
  )
  count-perm k (Permᴰ.trans p q) = count-perm k p ∙ count-perm k q

-- Where the key stands.
pub count-here {ℓ} :
    {A : Type ℓ} (key : A → ℕ) (k : ℕ) (xs : List A)
    → 1 ≤ count key k xs
    → (q : ℕ) × (x : A) × (get_elem? xs q ≡ some x) × (key x ≡ k)
count-here key k [] some_one = absurd (omega arith)
count-here key k (x ∷ xs) some_one = elim (Bool-cases (key x == k)) [
  | inl same ↦ (0, x, refl, (==_iff (key x) k).0 same)
  | inr other ↦
      let more : 1 ≤ 0 + count key k xs = rw other at some_one in
      let (q, y, there, it) = count-here key k xs (omega arith) in (suc q, y, there, it)
]

pub All-perm {ℓ} :
    {A : Type ℓ} (P : A → Type 0) {xs ys : List A} → Permᴰ xs ys → All P ys → All P xs
All-perm P Permᴰ.nil h = tt
All-perm P (Permᴰ.cons {a} {b} {l₁} {l₂} e p) h = (subst P (sym e) h.0, All-perm P p h.1)
All-perm P (Permᴰ.swap {a} {b} {a'} {b'} {l} e₁ e₂) h =
    (subst P (sym e₁) h.1.0, (subst P (sym e₂) h.0, h.1.1))
All-perm P (Permᴰ.trans p q) h = All-perm P p (All-perm P q h)

pub length-perm {ℓ} : {A : Type ℓ} {xs ys : List A} → Permᴰ xs ys → length xs ≡ length ys
length-perm {xs = xs} {ys = ys} p = count-all xs ∙ count-perm (λ a. 0) 0 p ∙ sym (count-all ys)

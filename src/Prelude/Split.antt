-- ===== src/Prelude/Split.antt =====
-- `str::split` at a character of one byte, over the bytes of the text.
use Prim.Native.Nat.{ℕ}
use mathlib.Core.Path.{◌≡◌, refl, sym, ap, ◌∙◌}
use mathlib.Core.Logic.{inl, inr}
use mathlib.Core.Bool.{true, false}
use mathlib.Core.List.{List, [], ◌∷◌, ◌++◌}
use puzzlefs.Prelude.Lists.{All}
use puzzlefs.Prelude.Tests.{◌==◌, if◌then◌else◌, Bytes, Bool-cases, ==_iff}

abbrev pub push_front : ℕ → List Bytes → List Bytes
push_front x [] = (x ∷ []) ∷ []
push_front x (part ∷ parts) = (x ∷ part) ∷ parts

unfoldable pub split : ℕ → Bytes → List Bytes
split c [] = [] ∷ []
split c (x ∷ xs) = let parts = split c xs in if x == c then [] ∷ parts else push_front x parts

-- The byte does not stand in the text.
abbrev pub Lacks : ℕ → Bytes → Type 0
Lacks c [] = Unit
Lacks c (x ∷ xs) = ((x == c) ≡ false) × Lacks c xs

-- The parts put together again.
abbrev pub join : ℕ → List Bytes → Bytes
join c [] = []
join c (part ∷ parts) = part ++ (elim parts [ [] ↦ [] | _ ∷ _ ↦ c ∷ join c parts ])

pub split-Lacks : (c : ℕ) (part : Bytes) → Lacks c part → split c part ≡ part ∷ []
unfolding split
split-Lacks c [] lacks = refl
split-Lacks c (x ∷ part) lacks = rw (lacks.0, split-Lacks c part lacks.1)

pub split-append :
    (c : ℕ) (part rest : Bytes) → Lacks c part → split c (part ++ c ∷ rest) ≡ part ∷ split c rest
unfolding split
split-append c [] rest lacks = let same : (c == c) ≡ true = (==_iff c c).1 refl in rw same
split-append c (x ∷ part) rest lacks = rw (lacks.0, split-append c part rest lacks.1)

-- There is a part, even of no text.
pub split-cons :
    (c : ℕ) (text : Bytes) → (part : Bytes) × (parts : List Bytes) × (split c text ≡ part ∷ parts)
unfolding split
split-cons c [] = ([], [], refl)
split-cons c (x ∷ xs) =
    let (part, parts, e) = split-cons c xs in
    elim (Bool-cases (x == c)) [
      | inl same ↦ ([], split c xs, rw same)
      | inr other ↦ (x ∷ part, parts, rw (other, e))
    ]

-- No part has the separator.
pub split-All : (c : ℕ) (text : Bytes) → All (Lacks c) (split c text)
unfolding split
split-All c [] = (tt, tt)
split-All c (x ∷ xs) =
    let (part, parts, e) = split-cons c xs in
    let lacks = split-All c xs in
    elim (Bool-cases (x == c)) [
      | inl same ↦ rw same (tt, lacks)
      | inr other ↦
          let lacks' : Lacks c part × All (Lacks c) parts = rw e at lacks in
          rw (other, e) ((other, lacks'.0), lacks'.1)
    ]

join_cons :
    (c : ℕ) (parts : List Bytes) (p : Bytes) (ps : List Bytes)
    → parts ≡ p ∷ ps
    → join c ([] ∷ parts) ≡ c ∷ join c parts
join_cons c [] p ps e = cc
join_cons c (q ∷ qs) p ps e = refl

-- With the separator between them the parts are the text.
pub join-split : (c : ℕ) (text : Bytes) → join c (split c text) ≡ text
unfolding split
join-split c [] = refl
join-split c (x ∷ xs) =
    let (part, parts, e) = split-cons c xs in
    let whole = join-split c xs in
    let joined : join c (part ∷ parts) ≡ xs = rw e at whole in
    elim (Bool-cases (x == c)) [
      | inl same ↦
          let step : join c ([] ∷ split c xs) ≡ c ∷ join c (split c xs) =
            join_cons c (split c xs) part parts e in
          let x_is : x ≡ c = (==_iff x c).0 same in
          rw same (step ∙ ap (λ t. c ∷ t) whole ∙ ap (λ y. y ∷ xs) (sym x_is))
      | inr other ↦ rw (other, e) (ap (λ t. x ∷ t) joined)
    ]

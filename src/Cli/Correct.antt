-- ===== src/Cli/Correct.antt =====
-- exe/src/main.rs, `parse_oci_dir`: which texts name an OCI directory and a tag.
use puzzlefs.Prelude.{
  ◌≡◌, ◌≢◌, refl, sym, ap, ◌∙◌, ◌↔◌, ◌⊎◌, inl, inr, Bytes, List, [], ◌∷◌, ◌++◌, split, Lacks,
  split-Lacks, split-append, split-All, join-split, All, join, append-nil,
}
use puzzlefs.Cli.{
  fail, done, Answer, colon, without_last_empty, split_terminator, pair_of, parse_oci_dir,
}

-- The parts that count as two: two, of which the last is not empty, or three, of which the last is.
abbrev Two : Bytes → Bytes → List Bytes → Type 0
Two dir tag parts = ((parts ≡ dir ∷ tag ∷ []) × (tag ≢ [])) ⊎ (parts ≡ dir ∷ tag ∷ [] ∷ [])

done-injective :
    {a b c d : Bytes}
    → ◌≡◌ {A = Answer (Bytes × Bytes)} (done (a, b)) (done (c, d))
    → (a ≡ c) × (b ≡ d)
done-injective {a} {b} e = (
  ap (λ (x : Answer (Bytes × Bytes)). elim x [ done p ↦ p.0 | fail _ ↦ a ]) e,
  ap (λ (x : Answer (Bytes × Bytes)). elim x [ done p ↦ p.1 | fail _ ↦ b ]) e,
)

kept_tag :
    (dir tag : Bytes) → tag ≢ [] → pair_of (without_last_empty (dir ∷ tag ∷ [])) ≡ done (dir, tag)
kept_tag dir [] some_tag = absurd (some_tag refl)
kept_tag [] (b ∷ tag) some_tag = refl
kept_tag (a ∷ dir) (b ∷ tag) some_tag = refl

pair_of-Two :
    (parts : List Bytes) (dir tag : Bytes)
    → pair_of (without_last_empty parts) ≡ done (dir, tag)
    → Two dir tag parts
pair_of-Two [] dir tag e = cc
pair_of-Two ([] ∷ []) dir tag e = cc
pair_of-Two ((b ∷ part) ∷ []) dir tag e = cc
pair_of-Two (d ∷ [] ∷ []) dir tag e = cc
pair_of-Two (d ∷ (b ∷ part) ∷ []) dir tag e =
    let (same_dir, same_tag) = done-injective e in
    inl (
      rw (same_dir, same_tag),
      λ empty. let never : ◌≡◌ {A = Bytes} (b ∷ part) [] = same_tag ∙ empty in cc,
    )
pair_of-Two (d ∷ t ∷ [] ∷ []) dir tag e =
    let (same_dir, same_tag) = done-injective e in inr (rw (same_dir, same_tag))
pair_of-Two (d ∷ t ∷ (b ∷ part) ∷ []) dir tag e = cc
pair_of-Two (d ∷ t ∷ x ∷ y ∷ parts) dir tag e = cc

-- An argument is taken as a directory and a tag exactly if it is the two, with a colon between them,
-- neither having a colon in it, and either the tag is not empty or one more colon ends the argument.
pub parse_oci_dir-Accepts :
    (oci_dir dir tag : Bytes)
    → (parse_oci_dir oci_dir ≡ done (dir, tag)) ↔ (
        Lacks colon dir
        × Lacks colon tag
        × (((oci_dir ≡ dir ++ colon ∷ tag) × (tag ≢ []))
            ⊎ (oci_dir ≡ dir ++ colon ∷ (tag ++ colon ∷ []))))
unfolding parse_oci_dir split_terminator
parse_oci_dir-Accepts oci_dir dir tag = (
  λ read. elim (pair_of-Two (split colon oci_dir) dir tag read) [
    | inl (parts, some_tag) ↦
        let whole = join-split colon oci_dir in
        let lacks = split-All colon oci_dir in
        let whole' : join colon (dir ∷ tag ∷ []) ≡ oci_dir = rw parts at whole in
        let lacks' : All (Lacks colon) (dir ∷ tag ∷ []) = rw parts at lacks in
        let written : join colon (dir ∷ tag ∷ []) ≡ dir ++ colon ∷ tag = rw (append-nil tag) in
        (lacks'.0, lacks'.1.0, inl (sym whole' ∙ written, some_tag))
    | inr parts ↦
        let whole = join-split colon oci_dir in
        let lacks = split-All colon oci_dir in
        let whole' : join colon (dir ∷ tag ∷ [] ∷ []) ≡ oci_dir = rw parts at whole in
        let lacks' : All (Lacks colon) (dir ∷ tag ∷ [] ∷ []) = rw parts at lacks in
        (lacks'.0, lacks'.1.0, inr (sym whole'))
  ],
  λ (no_dir_colon, no_tag_colon, text). elim text [
    | inl (is, some_tag) ↦
        let parts =
          ap (split colon) is
          ∙ split-append colon dir tag no_dir_colon
          ∙ ap (λ ps. dir ∷ ps) (split-Lacks colon tag no_tag_colon) in
        ap (λ ps. pair_of (without_last_empty ps)) parts ∙ kept_tag dir tag some_tag
    | inr is ↦
        let parts =
          ap (split colon) is
          ∙ split-append colon dir (tag ++ colon ∷ []) no_dir_colon
          ∙ ap (λ ps. dir ∷ ps) (split-append colon tag [] no_tag_colon) in
        ap (λ ps. pair_of (without_last_empty ps)) parts
  ],
)

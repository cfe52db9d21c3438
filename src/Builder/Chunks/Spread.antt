-- ===== src/Builder/Chunks/Spread.antt =====
-- puzzlefs-lib/src/builder.rs: spreading one chunk keeps what the files hold in step with the stream.
use puzzlefs.Prelude.{
  nil_of_length, ℕ, zero, suc, ◌+◌, ◌-◌, ◌<◌, ◌≤◌, ◌≡◌, ap, sym, ◌∙◌, subst, subst₂, Bool, true,
  false, Bytes, Option, none, some, List, [], ◌∷◌, ◌++◌, append-nil, append_assoc, length,
  length-append, length-drop, take, take-length, drop, drop-drop, drop-length, take_add, ltb, min,
  ◌==◌, add64, sub64, add64_exact, sub64_exact, u64_mod, Bool-cases, Option-cases, inl, inr, arith,
}
use puzzlefs.Errors.{Result, ok, err, panic}
use puzzlefs.Format.{Hash}
use puzzlefs.Reader.File.Correct.{concat}
use puzzlefs.Builder.Chunks.{
  BuildFile, Cursor, next_file, files_of, push_chunk, part, spread, unless_ended,
}
use puzzlefs.Builder.Chunks.Holds.{
  same_part, unless_ended-none, unless_ended-some, Piece, Holds, FilesHold, Ahead, Inv,
  FilesHold-last, Holds-last, next_file-Inv, files_of-end,
}

module _ (P : Hash → Bool → Bytes → Type 0) where
  -- What spreading a chunk ends with: the files passed hold their contents, and the files still
  -- want `later`; or all files hold their contents, and nothing is wanted any more.
  abbrev pub Spread : List Bytes → Bytes → Option (Result (Cursor × Bool)) → Type 0
  Spread contents later (some (ok (cur, false))) = Inv P cur contents later
  Spread contents later (some (ok (cur, true))) = FilesHold P (files_of cur) contents × (later ≡ [])
  Spread contents later (some (err e)) = ⊥
  Spread contents later (some panic) = ⊥
  Spread contents later none = ⊥

  module _ (digest : Hash) (compressed : Bool) (bytes later : Bytes) (contents : List Bytes)
      (stored : P digest compressed bytes) (small : length bytes < u64_mod) where
    abbrev pub Goal : ℕ → ℕ → Cursor → Type 0
    Goal fuel used cur =
        Spread contents later (spread digest compressed (length bytes) fuel used cur)

    -- The induction hypothesis of the loop.
    abbrev pub Rest : ℕ → Type 0
    Rest fuel =
        (used : ℕ) (cur : Cursor)
        → length bytes - used < fuel
        → used ≤ length bytes
        → Inv P cur contents (drop used bytes ++ later)
        → Goal fuel used cur

    -- The file was filled, and the cursor has moved on.
    moved :
        (fuel used : ℕ) (cur : Cursor)
        → Rest fuel
        → length bytes - used < fuel
        → used ≤ length bytes
        → Inv P cur contents (drop used bytes ++ later)
        → Spread contents later
            (unless_ended cur (spread digest compressed (length bytes) fuel used cur))
    moved fuel used cur rest enough le inv = elim (Option-cases cur.file) [
      | inr (f, e) ↦
          subst (Spread contents later) (sym (unless_ended-some cur _ f e))
            (rest used cur enough le inv)
      | inl e ↦
          let (no_rest, no_todo, no_left) = rw e at inv.ahead in
          subst (Spread contents later) (sym (unless_ended-none cur _ e)) (
            subst₂ (FilesHold P) (sym (files_of-end P cur e no_rest))
                (sym (append-nil inv.dones)
                  ∙ ap (λ (r : List Bytes). inv.dones ++ r) (sym no_todo)
                  ∙ inv.whole)
                inv.held,
            nil_of_length later
                (omega (arith, ap length no_left, length-append (drop used bytes) later)),
          )
    ]

    one_round :
        (fuel used : ℕ) (cur : Cursor) (f : BuildFile) (dones todo : List Bytes)
        → cur.file ≡ some f
        → used < length bytes
        → length bytes - used < suc fuel
        → Rest fuel
        → dones ++ todo ≡ contents
        → FilesHold P cur.done dones
        → Ahead P (some f) cur.rest cur.file_used todo (drop used bytes ++ later)
        → Goal (suc fuel) used cur
    unfolding spread
    one_round fuel used cur f dones [] e lt enough rest whole held ahead = absurd ahead
    one_round fuel used cur f dones (b ∷ bs) e lt enough rest whole held
          (len, fits, room_left, holds, fresh, left) =
        let fu = cur.file_used in
        let room = min (f.md.size - fu) (length bytes - used) in
        let c = part digest compressed (length bytes) used room in
        let f' = push_chunk f c in
        let size1 : sub64 f.md.size fu ≡ f.md.size - fu = sub64_exact _ _ (omega arith) fits in
        let size2 : sub64 (length bytes) used ≡ length bytes - used =
          sub64_exact _ _ (omega arith) small in
        let add1 : add64 used room ≡ used + room = add64_exact _ _ (omega arith) in
        let add2 : add64 fu room ≡ fu + room = add64_exact _ _ (omega arith) in
        let more : ltb used (length bytes) ≡ true = ground arith in
        let (taken, rest_left) =
          same_part room (drop used bytes) later (drop fu b) (concat bs) left
            (omega (arith, length-drop used bytes)) (omega (arith, length-drop fu b)) in
        let left1 : drop (used + room) bytes ++ later ≡ drop (fu + room) b ++ concat bs =
          ap (λ (r : Bytes). r ++ later) (sym (drop-drop room used bytes))
          ∙ rest_left
          ∙ ap (λ (r : Bytes). r ++ concat bs) (drop-drop room fu b) in
        let piece : Piece P c (take room (drop fu b)) = (bytes, stored, omega arith, sym taken) in
        let holds1 : Holds P f'.chunks (take (fu + room) b) =
          subst (Holds P f'.chunks) (sym (take_add fu room b))
            (Holds-last P f.chunks (take fu b) (take room (drop fu b)) c holds piece) in
        elim (Bool-cases (fu + room == f.md.size)) [
          | inr more_room ↦
              rw (more, e, size1, size2, add2, more_room, spread, size1, size2, add1, add2)
                (rest (used + room) (record cur { file = some f'; file_used = fu + room })
                  (omega arith) (omega arith)
                  (record {
                    dones = dones;
                    todo = b ∷ bs;
                    whole = whole;
                    held = held;
                    ahead = (len, fits, ground arith, holds1, fresh, left1);
                  }))
          | inl full ↦
              rw (more, e, size1, size2, add2, full, spread, size1, size2, add1)
                (moved fuel (used + room) (next_file (cur.done ++ f' ∷ []) cur.rest) rest
                  (omega arith) (omega arith)
                  (subst₂ (Inv P (next_file (cur.done ++ f' ∷ []) cur.rest))
                    (append_assoc dones (b ∷ []) bs ∙ whole)
                    (sym (
                      left1
                      ∙ ap (λ (r : Bytes). r ++ concat bs)
                          (drop-length (fu + room) b (ground arith))))
                    (next_file-Inv P (cur.done ++ f' ∷ []) cur.rest (dones ++ b ∷ []) bs
                      (FilesHold-last P cur.done dones f' b held len (
                        subst (Holds P f'.chunks) (take-length b (fu + room) (ground arith))
                          holds1))
                      fresh)))
        ]

    pub spread-Spread : (fuel : ℕ) → Rest fuel
    unfolding spread
    spread-Spread zero used cur enough le inv = absurd (omega arith)
    spread-Spread (suc fuel) used cur enough le inv = elim (Bool-cases (ltb used (length bytes))) [
      | inr used_up ↦
          rw (used_up, spread)
            (subst (Inv P cur contents)
              (ap (λ (r : Bytes). r ++ later) (drop-length used bytes (ground arith))) inv)
      | inl more ↦
          let lt : used < length bytes = ground arith in
          elim (Option-cases cur.file) [
            | inl none_left ↦ absurd (
                omega (
                  arith,
                  ap length (rw none_left at inv.ahead).2,
                  length-append (drop used bytes) later,
                  length-drop used bytes,
                ))
            | inr (f, e) ↦
                one_round fuel used cur f inv.dones inv.todo e lt enough (spread-Spread fuel)
                  inv.whole inv.held (rw e at inv.ahead)
          ]
    ]

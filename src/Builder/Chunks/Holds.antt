-- ===== src/Builder/Chunks/Holds.antt =====
-- puzzlefs-lib/src/builder.rs: what the files hold while the chunks are spread over them.
use puzzlefs.Prelude.{
  nil_of_length, ℕ, zero, suc, ◌+◌, ◌<◌, ◌≤◌, ◌≡◌, refl, ap, sym, ◌∙◌, subst, subst₂, cons-eq-cons,
  Bool, true, Bytes, Option, none, some, List, [], ◌∷◌, ◌++◌, append-nil, append_assoc, length,
  take, drop, ltb, u64_mod, Bool-cases, inl, inr, arith,
}
use puzzlefs.Errors.{Result, ok}
use puzzlefs.Format.{Hash, FileChunk}
use puzzlefs.Reader.File.Correct.{concat}
use puzzlefs.Builder.Chunks.{BuildFile, Cursor, next_file, files_of, unless_ended}

-- The same part is taken from the front of two equal streams, and the rest is equal too.
pub same_part :
    (n : ℕ) (xs ys xs' ys' : Bytes)
    → xs ++ ys ≡ xs' ++ ys'
    → n ≤ length xs
    → n ≤ length xs'
    → (take n xs ≡ take n xs') × (drop n xs ++ ys ≡ drop n xs' ++ ys')
same_part zero xs ys xs' ys' e h k = (refl, e)
same_part (suc n) [] ys xs' ys' e h k = absurd (omega arith)
same_part (suc n) (x ∷ xs) ys [] ys' e h k = absurd (omega arith)
same_part (suc n) (x ∷ xs) ys (y ∷ xs') ys' e h k =
    let (same, rest) = cons-eq-cons.0 e in
    let (taken, left) = same_part n xs ys xs' ys' rest (omega arith) (omega arith) in
    (cc (same, taken), left)

-- `P digest compressed bytes` says that the blob of that digest stores the bytes so.
pub unless_ended-none :
    (cur : Cursor) (rest : Option (Result (Cursor × Bool)))
    → cur.file ≡ none
    → unless_ended cur rest ≡ some (ok (cur, true))
unfolding unless_ended
unless_ended-none cur rest e =
    ap
      (λ (f : Option BuildFile). elim f as (λ g. Option (Result (Cursor × Bool))) [
        | none ↦ some (ok (cur, true))
        | some g ↦ rest
      ])
      e

pub unless_ended-some :
    (cur : Cursor) (rest : Option (Result (Cursor × Bool))) (f : BuildFile)
    → cur.file ≡ some f
    → unless_ended cur rest ≡ rest
unfolding unless_ended
unless_ended-some cur rest f e =
    ap
      (λ (f : Option BuildFile). elim f as (λ g. Option (Result (Cursor × Bool))) [
        | none ↦ some (ok (cur, true))
        | some g ↦ rest
      ])
      e

module _ (P : Hash → Bool → Bytes → Type 0) where
  -- The chunk of a file names this part of a stored blob.
  abbrev pub Piece : FileChunk → Bytes → Type 0
  Piece c p =
      (bytes : Bytes) × P c.blob.digest c.blob.compressed bytes
      × (c.blob.offset + c.len ≤ length bytes)
      × (p ≡ take c.len (drop c.blob.offset bytes))

  abbrev pub Pieces : List FileChunk → List Bytes → Type 0
  Pieces [] [] = Unit
  Pieces [] (p ∷ ps) = ⊥
  Pieces (c ∷ cs) [] = ⊥
  Pieces (c ∷ cs) (p ∷ ps) = Piece c p × Pieces cs ps

  -- The chunks name parts that make up the content.
  abbrev pub Holds : List FileChunk → Bytes → Type 0
  Holds cs content = (ps : List Bytes) × (concat ps ≡ content) × Pieces cs ps

  -- Each file holds its content, which has the file's size.
  abbrev pub FilesHold : List BuildFile → List Bytes → Type 0
  FilesHold [] [] = Unit
  FilesHold [] (b ∷ bs) = ⊥
  FilesHold (f ∷ fs) [] = ⊥
  FilesHold (f ∷ fs) (b ∷ bs) = (length b ≡ f.md.size) × Holds f.chunks b × FilesHold fs bs

  -- Files that are still to be filled.
  abbrev pub Fresh : List BuildFile → List Bytes → Type 0
  Fresh [] [] = Unit
  Fresh [] (b ∷ bs) = ⊥
  Fresh (f ∷ fs) [] = ⊥
  Fresh (f ∷ fs) (b ∷ bs) =
      (length b ≡ f.md.size) × (f.md.size < u64_mod) × (f.chunks ≡ []) × Fresh fs bs

  abbrev pub Ahead : Option BuildFile → List BuildFile → ℕ → List Bytes → Bytes → Type 0
  Ahead none rest used todo left = (rest ≡ []) × (todo ≡ []) × (left ≡ [])
  Ahead (some f) rest used [] left = ⊥
  Ahead (some f) rest used (b ∷ bs) left =
      (length b ≡ f.md.size)
      × (f.md.size < u64_mod)
      × (used < length b)
      × Holds f.chunks (take used b)
      × Fresh rest bs
      × (left ≡ drop used b ++ concat bs)

  -- The files passed hold their contents, and `left` is what the others still want.
  pub record Inv (cur : Cursor) (contents : List Bytes) (left : Bytes) : Type 0 where
    pub dones : List Bytes
    pub todo : List Bytes
    pub whole : dones ++ todo ≡ contents
    pub held : FilesHold cur.done dones
    pub ahead : Ahead cur.file cur.rest cur.file_used todo left

  pub Holds-empty : (cs : List FileChunk) → cs ≡ [] → Holds cs []
  Holds-empty cs e = ([], refl, rw e tt)

  pub FilesHold-last :
      (fs : List BuildFile) (bs : List Bytes) (f : BuildFile) (b : Bytes)
      → FilesHold fs bs
      → length b ≡ f.md.size
      → Holds f.chunks b
      → FilesHold (fs ++ f ∷ []) (bs ++ b ∷ [])
  FilesHold-last [] [] f b h len holds = (len, holds, tt)
  FilesHold-last [] (c ∷ bs) f b h len holds = absurd h
  FilesHold-last (g ∷ fs) [] f b h len holds = absurd h
  FilesHold-last (g ∷ fs) (c ∷ bs) f b h len holds =
      (h.0, h.1, FilesHold-last fs bs f b h.2 len holds)

  pub Pieces-last :
      (cs : List FileChunk) (ps : List Bytes) (c : FileChunk) (p : Bytes)
      → Pieces cs ps
      → Piece c p
      → Pieces (cs ++ c ∷ []) (ps ++ p ∷ [])
  Pieces-last [] [] c p h k = (k, tt)
  Pieces-last [] (q ∷ ps) c p h k = absurd h
  Pieces-last (d ∷ cs) [] c p h k = absurd h
  Pieces-last (d ∷ cs) (q ∷ ps) c p h k = (h.0, Pieces-last cs ps c p h.1 k)

  pub concat-last : (ps : List Bytes) (p : Bytes) → concat (ps ++ p ∷ []) ≡ concat ps ++ p
  concat-last [] p = append-nil p
  concat-last (q ∷ ps) p = ap (λ r. q ++ r) (concat-last ps p) ∙ sym (append_assoc q (concat ps) p)

  pub Holds-last :
      (cs : List FileChunk) (content p : Bytes) (c : FileChunk)
      → Holds cs content
      → Piece c p
      → Holds (cs ++ c ∷ []) (content ++ p)
  Holds-last cs content p c (ps, e, h) k =
      (ps ++ p ∷ [], concat-last ps p ∙ ap (λ r. r ++ p) e, Pieces-last cs ps c p h k)

  pub next_file-Inv :
      (done fs : List BuildFile) (dones bs : List Bytes)
      → FilesHold done dones
      → Fresh fs bs
      → Inv (next_file done fs) (dones ++ bs) (concat bs)
  unfolding next_file
  next_file-Inv done [] dones [] held fresh = record {
    dones = dones;
    todo = [];
    whole = refl;
    held = held;
    ahead = (refl, refl, refl);
  }
  next_file-Inv done [] dones (b ∷ bs) held fresh = absurd fresh
  next_file-Inv done (f ∷ fs) dones [] held fresh = absurd fresh
  next_file-Inv done (f ∷ fs) dones (b ∷ bs) held (len, fits, empty, fresh) =
      elim (Bool-cases (ltb 0 f.md.size)) [
        | inl some_bytes ↦
            rw (some_bytes, next_file)
              (record {
                dones = dones;
                todo = b ∷ bs;
                whole = refl;
                held = held;
                ahead = (len, fits, ground arith, Holds-empty f.chunks empty, fresh, refl);
              })
        | inr no_bytes ↦
            rw (no_bytes, next_file)
              (subst₂ (Inv (next_file (done ++ f ∷ []) fs)) (append_assoc dones (b ∷ []) bs)
                (ap (λ (r : Bytes). r ++ concat bs) (sym (nil_of_length b (ground arith))))
                (next_file-Inv (done ++ f ∷ []) fs (dones ++ b ∷ []) bs
                  (FilesHold-last done dones f b held len (
                    subst (Holds f.chunks) (sym (nil_of_length b (ground arith)))
                      (Holds-empty f.chunks empty)))
                  fresh))
      ]

  pub files_of-end : (cur : Cursor) → cur.file ≡ none → cur.rest ≡ [] → files_of cur ≡ cur.done
  unfolding files_of
  files_of-end cur e r = rw (e, r, append-nil, append-nil)

-- ===== src/Builder/Chunks/Kept.antt =====
-- puzzlefs-lib/src/builder.rs, `process_chunks`: what holds of the files, if each new chunk
-- keeps it, holds of the files that it returns.
use puzzlefs.Prelude.{
  ℕ, ◌+◌, zero, suc, ◌≡◌, sym, ap, ◌∙◌, subst, Bool, true, false, Bytes, Option, none, some, List,
  [], ◌∷◌, ◌++◌, append_assoc, append-nil, length, ltb, min, ◌==◌, add64, sub64, Bool-cases, inl,
  inr,
}
use puzzlefs.Errors.{Result, ok, err, panic, >>=-eq-ok, ok-injective}
use puzzlefs.Format.{Hash, VerityData}
use puzzlefs.Format.Verity.{insert}
use puzzlefs.Format.Stack.{finished}
use puzzlefs.Oci.Put.{BlobHost, Compression, Image, Put, chunk, put_blob}
use puzzlefs.Builder.Chunks.{
  BuildFile, Cursor, next_file, files_of, push_chunk, part, unless_ended, spread, Chunked,
  process_loop, process_chunks,
}

files_of-some :
    (done rest : List BuildFile) (f : BuildFile) (file_used : ℕ)
    → files_of (record { done = done; file = some f; rest = rest; file_used = file_used })
      ≡ done ++ f ∷ rest
unfolding files_of
files_of-some done rest f file_used = append_assoc done (f ∷ []) rest

pub next_file-files_of : (done fs : List BuildFile) → files_of (next_file done fs) ≡ done ++ fs
unfolding next_file files_of
next_file-files_of done [] = append-nil (done ++ [])
next_file-files_of done (f ∷ fs) = elim (Bool-cases (ltb 0 f.md.size)) [
  | inl some_data ↦
      let found : next_file done (f ∷ fs)
          ≡ record { done = done; file = some f; rest = fs; file_used = 0 } =
        rw (next_file, some_data) in
      ap files_of found ∙ files_of-some done fs f 0
  | inr empty ↦
      let skipped : next_file done (f ∷ fs) ≡ next_file (done ++ f ∷ []) fs =
        rw (next_file, empty) in
      ap files_of skipped ∙ next_file-files_of (done ++ f ∷ []) fs ∙ append_assoc done (f ∷ []) fs
]

-- The predicate holds of the files of the cursor that a run gives, if it gives one.
abbrev Keeps : (List BuildFile → Type 0) → Option (Result (Cursor × Bool)) → Type 0
Keeps Q (some (ok (cur, ended))) = Q (files_of cur)
Keeps Q _ = Unit

unless_ended-Keeps :
    (Q : List BuildFile → Type 0) (cur : Cursor) (rest : Option (Result (Cursor × Bool)))
    → Q (files_of cur)
    → Keeps Q rest
    → Keeps Q (unless_ended cur rest)
unfolding unless_ended
unless_ended-Keeps Q cur rest same keeps =
    elim cur.file
      as (λ o. Keeps Q (elim o as (λ g. Option (Result (Cursor × Bool))) [
        | none ↦ some (ok (cur, true))
        | some g ↦ rest
      ])) [ none ↦ same | some f ↦ keeps ]

moved :
    (done rest : List BuildFile) (f : BuildFile)
    → files_of (next_file (done ++ f ∷ []) rest) ≡ done ++ f ∷ rest
moved done rest f = next_file-files_of (done ++ f ∷ []) rest ∙ append_assoc done (f ∷ []) rest

module _ (digest : Hash) (compressed : Bool) (len : ℕ) (Q : List BuildFile → Type 0) where
  -- A file may get a part of this chunk.
  abbrev pub Pushes : Type 0
  Pushes =
      (done rest : List BuildFile) (f : BuildFile) (used room : ℕ)
      → Q (done ++ f ∷ rest)
      → Q (done ++ push_chunk f (part digest compressed len used room) ∷ rest)

  spread-Keeps :
      (fuel used : ℕ) (done : List BuildFile) (file : Option BuildFile) (rest : List BuildFile)
      (file_used : ℕ)
      → Pushes
      → Q (files_of (record { done = done; file = file; rest = rest; file_used = file_used }))
      → Keeps Q (
          spread digest compressed len fuel used
            (record { done = done; file = file; rest = rest; file_used = file_used }))
  unfolding spread files_of
  spread-Keeps zero used done file rest file_used pushes same = tt
  spread-Keeps (suc fuel) used done none rest file_used pushes same =
      elim (Bool-cases (ltb used len)) [
        | inl more ↦ rw (spread, more) tt
        | inr over ↦ rw (spread, over) same
      ]
  spread-Keeps (suc fuel) used done (some f) rest file_used pushes same =
      let room = min (sub64 f.md.size file_used) (sub64 len used) in
      let f' = push_chunk f (part digest compressed len used room) in
      let here : Q (done ++ f ∷ rest) = subst Q (files_of-some done rest f file_used) same in
      let filled : Q (done ++ f' ∷ rest) = pushes done rest f used room here in
      elim (Bool-cases (ltb used len)) [
        | inr over ↦ rw (spread, over) same
        | inl more ↦ elim (Bool-cases (add64 file_used room == f.md.size)) [
          | inr partly ↦
              let filled' =
                subst Q (sym (files_of-some done rest f' (add64 file_used room))) filled in
              rw (spread, more, partly)
                (spread-Keeps fuel (add64 used room) done (some f') rest (add64 file_used room)
                  pushes filled')
          | inl full ↦
              let cur' = next_file (done ++ f' ∷ []) rest in
              let same' : Q (files_of cur') = subst Q (sym (moved done rest f')) filled in
              rw (spread, more, full)
                (unless_ended-Keeps Q cur'
                  (spread digest compressed len fuel (add64 used room) cur') same'
                  (spread-Keeps fuel (add64 used room) cur'.done cur'.file cur'.rest cur'.file_used
                    pushes same'))
        ]
      ]

-- What may depend on the blobs that are there is kept when a chunk is stored.
abbrev pub Stores :
    (BlobHost) → Compression → (List (Hash × Bytes) → List BuildFile → Type 0) → Type 0
Stores h c Q =
    (bytes : Bytes) (image : Image) (p : Put)
    → put_blob h c bytes chunk image ≡ ok p
    → ((fs : List BuildFile) → Q image.blobs fs → Q p.image.blobs fs)
      × Pushes p.descriptor.digest p.compressed (length bytes) (Q p.image.blobs)

module _ (h : BlobHost) (c : Compression) (Q : List (Hash × Bytes) → List BuildFile → Type 0) where
  finished-Keeps :
      (R : List BuildFile → Type 0) (run : Option (Result (Cursor × Bool))) (cur : Cursor)
      (ended : Bool)
      → Keeps R run
      → finished run ≡ ok (cur, ended)
      → R (files_of cur)
  finished-Keeps R none cur ended keeps e = cc
  finished-Keeps R (some panic) cur ended keeps e = cc
  finished-Keeps R (some (err x)) cur ended keeps e = cc
  finished-Keeps R (some (ok (cur', ended'))) cur ended keeps e =
      subst (λ p. R (files_of p.0)) (ok-injective e) keeps

  -- After a chunk the loop goes on, or ends with the last chunk.
  after_chunk-kept :
      (cur : Cursor) (ended : Bool) (chunks : List (Option Bytes)) (verity : VerityData)
      (image : Image) (r : Chunked)
      → Q image.blobs (files_of cur)
      → (process_loop h c chunks cur verity image ≡ ok r → Q r.image.blobs r.files)
      → ◌≡◌ {A = Result Chunked}
          (elim ended [
            | false ↦ process_loop h c chunks cur verity image
            | true ↦ elim chunks [
              | [] ↦ ok (record { files = files_of cur; verity_data = verity; image = image })
              | _ ∷ _ ↦ panic
            ]
          ])
          (ok r)
      → Q r.image.blobs r.files
  after_chunk-kept cur false chunks verity image r same more done = more done
  after_chunk-kept cur true [] verity image r same more done =
      subst (λ (x : Chunked). Q x.image.blobs x.files) (ok-injective done) same
  after_chunk-kept cur true (_ ∷ _) verity image r same more done = cc

  process_loop-kept :
      (chunks : List (Option Bytes)) (cur : Cursor) (verity : VerityData) (image : Image)
      (r : Chunked)
      → Stores h c Q
      → Q image.blobs (files_of cur)
      → process_loop h c chunks cur verity image ≡ ok r
      → Q r.image.blobs r.files
  unfolding process_loop
  process_loop-kept [] cur verity image r stores same done =
      subst (λ (x : Chunked). Q x.image.blobs x.files) (ok-injective done) same
  process_loop-kept (none ∷ chunks) cur verity image r stores same done = cc
  process_loop-kept (some bytes ∷ chunks) cur verity image r stores same done =
      let (p, put, done1) = >>=-eq-ok (put_blob h c bytes chunk image) _ done in
      let ((cur', ended), ran, done2) =
        >>=-eq-ok
          (finished
            (spread p.descriptor.digest p.compressed (length bytes) (length bytes + 1) 0 cur))
          _ done1 in
      let (grow, pushes) = stores bytes image p put in
      let kept =
        spread-Keeps p.descriptor.digest p.compressed (length bytes) (Q p.image.blobs)
          (length bytes + 1) 0 cur.done cur.file cur.rest cur.file_used pushes
          (grow (files_of cur) same) in
      let same' : Q p.image.blobs (files_of cur') =
        finished-Keeps (Q p.image.blobs) _ cur' ended kept ran in
      let verity' = insert p.descriptor.digest p.fs_verity_digest verity in
      after_chunk-kept cur' ended chunks verity' p.image r same'
        (λ e. process_loop-kept chunks cur' verity' p.image r stores same' e) done2

pub process_chunks-kept :
    (h : BlobHost) (c : Compression) (Q : List (Hash × Bytes) → List BuildFile → Type 0)
    (chunks : List (Option Bytes)) (files : List BuildFile) (verity : VerityData) (image : Image)
    (r : Chunked)
    → Stores h c Q
    → Q image.blobs files
    → process_chunks h c chunks files verity image ≡ ok r
    → Q r.image.blobs r.files
unfolding process_chunks
process_chunks-kept h c Q chunks files verity image r stores before done =
    process_loop-kept h c Q chunks (next_file [] files) verity image r stores
      (subst (Q image.blobs) (sym (next_file-files_of [] files)) before) done

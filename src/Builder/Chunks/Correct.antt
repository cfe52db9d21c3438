-- ===== src/Builder/Chunks/Correct.antt =====
-- puzzlefs-lib/src/builder.rs: `process_chunks` stores every byte of the files.
use puzzlefs.Prelude.{
  ℕ, ◌+◌, ◌<◌, ◌≡◌, refl, ap, sym, ◌∙◌, subst, Bool, true, false, Bytes, Option, none, some, List,
  [], ◌∷◌, ◌++◌, length, u64_mod, Option-cases, inl, inr, arith, append-nil, drop, length-drop, ◌⊎◌,
  length-append, All,
}
use puzzlefs.Errors.{Result, ok, err, panic}
use puzzlefs.Format.{Hash, FileChunk, VerityData}
use puzzlefs.Format.Verity.{insert}
use puzzlefs.Oci.Put.{BlobHost, Compression, chunk, Image}
use puzzlefs.Oci.Put.Correct.{IsAddressed, Flagged, put_blob-Flagged}
use puzzlefs.Reader.File.Correct.{concat}
use puzzlefs.Builder.Chunks.{
  BuildFile, Cursor, next_file, files_of, spread, Chunked, process_loop, process_chunks,
}
use puzzlefs.Builder.Chunks.Holds.{FilesHold, Fresh, Ahead, Inv, next_file-Inv, files_of-end}
use puzzlefs.Builder.Chunks.Present.{There, AllPresent, process_chunks-AllPresent}
use puzzlefs.Builder.Chunks.Works.{Works, put_blob-returns}
use puzzlefs.Builder.Chunks.Spread.{Spread, spread-Spread}

-- A chunk as the chunker gives it: it has data, and its length fits the machine.
abbrev pub Chunks : List Bytes → Type 0
Chunks [] = Unit
Chunks (b ∷ bs) = (0 < length b) × (length b < u64_mod) × Chunks bs

abbrev pub read_chunks : List Bytes → List (Option Bytes)
read_chunks [] = []
read_chunks (b ∷ bs) = some b ∷ read_chunks bs

no-Chunks : (bs : List Bytes) → Chunks bs → concat bs ≡ [] → bs ≡ []
no-Chunks [] h e = refl
no-Chunks (b ∷ bs) (some_data, small, h) e =
    absurd (omega (arith, ap length e, length-append b (concat bs)))

module _ (P : Hash → Bool → Bytes → Type 0) where
  wants :
      (f : BuildFile) (rest : List BuildFile) (used : ℕ) (todo : List Bytes)
      → ¬ Ahead P (some f) rest used todo []
  wants f rest used [] h = h
  wants f rest used (b ∷ bs) (len, fits, some_left, holds, fresh, left) =
      absurd
        (omega (arith, ap length left, length-append (drop used b) (concat bs), length-drop used b))

  at_end :
      (cur : Cursor) (contents : List Bytes)
      → Inv P cur contents []
      → FilesHold P (files_of cur) contents
  at_end cur contents inv = elim (Option-cases cur.file) [
    | inl e ↦
        let (no_rest, no_todo, _) = rw e at inv.ahead in
        subst (λ (fs : List BuildFile). FilesHold P fs contents)
          (sym (files_of-end P cur e no_rest))
          (subst (FilesHold P cur.done)
            (sym (append-nil inv.dones)
              ∙ ap (λ (r : List Bytes). inv.dones ++ r) (sym no_todo)
              ∙ inv.whole)
            inv.held)
    | inr (f, e) ↦ absurd (wants f cur.rest cur.file_used inv.todo (rw e at inv.ahead))
  ]

  -- The spread of a chunk returned.
  Spread-returns :
      (contents : List Bytes) (later : Bytes) (x : Option (Result (Cursor × Bool)))
      → Spread P contents later x
      → ((cur : Cursor) × (x ≡ some (ok (cur, false))) × Inv P cur contents later)
        ⊎ ((cur : Cursor) × (x ≡ some (ok (cur, true)))
            × FilesHold P (files_of cur) contents
            × (later ≡ []))
  Spread-returns contents later none h = absurd h
  Spread-returns contents later (some panic) h = absurd h
  Spread-returns contents later (some (err e)) h = absurd h
  Spread-returns contents later (some (ok (cur, false))) h = inl (cur, refl, h)
  Spread-returns contents later (some (ok (cur, true))) h = inr (cur, refl, h.0, h.1)

module _ (h : BlobHost) where
  -- The blob of this digest stores the bytes, compressed if the flag is set; a `u64` counts them.
  abbrev pub BlobOf : Hash → Bool → Bytes → Type 0
  BlobOf digest compressed bytes = Flagged h compressed bytes digest × (length bytes < u64_mod)

  -- A run that returned files that hold the contents, with the blobs under the digests of what they
  -- hold.
  abbrev Held : List Bytes → Result Chunked → Type 0
  Held contents x =
      (r : Chunked) × (x ≡ ok r) × FilesHold BlobOf r.files contents × IsAddressed h r.image.blobs

  -- And the blob of each chunk of the files is stored.
  abbrev pub AllHeld : List Bytes → Result Chunked → Type 0
  AllHeld contents x =
      (r : Chunked) × (x ≡ ok r)
      × FilesHold BlobOf r.files contents
      × IsAddressed h r.image.blobs
      × AllPresent r.image.blobs r.files

module _ (h : BlobHost) (c : Compression) (works : Works h) (contents : List Bytes) where
  loop_holds :
      (chunks : List Bytes) (cur : Cursor) (verity : VerityData) (image : Image)
      → Chunks chunks
      → IsAddressed h image.blobs
      → Inv (BlobOf h) cur contents (concat chunks)
      → Held h contents (process_loop h c (read_chunks chunks) cur verity image)
  unfolding process_loop
  loop_holds [] cur verity image fit addressed inv = (
    record { files = files_of cur; verity_data = verity; image = image },
    refl,
    at_end (BlobOf h) cur contents inv,
    addressed,
  )
  loop_holds (b ∷ bs) cur verity image (some_data, small, fit) addressed inv =
      let (p, put, addressed') = put_blob-returns h c b chunk image works addressed in
      let flagged : BlobOf h p.descriptor.digest p.compressed b =
        (put_blob-Flagged h c b chunk image p put, small) in
      let verity' = insert p.descriptor.digest p.fs_verity_digest verity in
      elim (Spread-returns (BlobOf h) contents (concat bs)
        (spread p.descriptor.digest p.compressed (length b) (length b + 1) 0 cur)
        (spread-Spread (BlobOf h) p.descriptor.digest p.compressed b (concat bs) contents flagged
          small (length b + 1) 0 cur (omega arith) (omega arith) inv)) [
            | inl (cur', spreads, after) ↦
                rw (put, spreads) (loop_holds bs cur' verity' p.image fit addressed' after)
            | inr (cur', spreads, holds, used_up) ↦
                rw (put, spreads, no-Chunks bs fit used_up)
                  (
                    record { files = files_of cur'; verity_data = verity'; image = p.image },
                    refl,
                    holds,
                    addressed',
                  )
          ]

Fresh-AllPresent :
    (P : Hash → Bool → Bytes → Type 0) (blobs : List (Hash × Bytes)) (fs : List BuildFile)
    (bs : List Bytes)
    → Fresh P fs bs
    → AllPresent blobs fs
Fresh-AllPresent P blobs [] [] fresh = tt
Fresh-AllPresent P blobs [] (b ∷ bs) fresh = absurd fresh
Fresh-AllPresent P blobs (f ∷ fs) [] fresh = absurd fresh
Fresh-AllPresent P blobs (f ∷ fs) (b ∷ bs) (size, small, empty, fresh) = (
  subst (λ cs. All (λ (c : FileChunk). There blobs c.blob.digest) cs) (sym empty) tt,
  Fresh-AllPresent P blobs fs bs fresh,
)

-- Where the compressor and the file system do what they are asked for, and the chunks make up the
-- contents of the files, which start with no chunks, `process_chunks` returns: in order, each file
-- has the chunks that name, in blobs, the parts that make up its content. The files without data are
-- among them. The blob of every chunk is in the image, and every blob of the image is stored under
-- the digest of its content.
pub process_chunks-FilesHold :
    (h : BlobHost) (c : Compression) (chunks : List Bytes) (files : List BuildFile)
    (contents : List Bytes) (verity : VerityData) (image : Image)
    → Works h
    → IsAddressed h image.blobs
    → Chunks chunks
    → Fresh (BlobOf h) files contents
    → concat chunks ≡ concat contents
    → AllHeld h contents (process_chunks h c (read_chunks chunks) files verity image)
unfolding process_chunks
process_chunks-FilesHold h c chunks files contents verity image works addressed fit fresh e =
    let (r, done, holds, addressed') =
      loop_holds h c works contents chunks (next_file [] files) verity image fit addressed (
        subst (Inv (BlobOf h) (next_file [] files) contents) (sym e)
          (next_file-Inv (BlobOf h) [] files [] contents tt fresh)) in
    (
      r,
      done,
      holds,
      addressed',
      process_chunks-AllPresent h c (read_chunks chunks) files verity image r
          (Fresh-AllPresent (BlobOf h) image.blobs files contents fresh) done,
    )

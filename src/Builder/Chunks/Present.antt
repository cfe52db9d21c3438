-- ===== src/Builder/Chunks/Present.antt =====
-- puzzlefs-lib/src/builder.rs, `process_chunks`: the blobs that the chunks name are stored.
use puzzlefs.Prelude.{
  ◌≡◌, ◌∙◌, inl, inr, Bytes, Option, some, List, [], ◌∷◌, ◌++◌, length, All, All-append,
}
use puzzlefs.Errors.{ok}
use puzzlefs.Format.{Hash, FileChunk, VerityData}
use puzzlefs.Oci.Put.{BlobHost, Compression, Image, Put, blob, chunk, put_blob}
use puzzlefs.Oci.Put.Correct.{put_blob-Keeps}
use puzzlefs.Builder.Chunks.{BuildFile, part, push_chunk, Chunked, process_chunks}
use puzzlefs.Builder.Chunks.Kept.{Stores, process_chunks-kept}

abbrev pub There : List (Hash × Bytes) → Hash → Type 0
There blobs d = (stored : Bytes) × (blob d blobs ≡ some stored)

-- The blob of each chunk is there.
abbrev pub Present : List (Hash × Bytes) → List FileChunk → Type 0
Present blobs cs = All (λ (c : FileChunk). There blobs c.blob.digest) cs

abbrev pub AllPresent : List (Hash × Bytes) → List BuildFile → Type 0
AllPresent blobs fs = All (λ (f : BuildFile). Present blobs f.chunks) fs

-- Where every blob stays, so do the blobs of the chunks.
abbrev Stay : List (Hash × Bytes) → List (Hash × Bytes) → Type 0
Stay bs bs' = (d : Hash) → There bs d → There bs' d

Present-Stay :
    (bs bs' : List (Hash × Bytes)) (cs : List FileChunk)
    → Stay bs bs'
    → Present bs cs
    → Present bs' cs
Present-Stay bs bs' [] stay h = tt
Present-Stay bs bs' (c ∷ cs) stay (h, hs) = (stay c.blob.digest h, Present-Stay bs bs' cs stay hs)

AllPresent-Stay :
    (bs bs' : List (Hash × Bytes)) (fs : List BuildFile)
    → Stay bs bs'
    → AllPresent bs fs
    → AllPresent bs' fs
AllPresent-Stay bs bs' [] stay h = tt
AllPresent-Stay bs bs' (f ∷ fs) stay (h, hs) =
    (Present-Stay bs bs' f.chunks stay h, AllPresent-Stay bs bs' fs stay hs)

AllPresent-push :
    (blobs : List (Hash × Bytes)) (done rest : List BuildFile) (f : BuildFile) (c : FileChunk)
    → There blobs c.blob.digest
    → AllPresent blobs (done ++ f ∷ rest)
    → AllPresent blobs (done ++ push_chunk f c ∷ rest)
AllPresent-push blobs [] rest f c there (h, hs) =
    (All-append (λ (x : FileChunk). There blobs x.blob.digest) f.chunks (c ∷ []) h (there, tt), hs)
AllPresent-push blobs (g ∷ done) rest f c there (h, hs) =
    (h, AllPresent-push blobs done rest f c there hs)

module _ (h : BlobHost) (c : Compression) where
  put_blob-Stay :
      (bytes : Bytes) (image : Image) (p : Put)
      → put_blob h c bytes chunk image ≡ ok p
      → Stay image.blobs p.image.blobs
  put_blob-Stay bytes image p put d (old, there) =
      elim (put_blob-Keeps h c bytes chunk image p d put).2 [
        | inl missing ↦ absurd (cc (there, missing))
        | inr same ↦ (old, same ∙ there)
      ]

  put_blob-There :
      (bytes : Bytes) (image : Image) (p : Put)
      → put_blob h c bytes chunk image ≡ ok p
      → There p.image.blobs p.descriptor.digest
  put_blob-There bytes image p put =
      let (stored, there, hashes) = (put_blob-Keeps h c bytes chunk image p [] put).0 in
      (stored, there)

  Stores-AllPresent : Stores h c AllPresent
  Stores-AllPresent bytes image p put = (
    λ fs present.
        AllPresent-Stay image.blobs p.image.blobs fs (put_blob-Stay bytes image p put) present,
    λ done rest f used room present.
        AllPresent-push p.image.blobs done rest f
          (part p.descriptor.digest p.compressed (length bytes) used room)
          (put_blob-There bytes image p put) present,
  )

  -- After a run that returned, every chunk of the files names a blob that is there.
  pub process_chunks-AllPresent :
      (chunks : List (Option Bytes)) (files : List BuildFile) (verity : VerityData) (image : Image)
      (r : Chunked)
      → AllPresent image.blobs files
      → process_chunks h c chunks files verity image ≡ ok r
      → AllPresent r.image.blobs r.files
  process_chunks-AllPresent chunks files verity image r before done =
      process_chunks-kept h c AllPresent chunks files verity image r Stores-AllPresent before done

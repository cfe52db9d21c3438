-- ===== src/Builder/Delta/ReadBack.antt =====
-- puzzlefs-lib/src/builder.rs and reader/puzzlefs.rs: the files of a tree, read from the image that is
-- built of it.
use puzzlefs.Prelude.{
  ℕ, ◌+◌, ◌<◌, ◌≡◌, sym, ap, ◌∙◌, subst, Bool, Bytes, Option, List, [], ◌∷◌, length, map, All,
  u64_mod, arith,
}
use puzzlefs.Errors.{ok}
use puzzlefs.Format.{Hash, VerityData}
use puzzlefs.Compression.{Host}
use puzzlefs.Oci.Put.{BlobHost, Compression, Image}
use puzzlefs.Oci.Put.Correct.{IsAddressed, NoCollisions}
use puzzlefs.Reader.Lookup.{PuzzleFs}
use puzzlefs.Builder.Stream.{ReaderLink}
use puzzlefs.Builder.Tree.{HostTree}
use puzzlefs.Builder.Chunks.{BuildFile, Chunked, process_chunks}
use puzzlefs.Builder.Chunks.Holds.{Fresh}
use puzzlefs.Builder.Chunks.Correct.{BlobOf}
use puzzlefs.Builder.Chunks.Works.{Works}
use puzzlefs.Builder.Chunks.ReadBack.{Serves, ReadBack, files_read}
use puzzlefs.Builder.Delta.{Delta, scan}
use puzzlefs.Builder.Delta.Contents.{Sizes}
use puzzlefs.Builder.Delta.Gathered.{Cuts, scan-Streamed, content-links, scan-FilesHold}

Fresh-small :
    (P : Hash → Bool → Bytes → Type 0) (fs : List BuildFile) (bs : List Bytes)
    → Fresh P fs bs
    → All (λ (b : Bytes). length b < u64_mod) bs
Fresh-small P [] [] fresh = tt
Fresh-small P [] (b ∷ bs) fresh = absurd fresh
Fresh-small P (f ∷ fs) [] fresh = absurd fresh
Fresh-small P (f ∷ fs) (b ∷ bs) (size, small, empty, fresh) =
    (omega (arith, size, small), Fresh-small P fs bs fresh)

-- Where a tree is read without error, over an image or from scratch, with files as `scan-FilesHold`
-- wants them, the chunks of its files can be made, and then any range of each file reads, from the
-- image without fs-verity, as that range of the content of the file of the tree, be the chunks
-- compressed or not. SHA-256 has no collisions, the host serves the blobs that are stored, and the
-- range does not wrap.
pub built_files-ReadBack :
    (h : HostTree) (content : Bytes → Bytes) (blobs : BlobHost) (c : Compression)
    (existing : Option PuzzleFs) (st : Delta h) (verity : VerityData) (image : Image)
    (host : List (Hash × Bytes) → Host) (offset size : ℕ)
    → Sizes h content (BlobOf blobs)
    → Cuts h content
    → Works blobs
    → IsAddressed blobs image.blobs
    → NoCollisions blobs
    → ((bs : List (Hash × Bytes)) → Serves blobs bs (host bs))
    → offset + size < u64_mod
    → scan h existing ≡ ok st
    → (r : Chunked) × (process_chunks blobs c (h.stream_cdc st.fs_stream) st.files verity image
        ≡ ok r)
      × ReadBack
          (host r.image.blobs)
          offset
          size
          r.files
          (map (λ l. content l.file) st.fs_stream.reader_chain)
built_files-ReadBack h content blobs c existing st verity image host offset size sizes cuts works
      addressed unique serves fits scanned =
    let (paths, links, reader, fresh) =
      scan-Streamed h content (BlobOf blobs) existing st sizes scanned in
    let (r, done, holds, addressed', present) =
      scan-FilesHold h content blobs c existing st verity image sizes cuts works addressed
        scanned in
    let contents : map (λ (l : ReaderLink). content l.file) st.fs_stream.reader_chain
        ≡ map content paths =
      ap (map (λ (l : ReaderLink). content l.file)) links ∙ content-links content paths in
    let small = Fresh-small (BlobOf blobs) st.files (map content paths) fresh in
    (
      r,
      done,
      files_read blobs r.image.blobs (host r.image.blobs) (serves r.image.blobs) unique addressed'
          offset size fits r.files _ present holds
          (subst (λ (bs : List Bytes). All (λ (b : Bytes). length b < u64_mod) bs) (sym contents)
            small),
    )

-- ===== src/Builder/Chunks/ReadBack.antt =====
-- puzzlefs-lib/src/builder.rs and reader/puzzlefs.rs: the files that were built, read back.
use puzzlefs.Prelude.{
  ℕ, ◌+◌, ◌<◌, ◌≡◌, refl, sym, ap, ◌∙◌, subst, Bool, true, false, Bytes, none, some, List, [], ◌∷◌,
  length, All, take, drop, u64_mod,
}
use puzzlefs.Errors.{Result, ok}
use puzzlefs.Format.{Hash, BlobRef, FileChunk, Inode, InodeMode}
use puzzlefs.Format.Inodes.{new_inode}
use puzzlefs.Compression.{Host}
use puzzlefs.Oci.Put.{BlobHost, blob}
use puzzlefs.Oci.Put.Correct.{IsAddressed, Flagged, NoCollisions}
use puzzlefs.Oci.Blob.{fill_from_chunk}
use puzzlefs.Oci.Blob.Correct.{FileReads, ZstdReads, Stores}
use puzzlefs.Reader.File.{file_read}
use puzzlefs.Reader.File.Correct.{ChunkReads, ChunksRead, ChunkReads-blob, file_read-range}
use puzzlefs.Builder.Chunks.{BuildFile}
use puzzlefs.Builder.Chunks.Holds.{Piece, Pieces, Holds, FilesHold}
use puzzlefs.Builder.Chunks.Correct.{BlobOf}
use puzzlefs.Builder.Chunks.Present.{There, Present, AllPresent}

-- What the code relies on of the host: each blob that is stored can be opened, read as a file, and,
-- if it is what the encoder made of some data, read as a stream of that data.
abbrev pub Serves : BlobHost → List (Hash × Bytes) → Host → Type 0
Serves h blobs rh =
    (d : Hash) (stored : Bytes)
    → blob d blobs ≡ some stored
    → (f : rh.File) × (rh.open_blob d ≡ ok f)
      × FileReads rh f stored
      × ((b : Bytes) → length b < u64_mod → h.zstd_encode b ≡ ok stored → ZstdReads rh f b)

-- The inode of a file of the image.
abbrev pub inode_of : BuildFile → Inode
inode_of f = new_inode f.ino f.md (InodeMode.file f.chunks) f.additional

abbrev pub FileReadsBack : Host → ℕ → ℕ → BuildFile → Bytes → Type 0
FileReadsBack rh offset size f b =
    file_read rh (inode_of f) offset size none ≡ ok (take size (drop offset b))

-- In order, the range of each file reads as that range of its content.
abbrev pub ReadBack : Host → ℕ → ℕ → List BuildFile → List Bytes → Type 0
ReadBack rh offset size [] [] = Unit
ReadBack rh offset size [] (b ∷ bs) = ⊥
ReadBack rh offset size (f ∷ fs) [] = ⊥
ReadBack rh offset size (f ∷ fs) (b ∷ bs) =
    FileReadsBack rh offset size f b × ReadBack rh offset size fs bs

module _ (h : BlobHost) (blobs : List (Hash × Bytes)) (rh : Host) (serves : Serves h blobs rh)
    (unique : NoCollisions h) (addressed : IsAddressed h blobs) where
  served :
      (flag : Bool) (d : Hash) (b : Bytes)
      → length b < u64_mod
      → There blobs d
      → Flagged h flag b d
      → (f : rh.File) × (rh.open_blob d ≡ ok f) × Stores rh flag f b
  served false d b small (stored, there) same =
      let (f, opened, reads, _) = serves d stored there in
      (f, opened, subst (FileReads rh f) (unique stored b (addressed d stored there ∙ same)) reads)
  served true d b small (stored, there) (encoded, encodes, _, same) =
      let (f, opened, _, streams) = serves d stored there in
      let kept : stored ≡ encoded = unique stored encoded (addressed d stored there ∙ same) in
      (f, opened, streams b small (encodes ∙ ap ok (sym kept)))

  abbrev read_part : BlobRef → ℕ → ℕ → Result Bytes
  read_part b addl n = fill_from_chunk rh b addl n none

  Piece-ChunkReads :
      (c : FileChunk) (p : Bytes)
      → There blobs c.blob.digest
      → Piece (BlobOf h) c p
      → ChunkReads read_part c p
  Piece-ChunkReads c p there (bytes, (flagged, small), fits, part) =
      let (f, opened, stores) = served c.blob.compressed c.blob.digest bytes small there flagged in
      subst (ChunkReads read_part c) (sym part)
        (ChunkReads-blob rh none c bytes (f, opened, tt, stores) fits small)

  Pieces-ChunksRead :
      (cs : List FileChunk) (ps : List Bytes)
      → Present blobs cs
      → Pieces (BlobOf h) cs ps
      → ChunksRead read_part cs ps
  Pieces-ChunksRead [] [] present pieces = tt
  Pieces-ChunksRead [] (p ∷ ps) present pieces = absurd pieces
  Pieces-ChunksRead (c ∷ cs) [] present pieces = absurd pieces
  Pieces-ChunksRead (c ∷ cs) (p ∷ ps) (there, present) (piece, pieces) =
      (Piece-ChunkReads c p there piece, Pieces-ChunksRead cs ps present pieces)

  module _ (offset size : ℕ) (fits : offset + size < u64_mod) where
    file_reads :
        (f : BuildFile) (b : Bytes)
        → Present blobs f.chunks
        → Holds (BlobOf h) f.chunks b
        → length b < u64_mod
        → FileReadsBack rh offset size f b
    unfolding new_inode
    file_reads f b present (ps, whole, pieces) small =
        file_read-range rh (inode_of f) none f.chunks ps offset size refl
          (Pieces-ChunksRead f.chunks ps present pieces) fits
          (subst (λ (l : Bytes). length l < u64_mod) (sym whole) small)
        ∙ ap (λ (l : Bytes). ok (take size (drop offset l))) whole

    pub files_read :
        (fs : List BuildFile) (bs : List Bytes)
        → AllPresent blobs fs
        → FilesHold (BlobOf h) fs bs
        → All (λ (b : Bytes). length b < u64_mod) bs
        → ReadBack rh offset size fs bs
    files_read [] [] present holds small = tt
    files_read [] (b ∷ bs) present holds small = absurd holds
    files_read (f ∷ fs) [] present holds small = absurd holds
    files_read (f ∷ fs) (b ∷ bs) (here, present) (_, hold, holds) (fits_b, small) =
        (file_reads f b here hold fits_b, files_read fs bs present holds small)

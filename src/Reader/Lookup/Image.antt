-- ===== src/Reader/Lookup/Image.antt =====
-- puzzlefs-lib/src/reader/puzzlefs.rs: a `FileReader` over an image.
use puzzlefs.Prelude.{
  ℕ, ◌+◌, ◌<◌, ◌≡◌, Bytes, none, some, List, [], ◌∷◌, length, length-append, u64_mod, add64,
  add64_exact, arith, ap, ◌∙◌,
}
use puzzlefs.Errors.{ok}
use puzzlefs.Format.{FileChunk, Inode, InodeMode}
use puzzlefs.Format.Inodes.{chunks_len, file_len}
use puzzlefs.Format.Wire.{Capnp, RootfsMsg}
use puzzlefs.Compression.{Host}
use puzzlefs.Oci.Blob.{fill_from_chunk}
use puzzlefs.Reader.File.Correct.{concat, ChunksRead, file_read-range}
use puzzlefs.Reader.Lookup.{FileReader, image_fs, new_reader, copy}
use puzzlefs.Reader.Lookup.Correct.{copy-content}

module _ (h : Host) where
  -- Chunks that are read without verity data.
  abbrev pub PlainReads : List FileChunk → List Bytes → Type 0
  PlainReads = ChunksRead (λ b addl n. fill_from_chunk h b addl n none)

  chunks_len-concat :
      (cs : List FileChunk) (bs : List Bytes)
      → PlainReads cs bs
      → length (concat bs) < u64_mod
      → chunks_len cs ≡ length (concat bs)
  unfolding chunks_len
  chunks_len-concat [] [] reads small = omega arith
  chunks_len-concat [] (b ∷ bs) reads small = absurd reads
  chunks_len-concat (c ∷ cs) [] reads small = absurd reads
  chunks_len-concat (c ∷ cs) (b ∷ bs) (first, reads) small =
      let both = length-append b (concat bs) in
      let rest : chunks_len cs ≡ length (concat bs) =
        chunks_len-concat cs bs reads (omega (arith, both)) in
      ap (add64 c.len) rest
      ∙ add64_exact c.len (length (concat bs)) (omega (arith, both, first.0))
      ∙ omega (arith, both, first.0)

-- Copying a file of an image out of a `FileReader` ends, and gives the bytes that the file's chunks
-- read as, one after the other: each chunk can be read, the buffer has room, and the file's length
-- fits a `u64`.
pub copy-concat :
    (h : Host) (c : Capnp) (rootfs : RootfsMsg c) (inode : Inode) (cs : List FileChunk)
    (bs : List Bytes) (size : ℕ)
    → inode.mode ≡ InodeMode.file cs
    → PlainReads h cs bs
    → 0 < size
    → length (concat bs) < u64_mod
    → (r : FileReader) × (new_reader inode ≡ ok r)
      × (copy (image_fs h c rootfs none) size (length (concat bs) + 1) r [] ≡ some (ok (concat bs)))
unfolding file_len image_fs
copy-concat h c rootfs inode cs bs size mode reads room small =
    copy-content (image_fs h c rootfs none) inode (concat bs) size
      (λ offset n le. file_read-range h inode none cs bs offset n mode reads (omega arith) small)
      room small (rw (mode, chunks_len-concat h cs bs reads small))

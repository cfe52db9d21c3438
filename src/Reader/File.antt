-- ===== src/Reader/File.antt =====
-- puzzlefs-lib/src/reader/puzzlefs.rs, `file_read`: a part of a file, collected from its chunks.
pub mod Correct
use puzzlefs.Prelude.{
  ℕ, ◌+◌, ◌-◌, Bool, true, false, Bytes, Option, List, [], ◌∷◌, ◌++◌, length, ltb, min, add64,
  sub64,
}
use puzzlefs.Errors.{Result, ok, ◌>>=◌}
use puzzlefs.Format.{BlobRef, FileChunk, Inode, VerityData}
use puzzlefs.Format.Inodes.{mode_chunks}
use puzzlefs.Compression.{Host}
use puzzlefs.Oci.Blob.{fill_from_chunk}

-- The loop over the chunks, for the range from `offset` to `end` into a buffer of `size` bytes.
-- `out` is the part of the buffer that is filled, so `buf_offset` is its length; `fill` reads from
-- a chunk's blob.
module _ (fill : BlobRef → ℕ → ℕ → Result Bytes) (offset size end : ℕ) where
  unfoldable pub read_loop : List FileChunk → ℕ → Bytes → Result Bytes
  unfolding add64 sub64
  read_loop [] file_offset out = ok out
  read_loop (chunk ∷ chunks) file_offset out = elim (ltb end file_offset) [
    | true ↦ ok out
    | false ↦ elim (ltb (add64 file_offset chunk.len) offset) [
      | true ↦ read_loop chunks (add64 file_offset chunk.len) out
      | false ↦
          let addl_offset = offset - file_offset in
          let left_in_buf = sub64 size (length out) in
          let to_read = min left_in_buf (sub64 chunk.len addl_offset) in
          do
            b ← fill chunk.blob addl_offset to_read
            read_loop chunks (add64 (add64 file_offset addl_offset) (length b)) (out ++ b)
    ]
  ]

module _ (h : Host) where
  unfoldable pub file_read : Inode → ℕ → ℕ → Option VerityData → Result Bytes
  unfolding read_loop add64
  file_read inode offset size verity_data = do
    chunks ← mode_chunks inode.mode
    read_loop (λ b addl n. fill_from_chunk h b addl n verity_data) offset size (add64 offset size)
        chunks 0 []

-- ===== src/Oci/Blob.antt =====
-- puzzlefs-lib/src/oci.rs and fsverity_helpers.rs: opening a blob, with fs-verity where it is asked
-- for, and reading a part of a chunk.
pub mod Correct
use puzzlefs.Prelude.{
  ℕ, ◌+◌, Bool, true, false, Bytes, bytes_eq, Option, none, some, length, ◌==◌, add64,
  if◌then◌else◌,
}
use puzzlefs.Errors.{Result, ok, err, panic, ◌>>=◌, ◌>>◌, ok_or, io_error, invalid_fs_verity_data}
use puzzlefs.Format.{Hash, BlobRef, VerityData, sha256_block_size}
use puzzlefs.Format.Verity.{get}
use puzzlefs.Compression.{
  Host, Decompressor, noop_decompress, zstd_decompress, SeekFrom, seek, read,
}

-- `map_err(|e| io::Error::new(io::ErrorKind::Other, e))`
abbrev pub as_io_error {ℓ} : {A : Type ℓ} → Result A → Result A
as_io_error (ok a) = ok a
as_io_error (err e) = err (io_error none)
as_io_error panic = panic

module _ (h : Host) where
  unfoldable pub check_fs_verity : h.File → Bytes → Result (Unit {0})
  unfolding bytes_eq
  check_fs_verity file expected =
      if length expected == sha256_block_size
      then (do
        measurement ← h.measure file
        if bytes_eq expected measurement then ok tt else err invalid_fs_verity_data)
      else err invalid_fs_verity_data

  unfoldable pub open_raw_blob : Hash → Option Bytes → Result h.File
  unfolding check_fs_verity
  open_raw_blob digest none = h.open_blob digest
  open_raw_blob digest (some verity) = do
    file ← h.open_blob digest
    as_io_error (check_fs_verity file verity)
    ok file

  -- `open_compressed_blob::<Zstd>` or `::<Noop>`, as the flag says.
  unfoldable pub open_compressed_blob : Bool → Hash → Option Bytes → Result (Decompressor h)
  unfolding open_raw_blob noop_decompress zstd_decompress
  open_compressed_blob compressed digest verity = do
    f ← open_raw_blob digest verity
    elim compressed [ true ↦ zstd_decompress h f | false ↦ noop_decompress h f ]

  -- The fs-verity digest that the image records for a blob, where verity is in use.
  unfoldable pub file_verity : Option VerityData → Hash → Result (Option Bytes)
  unfolding get
  file_verity none digest = ok none
  file_verity (some verity) digest = do
    v ← ok_or (get digest verity) invalid_fs_verity_data
    ok (some v)

  -- Reads into a buffer of `n` bytes: the bytes read, at most `n`.
  unfoldable pub fill_from_chunk : BlobRef → ℕ → ℕ → Option VerityData → Result Bytes
  unfolding file_verity open_compressed_blob seek read add64
  fill_from_chunk chunk addl_offset n verity_data = do
    verity ← file_verity verity_data chunk.digest
    blob ← open_compressed_blob chunk.compressed chunk.digest verity
    (blob', _) ← seek h blob (SeekFrom.start (add64 chunk.offset addl_offset))
    (_, out) ← read h blob' n
    ok out

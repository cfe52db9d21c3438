-- ===== src/Compression.antt =====
-- puzzlefs-lib/src/compression.rs, compression/noop.rs and compression/zstd_seekable_wrapper.rs: the
-- decompressors, over the files and the zstd streams of the host.
pub mod Compressor
use puzzlefs.Prelude.{
  ℕ, zero, suc, Bytes, List, [], ◌∷◌, length, min, add64, sub64, none, u64_mod, if◌then◌else◌, ◌==◌,
  ◌/◌,
}
use puzzlefs.Errors.{Result, ok, err, ◌>>=◌, io_error}
use puzzlefs.Format.{Hash}

-- An `i64` offset. `negsuc n` is -(n + 1).
pub data ℤ : Type 0 where
  pos : ℕ → ℤ
  negsuc : ℕ → ℤ

pub data SeekFrom : Type 0 where
  start : ℕ → SeekFrom
  end : ℤ → SeekFrom
  current : ℤ → SeekFrom

-- What the code uses of the host: the files of the blob directory, named by their digests, with
-- the seek and read of `std::fs::File` and the fs-verity measurement of the kernel, and the seekable
-- streams of the zstd-seekable crate, which decompress `len` bytes from an offset.
pub record Host : Type 1 where
  pub File : Type 0
  pub open_blob : Hash → Result File
  pub measure : File → Result Bytes
  pub file_seek : File → SeekFrom → Result (File × ℕ)
  pub file_read : File → ℕ → Result (File × Bytes)
  pub Stream : Type 0
  pub stream_init : File → Result Stream
  pub frame_sizes : Stream → List ℕ
  pub decompress : Stream → ℕ → ℕ → Result Bytes

-- `u64::try_from(-e)` for a negative `i64`; the negation of the least `i64` is itself.
unfoldable pub magnitude : ℕ → Result ℕ
magnitude n = if suc n == u64_mod / 2 then err (io_error none) else ok (suc n)

-- The sum of the frames' sizes, over `u64`.
unfoldable pub sum64 : List ℕ → ℕ
sum64 [] = 0
sum64 (n ∷ ns) = add64 n (sum64 ns)

module _ (h : Host) where
  pub data Decompressor : Type 0 where
    noop : h.File → Decompressor
    zstd : h.Stream → ℕ → ℕ → Decompressor

  -- `Noop::decompress` and `Zstd::decompress`
  unfoldable pub noop_decompress : h.File → Result Decompressor
  noop_decompress f = ok (noop f)

  unfoldable pub zstd_decompress : h.File → Result Decompressor
  unfolding sum64
  zstd_decompress f = do stream ← h.stream_init f; ok (zstd stream 0 (sum64 (h.frame_sizes stream)))

  -- The offset of a zstd stream after a seek.
  unfoldable pub zstd_seek : ℕ → ℕ → SeekFrom → Result ℕ
  unfolding magnitude add64 sub64
  zstd_seek offset len (start s) = ok s
  zstd_seek offset len (end (pos zero)) = ok (sub64 len 0)
  zstd_seek offset len (end (pos (suc e))) = err (io_error none)
  zstd_seek offset len (end (negsuc n)) = do e ← magnitude n; ok (sub64 len e)
  zstd_seek offset len (current (pos zero)) = ok (sub64 offset 0)
  zstd_seek offset len (current (pos (suc e))) = ok (add64 offset (suc e))
  zstd_seek offset len (current (negsuc n)) = do e ← magnitude n; ok (sub64 offset e)

  unfoldable pub seek : Decompressor → SeekFrom → Result (Decompressor × ℕ)
  unfolding zstd_seek
  seek (noop f) to = do (f', at) ← h.file_seek f to; ok (noop f', at)
  seek (zstd stream offset len) to = do
    offset' ← zstd_seek offset len to
    ok (zstd stream offset' len, offset')

  -- `read` into a buffer of `n` bytes: the bytes read, at most `n`.
  unfoldable pub read : Decompressor → ℕ → Result (Decompressor × Bytes)
  unfolding add64 sub64
  read (noop f) n = do (f', out) ← h.file_read f n; ok (noop f', out)
  read (zstd stream offset len) n = do
    let size = min n (sub64 len offset)
    out ← h.decompress stream size offset
    ok (zstd stream (add64 offset (length out)) len, out)

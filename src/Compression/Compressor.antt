-- ===== src/Compression/Compressor.antt =====
-- puzzlefs-lib/src/compression.rs, compression/noop.rs and compression/zstd_seekable_wrapper.rs: the
-- compressors, which write into memory.
pub mod Correct
use puzzlefs.Prelude.{
  ℕ, zero, suc, ◌==◌, Bool, true, false, Bytes, Option, none, some, List, [], ◌∷◌, ◌++◌, length,
  drop,
}
use puzzlefs.Errors.{Result, ok, err, panic, ◌>>=◌, io_error}
use puzzlefs.Oci.Put.{Compression, noop, zstd}

-- The streams of the zstd-seekable crate, over a buffer of a fixed size. `compress` takes a part of
-- the input, and gives what it put into the buffer and how many bytes it took; `end_stream` gives
-- what it put into the buffer.
pub record Encoder : Type 1 where
  pub CStream : Type 0
  pub new_stream : Result CStream
  pub compress : CStream → Bytes → Result (CStream × Bytes × ℕ)
  pub end_stream : CStream → Result (CStream × Bytes)

module _ (e : Encoder) where
  -- What was written so far, and the stream.
  pub data Compressor : Type 0 where
    noop_compressor : Bytes → Compressor
    zstd_compressor : Bytes → e.CStream → Compressor

  -- `Noop::compress` and `Zstd::compress`
  unfoldable pub new_compressor : Compression → Result Compressor
  new_compressor noop = ok (noop_compressor [])
  new_compressor zstd = do stream ← e.new_stream; ok (zstd_compressor [] stream)

  -- `write`: the bytes that were taken.
  unfoldable pub write : Compressor → Bytes → Result (Compressor × ℕ)
  write (noop_compressor f) buf = ok (noop_compressor (f ++ buf), length buf)
  write (zstd_compressor f stream) buf = do
    (stream', out, in_pos) ← e.compress stream buf
    ok (zstd_compressor (f ++ out) stream', in_pos)

  -- `io::Write::write_all` of the standard library, which `io::copy` calls for a slice.
  unfoldable pub write_all : ℕ → Compressor → Bytes → Option (Result Compressor)
  unfolding write
  write_all fuel c [] = some (ok c)
  write_all zero c (b ∷ bs) = none
  write_all (suc fuel) c (b ∷ bs) = elim (write c (b ∷ bs)) [
    | ok (c', n) ↦ elim (n == 0) [
      | true ↦ some (err (io_error none))
      | false ↦ write_all fuel c' (drop n (b ∷ bs))
    ]
    | err w ↦ some (err w)
    | panic ↦ some panic
  ]

  -- The loop of `end`.
  unfoldable pub end_loop : ℕ → Bytes → e.CStream → Option (Result Bytes)
  end_loop zero f stream = none
  end_loop (suc fuel) f stream = elim (e.end_stream stream) [
    | ok (stream', out) ↦ elim (length out == 0) [
      | true ↦ some (ok (f ++ out))
      | false ↦ end_loop fuel (f ++ out) stream'
    ]
    | err w ↦ some (err w)
    | panic ↦ some panic
  ]

  unfoldable pub end : ℕ → Compressor → Option (Result Bytes)
  unfolding end_loop
  end fuel (noop_compressor f) = some (ok f)
  end fuel (zstd_compressor f stream) = end_loop fuel f stream

  abbrev pub then_end : ℕ → Option (Result Compressor) → Option (Result Bytes)
  then_end fuel none = none
  then_end fuel (some (ok c)) = end fuel c
  then_end fuel (some (err w)) = some (err w)
  then_end fuel (some panic) = some panic

  -- What `put_blob` does with a compressor: `C::compress`, `io::copy` of the data, and `end`, with
  -- fuel for the two loops.
  unfoldable pub compressed : ℕ → ℕ → Compression → Bytes → Option (Result Bytes)
  unfolding new_compressor write_all end
  compressed writes ends c buf = elim (new_compressor c) [
    | ok compressor ↦ then_end ends (write_all writes compressor buf)
    | err w ↦ some (err w)
    | panic ↦ some panic
  ]

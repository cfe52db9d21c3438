-- ===== src/Oci/Blob/Correct.antt =====
-- puzzlefs-lib/src/oci.rs: reading a part of a chunk gives the bytes of the blob's content.
use puzzlefs.Prelude.{
  ℕ, ◌+◌, ◌-◌, ◌<◌, ◌≤◌, ◌≡◌, refl, Bool, true, false, Bytes, bytes_eq_iff, Option, none, some,
  length, take, drop, min, take-min, length-drop, ==_iff, add64, sub64, add64_exact, sub64_exact,
  u64_mod, arith,
}
use puzzlefs.Errors.{ok, ◌>>=◌, >>=-eq-ok}
use puzzlefs.Format.{Hash, BlobRef, VerityData, sha256_block_size}
use puzzlefs.Format.Verity.{get}
use puzzlefs.Compression.{
  Host, Decompressor, noop_decompress, zstd_decompress, sum64, SeekFrom, seek, read,
}
use puzzlefs.Oci.Blob.{
  check_fs_verity, open_raw_blob, open_compressed_blob, file_verity, fill_from_chunk,
}

module _ (h : Host) where
  -- A host file whose reads give the bytes of `content`, up to its end. (What a regular file does.)
  abbrev pub FileReads : h.File → Bytes → Type 0
  FileReads f content =
      (s n : ℕ)
      → (f1 : h.File) × (at : ℕ) × (f2 : h.File) × (h.file_seek f (SeekFrom.start s) ≡ ok (f1, at))
        × (h.file_read f1 n ≡ ok (f2, take n (drop s content)))

  -- A host file that holds `content` as a seekable zstd stream: the frames' sizes add up to its
  -- length, and a part inside it is decompressed as asked.
  abbrev pub ZstdReads : h.File → Bytes → Type 0
  ZstdReads f content =
      (s : h.Stream) × (h.stream_init f ≡ ok s)
      × (sum64 (h.frame_sizes s) ≡ length content)
      × ((n o : ℕ) → o + n ≤ length content → h.decompress s n o ≡ ok (take n (drop o content)))

  abbrev pub Stores : Bool → h.File → Bytes → Type 0
  Stores true f content = ZstdReads f content
  Stores false f content = FileReads f content

  -- The measurement of the file is the one that the image records for the blob.
  abbrev pub Measures : h.File → Hash → Option VerityData → Type 0
  Measures f digest none = Unit
  Measures f digest (some verity) =
      (v : Hash) × (get digest verity ≡ some v)
      × (length v ≡ sha256_block_size)
      × (h.measure f ≡ ok v)

  -- The blob of a chunk is there, passes verity, and holds `content`.
  abbrev pub BlobReads : BlobRef → Option VerityData → Bytes → Type 0
  BlobReads b verity content =
      (f : h.File) × (h.open_blob b.digest ≡ ok f)
      × Measures f b.digest verity
      × Stores b.compressed f content

  check_fs_verity_lem :
      (f : h.File) (v : Bytes)
      → length v ≡ sha256_block_size
      → h.measure f ≡ ok v
      → check_fs_verity h f v ≡ ok tt
  unfolding check_fs_verity
  check_fs_verity_lem f v len e =
      rw (e, (==_iff (length v) sha256_block_size).1 len, (bytes_eq_iff v v).1 refl)

  opens :
      (b : BlobRef) (verity : Option VerityData) (f : h.File)
      → h.open_blob b.digest ≡ ok f
      → Measures f b.digest verity
      → (file_verity h verity b.digest >>= open_raw_blob h b.digest) ≡ ok f
  unfolding file_verity open_raw_blob
  opens b none f found m = found
  opens b (some verity) f found (v, recorded, len, measured) =
      rw (recorded, found, check_fs_verity_lem f v len measured)

  -- The part of the content that a decompressor with such a file reads after a seek.
  reads :
      (compressed : Bool) (f : h.File) (content : Bytes) (s n : ℕ)
      → Stores compressed f content
      → s ≤ length content
      → length content < u64_mod
      → (d : Decompressor h) × (d1 : Decompressor h) × (at : ℕ) × (d2 : Decompressor h)
        × ((elim compressed [ true ↦ zstd_decompress h f | false ↦ noop_decompress h f ]) ≡ ok d)
        × (seek h d (SeekFrom.start s) ≡ ok (d1, at))
        × (read h d1 n ≡ ok (d2, take n (drop s content)))
  unfolding zstd_decompress noop_decompress seek read
  reads false f content s n stores le small =
      let (f1, at, f2, sought, got) = stores s n in
      (Decompressor.noop f, Decompressor.noop f1, at, Decompressor.noop f2, refl, rw sought, rw got)
  reads true f content s n (st, init, total, part) le small =
      let room : sub64 (length content) s ≡ length content - s = sub64_exact _ _ le small in
      let out = take n (drop s content) in
      let same : take (min n (length content - s)) (drop s content) ≡ out =
        rw (← length-drop s content) (take-min n (drop s content)) in
      (
        Decompressor.zstd st 0 (length content),
        Decompressor.zstd st s (length content),
        s,
        Decompressor.zstd st (add64 s (length out)) (length content),
        rw (init, total),
        refl,
        rw (room, part (min n (length content - s)) s (omega arith), same),
      )

  -- Reading `n` bytes of a chunk from `addl` on gives the bytes of its blob's content from
  -- `b.offset + addl` on, up to its end, whether the blob is compressed or not. The offset lies in
  -- the content, and no address wraps.
  pub fill_from_chunk-content :
      (b : BlobRef) (verity : Option VerityData) (content : Bytes) (addl n : ℕ)
      → BlobReads b verity content
      → b.offset + addl ≤ length content
      → length content < u64_mod
      → fill_from_chunk h b addl n verity ≡ ok (take n (drop (b.offset + addl) content))
  unfolding fill_from_chunk open_compressed_blob
  fill_from_chunk-content b verity content addl n (f, found, measured, stores) le small =
      let at : add64 b.offset addl ≡ b.offset + addl = add64_exact _ _ (omega arith) in
      let (v, checked, opened) =
        >>=-eq-ok (file_verity h verity b.digest) _ (opens b verity f found measured) in
      let (d, d1, p, d2, start, sought, got) =
        reads b.compressed f content (b.offset + addl) n stores le small in
      rw (checked, opened, start, at, sought, got)

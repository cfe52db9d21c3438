-- ===== src/Reader/File/Correct.antt =====
-- puzzlefs-lib/src/reader/puzzlefs.rs: `file_read` returns the bytes of the file in the range.
use puzzlefs.Prelude.{
  ℕ, ◌+◌, ◌-◌, ◌<◌, ◌≤◌, ◌≡◌, ◌⊎◌, inl, inr, refl, ap, sym, ◌∙◌, false, Bytes, Option, List, [],
  ◌∷◌, ◌++◌, append-nil, append_assoc, length, length-append, length-take, length-drop, take, drop,
  take_append, drop_append, drop-drop, drop-length, take-min, ltb, min, take_nil, drop_nil,
  take-drop-take, add64, sub64, add64_exact, sub64_exact, u64_mod, Bool-cases, arith,
}
use puzzlefs.Errors.{Result, ok}
use puzzlefs.Format.{BlobRef, FileChunk, Inode, InodeMode, VerityData}
use puzzlefs.Compression.{Host}
use puzzlefs.Oci.Blob.{fill_from_chunk}
use puzzlefs.Oci.Blob.Correct.{BlobReads, fill_from_chunk-content}
use puzzlefs.Reader.File.{read_loop, file_read}

-- The bytes that each chunk stands for, one list to a chunk.
abbrev pub concat : List Bytes → Bytes
concat [] = []
concat (b ∷ bs) = b ++ concat bs

module _ (fill : BlobRef → ℕ → ℕ → Result Bytes) where
  -- Any part of the chunk is read as the same part of its bytes.
  abbrev pub ChunkReads : FileChunk → Bytes → Type 0
  ChunkReads c b =
      (length b ≡ c.len)
      × ((a n : ℕ) → a ≤ c.len → n ≤ c.len - a → fill c.blob a n ≡ ok (take n (drop a b)))

  abbrev pub ChunksRead : List FileChunk → List Bytes → Type 0
  ChunksRead [] [] = Unit
  ChunksRead [] (b ∷ bs) = ⊥
  ChunksRead (c ∷ cs) [] = ⊥
  ChunksRead (c ∷ cs) (b ∷ bs) = ChunkReads c b × ChunksRead cs bs

-- The bytes of a chunk that a read with `room` left takes, from `addl` on.
take_part :
    (room addl : ℕ) (b rest : Bytes)
    → addl ≤ length b
    → take room (drop addl (b ++ rest))
      ≡ take (min room (length b - addl)) (drop addl b) ++ take (room - (length b - addl)) rest
take_part room addl b rest le =
    let none_left : addl - length b ≡ 0 = omega arith in
    rw
      (
        drop_append addl b rest,
        none_left,
        take_append room (drop addl b) rest,
        length-drop addl b,
        ← take-min room (drop addl b),
        length-drop addl b,
      )
      refl

join_parts :
    (out b rest : Bytes) (room addl len k m : ℕ)
    → length b ≡ len
    → addl ≤ len
    → k ≡ 0
    → m ≡ room - (len - addl)
    → (out ++ take (min room (len - addl)) (drop addl b)) ++ take m (drop k rest)
      ≡ out ++ take room (drop addl (b ++ rest))
join_parts out b rest room addl len k m same le none_left left =
    rw (none_left, left, ← same, append_assoc)
      (ap (λ r. out ++ r) (sym (take_part room addl b rest (omega arith))))

skip_part : (k : ℕ) (b rest : Bytes) → length b ≤ k → drop k (b ++ rest) ≡ drop (k - length b) rest
skip_part k b rest le = rw (drop_append k b rest, drop-length k b le)

module _ (fill : BlobRef → ℕ → ℕ → Result Bytes) (offset size : ℕ)
    (fits : offset + size < u64_mod) where
  -- Where the loop is: before the range, with nothing read; or in it, at what it has read.
  abbrev At : ℕ → Bytes → Type 0
  At file_offset out =
      ((file_offset ≤ offset) × (length out ≡ 0)) ⊎ (file_offset ≡ offset + length out)

  read_loop-range :
      (cs : List FileChunk) (bs : List Bytes) (file_offset : ℕ) (out : Bytes)
      → ChunksRead fill cs bs
      → At file_offset out
      → length out ≤ size
      → file_offset + length (concat bs) < u64_mod
      → read_loop fill offset size (offset + size) cs file_offset out
        ≡ ok (out ++ take (size - length out) (drop (offset - file_offset) (concat bs)))
  unfolding read_loop
  read_loop-range [] [] fo out reads at le small =
      rw (drop_nil (offset - fo), take_nil (size - length out), append-nil)
  read_loop-range [] (b ∷ bs) fo out reads at le small = absurd reads
  read_loop-range (c ∷ cs) [] fo out reads at le small = absurd reads
  read_loop-range (c ∷ cs) (b ∷ bs) fo out reads at le small =
      let len : length b ≡ c.len = reads.0.0 in
      let total : length (b ++ concat bs) ≡ length b + length (concat bs) =
        length-append b (concat bs) in
      let going : ltb (offset + size) fo ≡ false = ground arith in
      let next : add64 fo c.len ≡ fo + c.len = add64_exact fo c.len (omega arith) in
      elim (Bool-cases (ltb (fo + c.len) offset)) [
        | inl skip ↦
            let before : fo + c.len < offset = ground arith in
            let same : offset - fo - length b ≡ offset - (fo + c.len) = omega arith in
            rw (going, next, skip, next, read_loop)
              (read_loop-range cs bs (fo + c.len) out reads.1 (inl (omega arith, omega arith)) le
                  (omega arith)
                ∙ ap (λ r. ok (out ++ take (size - length out) r))
                    (sym (
                      skip_part (offset - fo) b (concat bs) (omega arith)
                      ∙ ap (λ k. drop k (concat bs)) same)))
        | inr inside ↦
            let reaches : offset ≤ fo + c.len = ground arith in
            let addl = offset - fo in
            let room = size - length out in
            let n = min room (c.len - addl) in
            let got : Bytes = take n (drop addl b) in
            let left : sub64 size (length out) ≡ room = sub64_exact _ _ le (omega arith) in
            let rest : sub64 c.len addl ≡ c.len - addl =
              sub64_exact _ _ (omega arith) (omega arith) in
            let read : fill c.blob addl n ≡ ok got = reads.0.1 addl n (omega arith) (omega arith) in
            let count : length got ≡ n =
              omega (arith, length-take n (drop addl b), length-drop addl b) in
            let at1 : add64 fo addl ≡ fo + addl = add64_exact _ _ (omega arith) in
            let at2 : add64 (fo + addl) n ≡ fo + addl + n = add64_exact _ _ (omega arith) in
            let filled : length (out ++ got) ≡ length out + n =
              omega (arith, length-append out got) in
            rw (going, next, inside, left, rest, read, at1, count, at2, read_loop)
              (read_loop-range cs bs (fo + addl + n) (out ++ got) reads.1 (inr (omega arith))
                  (omega arith) (omega arith)
                ∙ ap ok (
                    join_parts out b (concat bs) room addl c.len _ _ len (omega arith) (omega arith)
                      (omega arith)))
      ]

-- A file whose chunks can be read is read correctly: from `offset` on, `size` bytes of the
-- chunks' contents one after the other, or as many as are left. Offsets do not wrap.
pub file_read-range :
    (h : Host) (inode : Inode) (verity : Option VerityData) (cs : List FileChunk) (bs : List Bytes)
    (offset size : ℕ)
    → inode.mode ≡ InodeMode.file cs
    → ChunksRead (λ b addl n. fill_from_chunk h b addl n verity) cs bs
    → offset + size < u64_mod
    → length (concat bs) < u64_mod
    → file_read h inode offset size verity ≡ ok (take size (drop offset (concat bs)))
unfolding file_read
file_read-range h inode verity cs bs offset size mode reads fits small =
    let whole : size - 0 ≡ size = omega arith in
    let begin : offset - 0 ≡ offset = omega arith in
    rw (mode, add64_exact offset size fits)
      (rw (whole, begin) at
        (read_loop-range (λ b addl n. fill_from_chunk h b addl n verity) offset size fits cs bs 0 []
          reads (inl (omega arith)) (omega arith) (omega arith)))

sub_part :
    (a n len o : ℕ) (xs : Bytes)
    → a ≤ len
    → n ≤ len - a
    → take n (drop (o + a) xs) ≡ take n (drop a (take len (drop o xs)))
sub_part a n len o xs la ln =
    ap (take n) (sym (drop-drop a o xs)) ∙ sym (take-drop-take a n len (drop o xs) la ln)

-- A chunk reads as the part of its blob's content that it names.
pub ChunkReads-blob :
    (h : Host) (verity : Option VerityData) (c : FileChunk) (content : Bytes)
    → BlobReads h c.blob verity content
    → c.blob.offset + c.len ≤ length content
    → length content < u64_mod
    → ChunkReads
        (λ b addl n. fill_from_chunk h b addl n verity)
        c
        (take c.len (drop c.blob.offset content))
ChunkReads-blob h verity c content reads le small = (
  omega (arith, length-take c.len (drop c.blob.offset content), length-drop c.blob.offset content),
  λ a n la ln.
      fill_from_chunk-content h c.blob verity content a n reads (omega arith) small
      ∙ ap ok (sub_part a n c.len c.blob.offset content la ln),
)

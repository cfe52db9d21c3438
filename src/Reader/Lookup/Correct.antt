-- ===== src/Reader/Lookup/Correct.antt =====
-- puzzlefs-lib/src/reader/puzzlefs.rs: a lookup follows the directory entries, and a `FileReader`
-- gives the whole file.
use puzzlefs.Prelude.{
  ℕ, zero, suc, ◌+◌, ◌-◌, ◌<◌, ◌≤◌, ◌≡◌, refl, Bytes, some, List, [], ◌∷◌, length, take, drop, ◌==◌,
  true, false, min, add64, sub64, add64_exact, sub64_exact, u64_mod, Bool-cases, length-take,
  length-drop, take_add, take-length, arith, inl, inr,
}
use puzzlefs.Errors.{ok}
use puzzlefs.Format.{DirEnt, DirList, Inode, InodeMode}
use puzzlefs.Format.Inodes.{find_entry, file_len}
use puzzlefs.Reader.Lookup.{PuzzleFs, FileReader, new_reader, read, copy, as_os_error}

plus_zero : (n : ℕ) → n + 0 ≡ n
plus_zero n = omega arith

take_zero : (b : Bytes) → take 0 b ≡ []
take_zero b = refl

module _ (pfs : PuzzleFs) where
  -- The names lead from one inode to another: each is the name of a directory entry, and the next
  -- inode is that of the entry's number.
  pub data Resolves : Inode → List Bytes → Inode → Type 0 where
    here : (i : Inode) → Resolves i [] i
    step :
        (i j k : Inode) (p : Bytes) (ps : List Bytes) (dir_list : DirList) (e : DirEnt)
        → i.mode ≡ InodeMode.dir dir_list
        → find_entry p dir_list.entries ≡ some e
        → pfs.find_inode e.ino ≡ ok j
        → Resolves j ps k
        → Resolves i (p ∷ ps) k

-- The file system reads ranges of this file as it should.
abbrev pub RangeReads : PuzzleFs → Inode → Bytes → Type 0
RangeReads pfs inode content =
    (offset size : ℕ)
    → offset + size ≤ length content
    → pfs.read inode offset size ≡ ok (take size (drop offset content))

module _ (pfs : PuzzleFs) (inode : Inode) (content : Bytes) (size : ℕ)
    (reads : RangeReads pfs inode content) (room : 0 < size)
    (small : length content < u64_mod) where
  abbrev at : ℕ → FileReader
  at offset = record { inode = inode; offset = offset; len = length content }

  -- One read gives the next bytes, as many as the buffer takes.
  read_lem :
      (offset : ℕ)
      → offset ≤ length content
      → read pfs (at offset) size
        ≡ ok (
          at (offset + min (length content - offset) size),
          take (min (length content - offset) size) (drop offset content),
        )
  unfolding read as_os_error
  read_lem offset le =
      let left : sub64 (length content) offset ≡ length content - offset =
        sub64_exact _ _ le small in
      let n = min (length content - offset) size in
      elim (Bool-cases (n == 0)) [
        | inl no_more ↦
            let zero_left : n ≡ 0 = ground arith in
            rw (read, left, no_more, zero_left, plus_zero offset, take_zero (drop offset content))
        | inr more ↦
            let len : length (take n (drop offset content)) ≡ n =
              omega (arith, length-take n (drop offset content), length-drop offset content) in
            let next : add64 offset n ≡ offset + n = add64_exact _ _ (omega arith) in
            rw (read, left, more, left, reads offset n (omega arith), as_os_error, len, next)
      ]

  copy_rest :
      (fuel offset : ℕ)
      → length content - offset < fuel
      → offset ≤ length content
      → copy pfs size fuel (at offset) (take offset content) ≡ some (ok content)
  unfolding copy
  copy_rest zero offset enough le = absurd (omega arith)
  copy_rest (suc fuel) offset enough le =
      let n = min (length content - offset) size in
      elim (Bool-cases (n == 0)) [
        | inl no_more ↦
            let zero_left : n ≡ 0 = ground arith in
            let none_read : (length (take n (drop offset content)) == 0) ≡ true =
              rw zero_left (ground arith) in
            rw (copy, read_lem offset le, none_read, take-length content offset (omega arith))
        | inr more ↦
            let len : length (take n (drop offset content)) ≡ n =
              omega (arith, length-take n (drop offset content), length-drop offset content) in
            let some_read : (length (take n (drop offset content)) == 0) ≡ false = rw len more in
            rw (copy, read_lem offset le, some_read, ← take_add offset n content)
              (copy_rest fuel (offset + n) (ground arith) (omega arith))
      ]

-- Copying a file out of a `FileReader` ends, and gives the file's whole content: the buffer has
-- room, and the file system reads ranges of the file right. No more rounds are needed than the file
-- has bytes, and one.
pub copy-content :
    (pfs : PuzzleFs) (inode : Inode) (content : Bytes) (size : ℕ)
    → RangeReads pfs inode content
    → 0 < size
    → length content < u64_mod
    → file_len inode ≡ ok (length content)
    → (r : FileReader) × (new_reader inode ≡ ok r)
      × (copy pfs size (length content + 1) r [] ≡ some (ok content))
unfolding new_reader
copy-content pfs inode content size reads room small len = (
  record { inode = inode; offset = 0; len = length content },
  rw len,
  copy_rest pfs inode content size reads room small (length content + 1) 0 (omega arith)
      (omega arith),
)

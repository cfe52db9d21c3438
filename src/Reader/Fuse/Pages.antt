-- ===== src/Reader/Fuse/Pages.antt =====
-- puzzlefs-lib/src/reader/fuse.rs, `_readdir`: a directory read page by page is read once and whole.
use puzzlefs.Prelude.{
  ℕ, zero, suc, ◌+◌, ◌<◌, ◌≤◌, ◌≡◌, Bool, false, Option, none, some, List, [], ◌∷◌, ◌++◌, length,
  take,
}
use puzzlefs.Errors.{Result, ok, err, panic}
use puzzlefs.Format.{Ino, DirEnt, Inode}
use puzzlefs.Reader.Lookup.{PuzzleFs}
use puzzlefs.Reader.Fuse.{DirReply, mode_to_fuse_type, read_dir}

-- Where the next page starts: the number that came with the last entry.
abbrev pub last_next : ℕ → List DirReply → ℕ
last_next offset [] = offset
last_next offset (r ∷ rs) = last_next r.next rs

module _ (pfs : PuzzleFs) where
  -- The replies are those of the entries, in order, numbered from the index on.
  abbrev pub Listing : ℕ → List DirEnt → List DirReply → Type 0
  Listing index [] [] = Unit
  Listing index [] (r ∷ rs) = ⊥
  Listing index (e ∷ es) [] = ⊥
  Listing index (e ∷ es) (r ∷ rs) =
      (inode : Inode) × (pfs.find_inode e.ino ≡ ok inode)
      × (mode_to_fuse_type inode ≡ ok r.kind)
      × (r.ino ≡ e.ino)
      × (r.name ≡ e.name)
      × (r.next ≡ index + 1)
      × Listing (index + 1) es rs

  -- A reader that asks for page after page, until a page is empty, on fuel.
  unfoldable pub read_pages :
      (List DirReply → DirReply → Bool) → Ino → ℕ → ℕ → Option (Result (List DirReply))
  unfolding read_dir
  read_pages full ino zero offset = none
  read_pages full ino (suc fuel) offset = elim (read_dir pfs full ino offset) [
    | err e ↦ some (err e)
    | panic ↦ some panic
    | ok [] ↦ some (ok [])
    | ok (r ∷ rs) ↦ elim (read_pages full ino fuel (last_next offset (r ∷ rs))) [
      | some (ok rest) ↦ some (ok (r ∷ rs ++ rest))
      | x ↦ x
    ]
  ]

  -- The entries that the buffer takes are the first of the listing.
  Taken :
      (List DirReply → DirReply → Bool)
      → List DirReply
      → List DirReply
      → Result (List DirReply)
      → Type 0
  Taken full out rs x =
      (k : ℕ) × (k ≤ length rs)
      × (x ≡ ok (out ++ take k rs))
      × (length out ≡ 0 → 0 < length rs → ((r : DirReply) → full [] r ≡ false) → 0 < k)

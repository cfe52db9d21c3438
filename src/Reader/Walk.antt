-- ===== src/Reader/Walk.antt =====
-- puzzlefs-lib/src/reader/walk.rs: a walk over all entries, breadth first.
pub mod Correct
pub mod Below
pub mod Liveness
use puzzlefs.Prelude.{ℕ, Bytes, Bool, true, false, Option, none, some, List, [], ◌∷◌, ◌++◌, ◌==◌}
use puzzlefs.Errors.{Result, ok, err, panic, ◌>>=◌}
use puzzlefs.Format.{DirEnt, DirList, Inode, InodeMode}
use puzzlefs.Reader.Lookup.{PuzzleFs, Component, prefix, root_dir, cur_dir, parent_dir, normal}

-- The byte `/`.
abbrev pub slash : ℕ
slash = 47

unfoldable pub ends_with_slash : Bytes → Bool
ends_with_slash [] = false
ends_with_slash (b ∷ []) = b == slash
ends_with_slash (b ∷ c ∷ bs) = ends_with_slash (c ∷ bs)

-- `PathBuf::join`: an absolute name replaces the path.
unfoldable pub join : Bytes → Bytes → Bytes
unfolding ends_with_slash
join [] name = name
join path [] = elim (ends_with_slash path) [ true ↦ path | false ↦ path ++ slash ∷ [] ]
join path (b ∷ name) = elim (b == slash) [
  | true ↦ b ∷ name
  | false ↦ elim (ends_with_slash path) [
    | true ↦ path ++ b ∷ name
    | false ↦ path ++ slash ∷ b ∷ name
  ]
]

pub record DirEntry : Type 0 where
  pub path : Bytes
  pub inode : Inode

module _ (pfs : PuzzleFs) where
  -- The queue at the start.
  unfoldable pub walk : Result (List DirEntry)
  walk = do inode ← pfs.find_inode 1; ok (record { path = slash ∷ []; inode = inode } ∷ [])

  -- The loop over a directory's entries: the queue with the entries that were added, and whether
  -- one could not be read.
  unfoldable pub add_entries :
      Bytes → List DirEnt → List DirEntry → List DirEntry × Result (Unit {0})
  unfolding join
  add_entries path [] q = (q, ok tt)
  add_entries path (e ∷ es) q = elim (pfs.find_inode e.ino) [
    | ok inode ↦ add_entries path es (q ++ record { path = join path e.name; inode = inode } ∷ [])
    | err w ↦ (q, err w)
    | panic ↦ (q, panic)
  ]

  unfoldable pub add_dir_entries : DirEntry → List DirEntry → List DirEntry × Result (Unit {0})
  unfolding add_entries
  add_dir_entries dir q = elim dir.inode.mode [
    | InodeMode.dir dir_list ↦ add_entries dir.path dir_list.entries q
    | _ ↦ (q, ok tt)
  ]

  -- `Iterator::next`: the queue, and the entry or the failure to read what is below it.
  unfoldable pub next : List DirEntry → Option (List DirEntry × Result DirEntry)
  unfolding add_dir_entries
  next [] = none
  next (de ∷ q) = let (q', added) = add_dir_entries de q in some (q', added >>= λ _. ok de)

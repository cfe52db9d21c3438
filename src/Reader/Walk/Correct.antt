-- ===== src/Reader/Walk/Correct.antt =====
-- puzzlefs-lib/src/reader/walk.rs: the walk gives entries of the image only.
use puzzlefs.Prelude.{
  ◌≡◌, ◌⊎◌, inl, inr, refl, Option, none, some, List, [], ◌∷◌, ◌++◌, subst, All, All-append,
}
use puzzlefs.Errors.{Result, ok, err, panic, ◌>>=◌, Result-cases, >>=-eq-ok, ok-injective}
use puzzlefs.Format.{DirEnt, DirList, Inode, InodeMode}
use puzzlefs.Reader.Lookup.{PuzzleFs}
use puzzlefs.Reader.Walk.{DirEntry, slash, join, walk, add_entries, add_dir_entries, next}

-- One of the entries of a directory.
abbrev pub IsEntry : DirEnt → List DirEnt → Type 0
IsEntry e [] = ⊥
IsEntry e (x ∷ xs) = (e ≡ x) ⊎ IsEntry e xs

module _ (pfs : PuzzleFs) where
  -- The entries of the image: the root, and below a directory what its entries name.
  pub data Reached : DirEntry → Type 0 where
    root : (i : Inode) → pfs.find_inode 1 ≡ ok i → Reached (record { path = slash ∷ []; inode = i })
    child :
        (d : DirEntry) (dir_list : DirList) (e : DirEnt) (i : Inode)
        → Reached d
        → d.inode.mode ≡ InodeMode.dir dir_list
        → IsEntry e dir_list.entries
        → pfs.find_inode e.ino ≡ ok i
        → Reached (record { path = join d.path e.name; inode = i })

  walk-Reached : (q : List DirEntry) → walk pfs ≡ ok q → All Reached q
  unfolding walk
  walk-Reached q e =
      let (i, found, same) = >>=-eq-ok (pfs.find_inode 1) _ e in
      subst (All Reached) (ok-injective same) (root i found, tt)

  add_entries-Reached :
      (d : DirEntry) (dir_list : DirList) (es : List DirEnt) (q : List DirEntry)
      → Reached d
      → d.inode.mode ≡ InodeMode.dir dir_list
      → ((e : DirEnt) → IsEntry e es → IsEntry e dir_list.entries)
      → All Reached q
      → All Reached (add_entries pfs d.path es q).0
  unfolding add_entries
  add_entries-Reached d dir_list [] q at mode inside h = h
  add_entries-Reached d dir_list (e ∷ es) q at mode inside h =
      elim (Result-cases (pfs.find_inode e.ino)) [
        | inl (i, found) ↦
            rw (add_entries, found)
              (add_entries-Reached d dir_list es
                (q ++ record { path = join d.path e.name; inode = i } ∷ []) at mode
                (λ x m. inside x (inr m))
                (All-append Reached q _ h
                  (child d dir_list e i at mode (inside e (inl refl)) found, tt)))
        | inr (inl (w, failed)) ↦ rw (add_entries, failed) h
        | inr (inr failed) ↦ rw (add_entries, failed) h
      ]

  add_dir_entries-Reached :
      (m : InodeMode) (d : DirEntry) (q : List DirEntry)
      → d.inode.mode ≡ m
      → Reached d
      → All Reached q
      → All Reached (add_dir_entries pfs d q).0
  unfolding add_dir_entries
  add_dir_entries-Reached (InodeMode.dir dir_list) d q mode at h =
      rw (add_dir_entries, mode)
        (add_entries-Reached d dir_list dir_list.entries q at mode (λ x m. m) h)
  add_dir_entries-Reached (InodeMode.file cs) d q mode at h = rw (add_dir_entries, mode) h
  add_dir_entries-Reached (InodeMode.chr a b) d q mode at h = rw (add_dir_entries, mode) h
  add_dir_entries-Reached (InodeMode.blk a b) d q mode at h = rw (add_dir_entries, mode) h
  add_dir_entries-Reached InodeMode.unknown d q mode at h = rw (add_dir_entries, mode) h
  add_dir_entries-Reached InodeMode.fifo d q mode at h = rw (add_dir_entries, mode) h
  add_dir_entries-Reached InodeMode.lnk d q mode at h = rw (add_dir_entries, mode) h
  add_dir_entries-Reached InodeMode.sock d q mode at h = rw (add_dir_entries, mode) h
  add_dir_entries-Reached InodeMode.wht d q mode at h = rw (add_dir_entries, mode) h

  -- One step of a walk: the entries that wait are entries of the image, and so is the one given.
  abbrev pub Step : Option (List DirEntry × Result DirEntry) → Type 0
  Step none = Unit
  Step (some (q, ok de)) = All Reached q × Reached de
  Step (some (q, err e)) = All Reached q
  Step (some (q, panic)) = All Reached q

  step :
      (q : List DirEntry) (de : DirEntry) (added : Result (Unit {0}))
      → All Reached q
      → Reached de
      → Step (some (q, added >>= λ _. ok de))
  step q de (ok _) h at = (h, at)
  step q de (err e) h at = h
  step q de panic h at = h

  -- A walk gives entries of the image only: the root, or what a directory that was reached names,
  -- with the path that the names make up. The step also keeps this for the entries that wait, be it
  -- that all entries below could be read or not.
  pub next-Step : (q : List DirEntry) → All Reached q → Step (next pfs q)
  unfolding next
  next-Step [] h = tt
  next-Step (de ∷ q) (at, h) =
      step (add_dir_entries pfs de q).0 de (add_dir_entries pfs de q).1
        (add_dir_entries-Reached de.inode.mode de q refl at h) at

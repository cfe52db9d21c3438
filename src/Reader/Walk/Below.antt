-- ===== src/Reader/Walk/Below.antt =====
-- puzzlefs-lib/src/reader/walk.rs: what a directory adds to the queue of a walk.
use puzzlefs.Prelude.{
  ◌≡◌, inl, inr, refl, sym, ap, ◌∙◌, append-nil, Bytes, some, List, [], ◌∷◌, ◌++◌, subst,
  append_assoc,
}
use puzzlefs.Errors.{Result, ok, ◌>>=◌, Result-cases}
use puzzlefs.Format.{DirEnt, Inode, InodeMode}
use puzzlefs.Reader.Lookup.{PuzzleFs}
use puzzlefs.Reader.Walk.{DirEntry, join, add_entries, add_dir_entries, next}
use puzzlefs.Reader.Walk.Correct.{IsEntry}

module _ (pfs : PuzzleFs) where
  -- The entries that are added do not depend on those that wait.
  add_entries-append :
      (path : Bytes) (es : List DirEnt) (q r : List DirEntry)
      → add_entries pfs path es (q ++ r)
        ≡ (q ++ (add_entries pfs path es r).0, (add_entries pfs path es r).1)
  unfolding add_entries
  add_entries-append path [] q r = refl
  add_entries-append path (e ∷ es) q r = elim (Result-cases (pfs.find_inode e.ino)) [
    | inl (i, found) ↦
        let new : List DirEntry = record { path = join path e.name; inode = i } ∷ [] in
        rw (add_entries, found)
          (ap (add_entries pfs path es) (append_assoc q r new)
            ∙ add_entries-append path es q (r ++ new))
    | inr (inl (w, failed)) ↦ rw (add_entries, failed)
    | inr (inr failed) ↦ rw (add_entries, failed)
  ]

  -- What a directory adds, and whether all its entries could be read.
  abbrev pub below : DirEntry → List DirEntry
  below d = (add_dir_entries pfs d []).0

  abbrev pub readable : DirEntry → Result (Unit {0})
  readable d = (add_dir_entries pfs d []).1

  abbrev pub below_mode : Bytes → InodeMode → List DirEntry → List DirEntry × Result (Unit {0})
  below_mode path mode q = elim mode [
    | InodeMode.dir dir_list ↦ add_entries pfs path dir_list.entries q
    | _ ↦ (q, ok tt)
  ]

  below_mode-append :
      (path : Bytes) (mode : InodeMode) (q : List DirEntry)
      → below_mode path mode q ≡ (q ++ (below_mode path mode []).0, (below_mode path mode []).1)
  below_mode-append path (InodeMode.dir dir_list) q =
      ap (add_entries pfs path dir_list.entries) (sym (append-nil q))
      ∙ add_entries-append path dir_list.entries q []
  below_mode-append path (InodeMode.file cs) q = rw (append-nil q)
  below_mode-append path (InodeMode.chr a b) q = rw (append-nil q)
  below_mode-append path (InodeMode.blk a b) q = rw (append-nil q)
  below_mode-append path InodeMode.unknown q = rw (append-nil q)
  below_mode-append path InodeMode.fifo q = rw (append-nil q)
  below_mode-append path InodeMode.lnk q = rw (append-nil q)
  below_mode-append path InodeMode.sock q = rw (append-nil q)
  below_mode-append path InodeMode.wht q = rw (append-nil q)

  add_dir_entries-append :
      (d : DirEntry) (q : List DirEntry) → add_dir_entries pfs d q ≡ (q ++ below d, readable d)
  unfolding add_dir_entries
  add_dir_entries-append d q = below_mode-append d.path d.inode.mode q

  pub next-eq :
      (d : DirEntry) (q : List DirEntry)
      → next pfs (d ∷ q) ≡ some (q ++ below d, readable d >>= λ _. ok d)
  unfolding next
  next-eq d q =
      ap (λ (x : List DirEntry × Result (Unit {0})). some (x.0, x.1 >>= λ _. ok d))
        (add_dir_entries-append d q)

  -- If all entries of a directory can be read, each of them is added.
  pub add_entries-child :
      (path : Bytes) (es : List DirEnt) (q : List DirEntry) (e : DirEnt) (i : Inode)
      → IsEntry e es
      → pfs.find_inode e.ino ≡ ok i
      → (add_entries pfs path es q).1 ≡ ok tt
      → (xs : List DirEntry) × (ys : List DirEntry) × ((add_entries pfs path es q).0
          ≡ xs ++ record { path = join path e.name; inode = i } ∷ ys)
  unfolding add_entries
  add_entries-child path [] q e i here found all = absurd here
  add_entries-child path (x ∷ es) q e i (inl same) found all =
      let found' : pfs.find_inode x.ino ≡ ok i =
        subst (λ y. pfs.find_inode y.ino ≡ ok i) same found in
      let new : DirEntry = record { path = join path e.name; inode = i } in
      let new' : DirEntry = record { path = join path x.name; inode = i } in
      let named : new' ≡ new =
        ap (λ (y : DirEnt). record { path = join path y.name; inode = i }) (sym same) in
      let more = (add_entries pfs path es []).0 in
      (
        q,
        more,
        rw (add_entries, found')
            (ap (λ (l : List DirEntry). (add_entries pfs path es l).0)
                (sym (append-nil (q ++ new' ∷ [])))
              ∙ ap (λ (a : List DirEntry × Result (Unit {0})). a.0)
                  (add_entries-append path es (q ++ new' ∷ []) [])
              ∙ append_assoc q (new' ∷ []) more
              ∙ ap (λ n. q ++ n ∷ more) named),
      )
  add_entries-child path (x ∷ es) q e i (inr later) found all =
      elim (Result-cases (pfs.find_inode x.ino)) [
        | inl (j, ready) ↦
            let new : List DirEntry = record { path = join path x.name; inode = j } ∷ [] in
            let all' : (add_entries pfs path es (q ++ new)).1 ≡ ok tt =
              rw (add_entries, ready) at all in
            rw (add_entries, ready) (add_entries-child path es (q ++ new) e i later found all')
        | inr (inl (w, failed)) ↦ absurd (cc (rw (add_entries, failed) at all))
        | inr (inr failed) ↦ absurd (cc (rw (add_entries, failed) at all))
      ]

-- ===== src/Extractor/Extract/Correct.antt =====
-- puzzlefs-lib/src/extractor.rs: what extracting one entry does to the host.
use puzzlefs.Prelude.{
  ℕ, ◌≡◌, ◌⊎◌, true, false, Bytes, refl, ap, sym, subst, List, [], ◌∷◌, ◌++◌, Option-cases,
  Bool-cases, inl, inr,
}
use puzzlefs.Errors.{ok, >>=-eq-ok, ok-injective}
use puzzlefs.Format.{Inode, InodeMode}
use puzzlefs.Reader.Lookup.{PuzzleFs}
use puzzlefs.Reader.Walk.{DirEntry}
use puzzlefs.Extractor.SafePath.{HostPath, safe_path}
use puzzlefs.Extractor.SafePath.Correct.{Under, safe_path-Under}
use puzzlefs.Extractor.Extract.{
  Action, hard_link, set_xattr, chown, ExtractHost, Extracted, path_of, act, set_xattrs, make,
  permit, give, extract_new, extract_entry, xattrs_of,
}
use puzzlefs.Extractor.Extract.Actions.{
  MakesNoLink, Stays, Adds, Adds-then, act-Adds, set_xattrs-Adds,
}
use puzzlefs.Extractor.Extract.Made.{Made, make-Made, permit-Made}

module _ (h : ExtractHost) (path : HostPath) where
  give-cases :
      (inode : Inode) (done done' : List Action)
      → give h inode path done ≡ ok done'
      → ((h.runs_privileged ≡ true) × (done' ≡ done ++ chown inode.uid inode.gid path ∷ []))
        ⊎ ((h.runs_privileged ≡ false) × (done' ≡ done))
  unfolding give act
  give-cases inode done done' e = elim (Bool-cases h.runs_privileged) [
    | inl root ↦
        let (_, may, same) =
          >>=-eq-ok (h.may done (chown inode.uid inode.gid path)) _ (rw (give, root) at e) in
        inl (root, sym (ok-injective same))
    | inr user ↦ inr (user, sym (ok-injective (rw (give, user) at e)))
  ]

  -- No action of the entry leaves the path through a symbolic link: none of them leaves a link there,
  -- or none follows one; but a privileged run ends a symbolic link with a `chown`, which follows it.
  abbrev pub Confined : Inode → List Action → List Action → Type 0
  Confined inode done done' =
      Adds (MakesNoLink path) done done'
      ⊎ (Adds (Stays path) done done'
          ⊎ ((inode.mode ≡ InodeMode.lnk)
              × (h.runs_privileged ≡ true)
              × (mid : List Action) × Adds (Stays path) done mid
              × (done' ≡ mid ++ chown inode.uid inode.gid path ∷ [])))

  extract_new-plain :
      (P : Action → Type 0) (inode : Inode) (done made labelled permitted : List Action)
      → ((key val : Bytes) → P (set_xattr key val path))
      → Adds P done made
      → set_xattrs h (xattrs_of inode) path made ≡ ok labelled
      → Adds P labelled permitted
      → Adds P done permitted
  extract_new-plain P inode done made labelled permitted keys a1 labels a3 =
      Adds-then P done made permitted a1 (
        Adds-then P made labelled permitted
          (set_xattrs-Adds P h (xattrs_of inode) path made labelled keys labels) a3)

  extract_new-Made :
      (m : InodeMode) (inode : Inode) (done made labelled permitted : List Action)
      → Made h path m done made
      → set_xattrs h (xattrs_of inode) path made ≡ ok labelled
      → Made h path m labelled permitted
      → Made h path m done permitted
  extract_new-Made InodeMode.lnk inode done made labelled permitted a1 e a3 =
      extract_new-plain (Stays path) inode done made labelled permitted (λ k v. (refl, refl)) a1 e
        a3
  extract_new-Made InodeMode.unknown inode done made labelled permitted a1 e a3 =
      extract_new-plain (MakesNoLink path) inode done made labelled permitted (λ k v. (refl, refl))
        a1 e a3
  extract_new-Made InodeMode.fifo inode done made labelled permitted a1 e a3 =
      extract_new-plain (MakesNoLink path) inode done made labelled permitted (λ k v. (refl, refl))
        a1 e a3
  extract_new-Made (InodeMode.chr a b) inode done made labelled permitted a1 e a3 =
      extract_new-plain (MakesNoLink path) inode done made labelled permitted (λ k v. (refl, refl))
        a1 e a3
  extract_new-Made (InodeMode.dir d) inode done made labelled permitted a1 e a3 =
      extract_new-plain (MakesNoLink path) inode done made labelled permitted (λ k v. (refl, refl))
        a1 e a3
  extract_new-Made (InodeMode.blk a b) inode done made labelled permitted a1 e a3 =
      extract_new-plain (MakesNoLink path) inode done made labelled permitted (λ k v. (refl, refl))
        a1 e a3
  extract_new-Made (InodeMode.file cs) inode done made labelled permitted a1 e a3 =
      extract_new-plain (MakesNoLink path) inode done made labelled permitted (λ k v. (refl, refl))
        a1 e a3
  extract_new-Made InodeMode.sock inode done made labelled permitted a1 e a3 =
      extract_new-plain (MakesNoLink path) inode done made labelled permitted (λ k v. (refl, refl))
        a1 e a3
  extract_new-Made InodeMode.wht inode done made labelled permitted a1 e a3 =
      extract_new-plain (MakesNoLink path) inode done made labelled permitted (λ k v. (refl, refl))
        a1 e a3

  owned_plain :
      (inode : Inode) (done permitted done' : List Action)
      → Adds (MakesNoLink path) done permitted
      → give h inode path permitted ≡ ok done'
      → Adds (MakesNoLink path) done done'
  owned_plain inode done permitted done' made e = elim (give-cases inode permitted done' e) [
    | inl (root, is) ↦
        Adds-then (MakesNoLink path) done permitted done' made
          (chown inode.uid inode.gid path ∷ [], is, ((refl, refl), tt))
    | inr (user, is) ↦ subst (Adds (MakesNoLink path) done) (sym is) made
  ]

  owned :
      (m : InodeMode) (inode : Inode) (done permitted done' : List Action)
      → inode.mode ≡ m
      → Made h path m done permitted
      → give h inode path permitted ≡ ok done'
      → Confined inode done done'
  owned InodeMode.lnk inode done permitted done' mode made e =
      elim (give-cases inode permitted done' e) [
        | inl (root, is) ↦ inr (inr (mode, root, permitted, made, is))
        | inr (user, is) ↦ inr (inl (subst (Adds (Stays path) done) (sym is) made))
      ]
  owned InodeMode.unknown inode done permitted done' mode made e =
      inl (owned_plain inode done permitted done' made e)
  owned InodeMode.fifo inode done permitted done' mode made e =
      inl (owned_plain inode done permitted done' made e)
  owned (InodeMode.chr a b) inode done permitted done' mode made e =
      inl (owned_plain inode done permitted done' made e)
  owned (InodeMode.dir d) inode done permitted done' mode made e =
      inl (owned_plain inode done permitted done' made e)
  owned (InodeMode.blk a b) inode done permitted done' mode made e =
      inl (owned_plain inode done permitted done' made e)
  owned (InodeMode.file cs) inode done permitted done' mode made e =
      inl (owned_plain inode done permitted done' made e)
  owned InodeMode.sock inode done permitted done' mode made e =
      inl (owned_plain inode done permitted done' made e)
  owned InodeMode.wht inode done permitted done' mode made e =
      inl (owned_plain inode done permitted done' made e)

  extract_new-Confined :
      (pfs : PuzzleFs) (inode : Inode) (done done' : List Action)
      → extract_new h pfs inode path done ≡ ok done'
      → Confined inode done done'
  unfolding extract_new
  extract_new-Confined pfs inode done done' e =
      let (made, e0, e1) = >>=-eq-ok (make h pfs inode path done) _ e in
      let (labelled, e2, e3) = >>=-eq-ok (set_xattrs h (xattrs_of inode) path made) _ e1 in
      let (permitted, e4, e5) = >>=-eq-ok (permit h inode path labelled) _ e3 in
      owned inode.mode inode done permitted done' refl
        (extract_new-Made inode.mode inode done made labelled permitted
          (make-Made h path inode.mode pfs inode done made refl e0) e2
          (permit-Made h path inode.mode inode labelled permitted refl e4))
        e5

module _ (h : ExtractHost) where
  -- Extracting an entry, whatever its path and its inode, acts on one path only. It is the target
  -- directory or below it, and before the first of these actions the host shows no symbolic link on it
  -- below the target. Nor do the actions lead out of it: none of them leaves a symbolic link there, or
  -- none of them follows one, or only the last of them follows one: for
  -- a symbolic link, a privileged run ends with a `chown`, which changes the owner of what the link
  -- names, wherever this is.
  pub extract_entry-Under :
      (pfs : PuzzleFs) (dir : HostPath) (de : DirEntry) (st st' : Extracted)
      → extract_entry h pfs dir de st ≡ ok st'
      → (path : HostPath) × (n : ℕ) × Under (h.symlink_metadata st.actions) dir n path
        × Confined h path de.inode st.actions st'.actions
  unfolding extract_entry
  extract_entry-Under pfs dir de st st' e =
      let (path, safe, e1) =
        >>=-eq-ok (safe_path (h.symlink_metadata st.actions) dir (h.components de.path)) _ e in
      let (n, under) =
        safe_path-Under (h.symlink_metadata st.actions) dir (h.components de.path) path safe in
      (
        path,
        n,
        under,
        elim (Option-cases (path_of de.inode.ino st.host_to_pfs)) [
          | inl fresh ↦
              let (actions, e2, e3) =
                >>=-eq-ok (extract_new h pfs de.inode path st.actions) _ (rw fresh at e1) in
              subst (Confined h path de.inode st.actions)
                (ap (λ (x : Extracted). x.actions) (ok-injective e3))
                (extract_new-Confined h path pfs de.inode st.actions actions e2)
          | inr (existing, seen) ↦
              let (actions, e2, e3) =
                >>=-eq-ok (act h st.actions (hard_link existing path)) _ (rw seen at e1) in
              inr (
                inl (
                  subst (Adds (Stays path) st.actions)
                    (ap (λ (x : Extracted). x.actions) (ok-injective e3))
                    (act-Adds (Stays path) h st.actions actions _ (refl, refl) e2)))
        ],
      )

-- ===== src/Extractor/Extract/Made.antt =====
-- puzzlefs-lib/src/extractor.rs: what is done for an inode, by its mode, before it may get an owner.
use puzzlefs.Prelude.{◌+◌, ◌≡◌, refl, List, []}
use puzzlefs.Errors.{ok, >>=-eq-ok}
use puzzlefs.Format.{Inode, InodeMode}
use puzzlefs.Format.Inodes.{symlink_target}
use puzzlefs.Format.Stack.{finished}
use puzzlefs.Reader.Lookup.{PuzzleFs, new_reader, copy}
use puzzlefs.Extractor.SafePath.{HostPath}
use puzzlefs.Extractor.Extract.{
  Action, create_dir_all, create_file, mkfifo, mknod_chr, mknod_blk, symlinkat, ExtractHost, act,
  make, permit,
}
use puzzlefs.Extractor.Extract.Actions.{MakesNoLink, Stays, Adds, Adds-none, Adds-then, act-Adds}

module _ (h : ExtractHost) (path : HostPath) where
  -- What an inode of this mode adds before it may get an owner.
  abbrev pub Made : InodeMode → List Action → List Action → Type 0
  Made InodeMode.lnk = Adds (Stays path)
  Made _ = Adds (MakesNoLink path)

  pub make-Made :
      (m : InodeMode) (pfs : PuzzleFs) (inode : Inode) (done done' : List Action)
      → inode.mode ≡ m
      → make h pfs inode path done ≡ ok done'
      → Made m done done'
  unfolding make
  make-Made (InodeMode.file cs) pfs inode done done' mode e =
      let (reader, opened, e1) = >>=-eq-ok (new_reader inode) _ (rw (make, mode) at e) in
      let (mid, created, e2) = >>=-eq-ok (act h done (create_file path)) _ e1 in
      let (content, copied, e3) =
        >>=-eq-ok (finished (copy pfs h.copy_size (reader.len + 1) reader [])) _ e2 in
      Adds-then (MakesNoLink path) done mid done'
        (act-Adds (MakesNoLink path) h done mid _ (refl, refl) created)
        (act-Adds (MakesNoLink path) h mid done' _ (refl, refl) e3)
  make-Made (InodeMode.dir d) pfs inode done done' mode e =
      act-Adds (MakesNoLink path) h done done' (create_dir_all path) (refl, refl)
        (rw (make, mode) at e)
  make-Made InodeMode.fifo pfs inode done done' mode e =
      act-Adds (MakesNoLink path) h done done' (mkfifo path) (refl, refl) (rw (make, mode) at e)
  make-Made (InodeMode.chr a b) pfs inode done done' mode e =
      act-Adds (MakesNoLink path) h done done' (mknod_chr a b path) (refl, refl)
        (rw (make, mode) at e)
  make-Made (InodeMode.blk a b) pfs inode done done' mode e =
      act-Adds (MakesNoLink path) h done done' (mknod_blk a b path) (refl, refl)
        (rw (make, mode) at e)
  make-Made InodeMode.lnk pfs inode done done' mode e =
      let (target, read, e1) = >>=-eq-ok (symlink_target inode) _ (rw (make, mode) at e) in
      act-Adds (Stays path) h done done' (symlinkat target path) (refl, refl) e1
  make-Made InodeMode.sock pfs inode done done' mode e = absurd (cc (rw (make, mode) at e))
  make-Made InodeMode.wht pfs inode done done' mode e = absurd (cc (rw (make, mode) at e))
  make-Made InodeMode.unknown pfs inode done done' mode e = absurd (cc (rw (make, mode) at e))

  pub permit-Made :
      (m : InodeMode) (inode : Inode) (done done' : List Action)
      → inode.mode ≡ m
      → permit h inode path done ≡ ok done'
      → Made m done done'
  unfolding permit
  permit-Made InodeMode.lnk inode done done' mode e =
      Adds-none (Stays path) done done' (rw (permit, mode) at e)
  permit-Made InodeMode.unknown inode done done' mode e =
      act-Adds (MakesNoLink path) h done done' _ (refl, refl) (rw (permit, mode) at e)
  permit-Made InodeMode.fifo inode done done' mode e =
      act-Adds (MakesNoLink path) h done done' _ (refl, refl) (rw (permit, mode) at e)
  permit-Made (InodeMode.chr a b) inode done done' mode e =
      act-Adds (MakesNoLink path) h done done' _ (refl, refl) (rw (permit, mode) at e)
  permit-Made (InodeMode.dir d) inode done done' mode e =
      act-Adds (MakesNoLink path) h done done' _ (refl, refl) (rw (permit, mode) at e)
  permit-Made (InodeMode.blk a b) inode done done' mode e =
      act-Adds (MakesNoLink path) h done done' _ (refl, refl) (rw (permit, mode) at e)
  permit-Made (InodeMode.file cs) inode done done' mode e =
      act-Adds (MakesNoLink path) h done done' _ (refl, refl) (rw (permit, mode) at e)
  permit-Made InodeMode.sock inode done done' mode e =
      act-Adds (MakesNoLink path) h done done' _ (refl, refl) (rw (permit, mode) at e)
  permit-Made InodeMode.wht inode done done' mode e =
      act-Adds (MakesNoLink path) h done done' _ (refl, refl) (rw (permit, mode) at e)

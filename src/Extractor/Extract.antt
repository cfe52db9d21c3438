-- ===== src/Extractor/Extract.antt =====
-- puzzlefs-lib/src/extractor.rs, `extract_rootfs`: every entry of the image is written to the host.
pub mod Actions
pub mod Made
pub mod Correct
use puzzlefs.Prelude.{
  ℕ, zero, suc, ◌+◌, Bool, true, false, Bytes, Option, none, some, List, [], ◌∷◌, ◌++◌, ◌==◌,
  length,
}
use puzzlefs.Errors.{Result, ok, err, panic, ◌>>=◌, ◌>>◌}
use puzzlefs.Format.{Ino, Inode, InodeAdditional, InodeMode, Xattr}
use puzzlefs.Format.Inodes.{symlink_target, file_len}
use puzzlefs.Format.Stack.{finished}
use puzzlefs.Reader.Lookup.{PuzzleFs, Component, new_reader, copy}
use puzzlefs.Reader.Walk.{DirEntry, walk, next}
use puzzlefs.Extractor.SafePath.{HostPath, Stat, bail, safe_path}

-- What is done to a path of the host.
pub data Action : Type 0 where
  create_dir_all create_file mkfifo : HostPath → Action
  hard_link : HostPath → HostPath → Action
  write_file : Bytes → HostPath → Action
  mknod_chr mknod_blk : ℕ → ℕ → HostPath → Action
  symlinkat : Bytes → HostPath → Action
  set_xattr : Bytes → Bytes → HostPath → Action
  set_permissions : ℕ → HostPath → Action
  chown : ℕ → ℕ → HostPath → Action

-- The host's answers, after the actions so far: what a path is, and whether an action succeeds.
-- `components` splits a path, and `io::copy` uses a buffer of `copy_size` bytes.
pub record ExtractHost : Type 0 where
  pub symlink_metadata : List Action → HostPath → Stat
  pub may : List Action → Action → Result (Unit {0})
  pub runs_privileged : Bool
  pub components : Bytes → List Component
  pub copy_size : ℕ

-- The actions so far, and the path that each inode was first extracted to.
pub record Extracted : Type 0 where
  pub actions : List Action
  pub host_to_pfs : List (Ino × HostPath)

unfoldable pub path_of : Ino → List (Ino × HostPath) → Option HostPath
path_of ino [] = none
path_of ino ((i, p) ∷ ps) = elim (ino == i) [ true ↦ some p | false ↦ path_of ino ps ]

-- `if let Some(x) = dir_entry.inode.additional { for x in &x.xattrs .. }`
abbrev pub xattrs_of : Inode → List Xattr
xattrs_of inode = elim inode.additional [ none ↦ [] | some x ↦ x.xattrs ]

module _ (h : ExtractHost) where
  unfoldable pub act : List Action → Action → Result (List Action)
  act done a = do h.may done a; ok (done ++ a ∷ [])

  unfoldable pub set_xattrs : List Xattr → HostPath → List Action → Result (List Action)
  unfolding act
  set_xattrs [] path done = ok done
  set_xattrs (x ∷ xs) path done = do
    done' ← act done (set_xattr x.key x.val path)
    set_xattrs xs path done'

  -- `match dir_entry.inode.mode`; `pfs` reads without verity data.
  unfoldable pub make : PuzzleFs → Inode → HostPath → List Action → Result (List Action)
  unfolding act new_reader copy symlink_target file_len
  make pfs inode path done = elim inode.mode [
    | InodeMode.file _ ↦ do
      reader ← new_reader inode
      done' ← act done (create_file path)
      content ← finished (copy pfs h.copy_size (reader.len + 1) reader [])
      act done' (write_file content path)
    | InodeMode.dir _ ↦ act done (create_dir_all path)
    | InodeMode.fifo ↦ act done (mkfifo path)
    | InodeMode.chr major minor ↦ act done (mknod_chr major minor path)
    | InodeMode.blk major minor ↦ act done (mknod_blk major minor path)
    | InodeMode.lnk ↦ do target ← symlink_target inode; act done (symlinkat target path)
    | InodeMode.sock ↦ panic
    | InodeMode.wht ↦ panic
    | InodeMode.unknown ↦ err bail
  ]

  unfoldable pub permit : Inode → HostPath → List Action → Result (List Action)
  unfolding act
  permit inode path done = elim inode.mode [
    | InodeMode.lnk ↦ ok done
    | _ ↦ act done (set_permissions inode.permissions path)
  ]

  -- `chown` follows a symbolic link, also one that was just made.
  unfoldable pub give : Inode → HostPath → List Action → Result (List Action)
  unfolding act
  give inode path done = elim h.runs_privileged [
    | true ↦ act done (chown inode.uid inode.gid path)
    | false ↦ ok done
  ]

  -- An inode that is seen for the first time.
  unfoldable pub extract_new : PuzzleFs → Inode → HostPath → List Action → Result (List Action)
  unfolding make set_xattrs permit give
  extract_new pfs inode path done = do
    made ← make pfs inode path done
    labelled ← set_xattrs (xattrs_of inode) path made
    permitted ← permit inode path labelled
    give inode path permitted

  -- The closure of `try_for_each`, for an entry that was read.
  unfoldable pub extract_entry : PuzzleFs → HostPath → DirEntry → Extracted → Result Extracted
  unfolding safe_path path_of extract_new act
  extract_entry pfs dir de st = do
    path ← safe_path (h.symlink_metadata st.actions) dir (h.components de.path)
    elim (path_of de.inode.ino st.host_to_pfs) [
      | some existing_path ↦ do
        actions ← act st.actions (hard_link existing_path path)
        ok (record st { actions = actions })
      | none ↦ do
        actions ← extract_new pfs de.inode path st.actions
        ok (record { actions = actions; host_to_pfs = (de.inode.ino, path) ∷ st.host_to_pfs })
    ]

  -- `walker.try_for_each(..)`, on fuel: it stops at the first failure.
  unfoldable pub extract_loop :
      PuzzleFs → HostPath → ℕ → List DirEntry → Extracted → Option (Result Extracted)
  unfolding next extract_entry
  extract_loop pfs dir zero q st = none
  extract_loop pfs dir (suc fuel) q st = elim (next pfs q) [
    | none ↦ some (ok st)
    | some (q', item) ↦ elim (item >>= λ de. extract_entry pfs dir de st) [
      | ok st' ↦ extract_loop pfs dir fuel q' st'
      | err e ↦ some (err e)
      | panic ↦ some panic
    ]
  ]

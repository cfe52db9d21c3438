-- ===== src/Reader/Mount.antt =====
-- puzzlefs-lib/src/reader.rs, with the life of a `Fuse` in reader/fuse.rs: mounting an image, and the
-- notices to whoever waits for the mount.
pub mod Options
pub mod Notices
use Prim.Native.Char.{code}
use Prim.Native.String as String
use Prim.Native.String.{String}
use puzzlefs.Prelude.{
  ℕ, ◌==◌, Bool, true, false, Bytes, bytes_eq, Option, none, some, List, [], ◌∷◌, ◌++◌, map,
  if◌then◌else◌,
}
use puzzlefs.Errors.{Result, ok, err, panic, ◌>>=◌}
use puzzlefs.Format.Wire.{Capnp}
use puzzlefs.Compression.{Host}
use puzzlefs.Oci.Rootfs.{Oci, Opened, open_image}
use puzzlefs.Reader.Lookup.{PuzzleFs, image_fs}

-- `fuser::MountOption`
pub data MountOption : Type 0 where
  fs_name subtype custom : Bytes → MountOption
  auto_unmount allow_other allow_root default_permissions dev no_dev suid no_suid : MountOption
  ro read_write exec no_exec atime no_atime dir_sync sync async : MountOption

abbrev pub codes : String → Bytes
codes String.[] = []
codes (String.◌∷◌ c s) = code c ∷ codes s

-- The arms of the `match` that name a text.
abbrev pub named_options : List (Bytes × MountOption)
named_options =
    (codes "auto_unmount", auto_unmount)
    ∷ (codes "allow_other", allow_other)
    ∷ (codes "allow_root", allow_root)
    ∷ (codes "default_permissions", default_permissions)
    ∷ (codes "dev", dev)
    ∷ (codes "nodev", no_dev)
    ∷ (codes "suid", suid)
    ∷ (codes "nosuid", no_suid)
    ∷ (codes "ro", ro)
    ∷ (codes "rw", read_write)
    ∷ (codes "exec", exec)
    ∷ (codes "noexec", no_exec)
    ∷ (codes "atime", atime)
    ∷ (codes "noatime", no_atime)
    ∷ (codes "dirsync", dir_sync)
    ∷ (codes "sync", sync)
    ∷ (codes "async", async)
    ∷ []

unfoldable pub find_option : Bytes → List (Bytes × MountOption) → Option MountOption
unfolding bytes_eq
find_option s [] = none
find_option s ((name, o) ∷ arms) =
    let rest = find_option s arms in if bytes_eq s name then some o else rest

-- `x.starts_with(prefix)`, with what follows the prefix.
unfoldable pub strip : Bytes → Bytes → Option Bytes
strip [] x = some x
strip (p ∷ ps) [] = none
strip (p ∷ ps) (b ∷ x) = let rest = strip ps x in if p == b then rest else none

unfoldable pub mount_option_from_str : Bytes → MountOption
unfolding find_option strip
mount_option_from_str x = elim (find_option x named_options) [
  | some o ↦ o
  | none ↦ elim (strip (codes "fsname=") x) [
    | some name ↦ fs_name name
    | none ↦ elim (strip (codes "subtype=") x) [ some name ↦ subtype name | none ↦ custom x ]
  ]
]

pub data PipeDescriptor : Type 0 where
  unnamed_pipe : PipeDescriptor
  named_pipe : Bytes → PipeDescriptor

-- `sender` is there where somebody waits for the end of the mount.
pub record Fuse : Type 0 where
  pub pfs : PuzzleFs
  pub sender : Option (Unit {0})
  pub init_notify : Option PipeDescriptor

-- What others get: a byte in the unnamed pipe or in a named one, or the message of the channel.
pub data Notice : Type 0 where
  in_pipe : ℕ → Notice
  in_named_pipe : Bytes → ℕ → Notice
  unmounted : Notice

-- The pipes of the host: whether a byte can be written to the unnamed pipe; whether a path is a
-- FIFO, can be opened for writing, and takes a byte.
pub record PipeHost : Type 0 where
  pub pipe_takes : Bool
  pub is_fifo : Bytes → Result Bool
  pub open_pipe : Bytes → Result (Unit {0})
  pub named_pipe_takes : Bytes → Bool

-- A byte, if it can be written; a failure is logged.
abbrev pub write_all : Bool → Notice → List Notice
write_all true notice = notice ∷ []
write_all false notice = []

abbrev pub new : PuzzleFs → Option (Unit {0}) → Option PipeDescriptor → Fuse
new pfs sender init_notify = record { pfs = pfs; sender = sender; init_notify = init_notify }

-- `Drop for Fuse`
unfoldable pub drop : Fuse → List Notice
drop fuse = elim fuse.sender [ none ↦ [] | some sender ↦ unmounted ∷ [] ]

-- What was sent to others, and what the caller gets.
abbrev pub Run : Type 0
Run = List Notice × Result (Unit {0})

module _ (p : PipeHost) where
  unfoldable pub open_and_write : Bytes → ℕ → List Notice
  open_and_write path b = elim (p.open_pipe path) [
    | ok _ ↦ write_all (p.named_pipe_takes path) (in_named_pipe path b)
    | _ ↦ []
  ]

  -- `Filesystem::init` takes the descriptor, so that it notifies once. The thread for a named pipe is
  -- taken to have ended.
  unfoldable pub notify : PipeDescriptor → List Notice
  unfolding open_and_write
  notify unnamed_pipe = write_all p.pipe_takes (in_pipe b's')
  notify (named_pipe path) = elim (p.is_fifo path) [
    | ok fifo ↦ if fifo then open_and_write path b's' else []
    | _ ↦ []
  ]

  unfoldable pub init : Fuse → Fuse × List Notice
  unfolding notify
  init fuse = elim fuse.init_notify [
    | none ↦ (fuse, [])
    | some init_notify ↦ (record fuse { init_notify = none }, notify init_notify)
  ]

  -- A session that ran: `init` at its start, and the end of the `Fuse`.
  unfoldable pub session : Fuse → Result (Result (Unit {0})) → Run
  unfolding init drop
  session fuse (ok ended) = ((init fuse).1 ++ drop (init fuse).0, ended)
  session fuse (err e) = (drop fuse, err e)
  session fuse panic = (drop fuse, panic)

-- The fuser crate: `mount2` fails before it calls `init`, or it serves the requests until the file
-- system is unmounted, and tells how the session ended. `spawn_mount2` serves in the background.
pub record Fuser : Type 0 where
  pub mount2 : Fuse → Bytes → List MountOption → Result (Result (Unit {0}))
  pub spawn_mount2 : Fuse → Bytes → List MountOption → Result (Unit {0})

module _ (p : PipeHost) (f : Fuser) (h : Host) (c : Capnp) (oci : Oci h c) where
  -- `PuzzleFS::open`
  unfoldable pub open_fs : String → Option Bytes → Result PuzzleFs
  unfolding open_image image_fs
  open_fs tag manifest_verity = do
    opened ← open_image h c oci tag manifest_verity
    ok (image_fs h c opened.rootfs opened.verity_data)

  abbrev pub with_fs : Result PuzzleFs → (PuzzleFs → Run) → Run
  with_fs (ok pfs) run = run pfs
  with_fs (err e) run = ([], err e)
  with_fs panic run = ([], panic)

  unfoldable pub mount : String → Bytes → List Bytes → Option PipeDescriptor → Option Bytes → Run
  unfolding open_fs session mount_option_from_str
  mount tag mountpoint options init_notify manifest_verity =
      with_fs (open_fs tag manifest_verity) (λ pfs.
        let fuse = new pfs none init_notify in
        session p fuse (f.mount2 fuse mountpoint (map mount_option_from_str options)))

  -- What is sent until the call returns; `init` runs in the background.
  unfoldable pub spawn_mount :
      String → Bytes → List Bytes → Option PipeDescriptor → Option (Unit {0}) → Option Bytes → Run
  unfolding open_fs mount_option_from_str drop
  spawn_mount tag mountpoint options init_notify sender manifest_verity =
      with_fs (open_fs tag manifest_verity) (λ pfs.
        let fuse = new pfs sender init_notify in
        elim (f.spawn_mount2 fuse mountpoint (map mount_option_from_str options)) [
          | ok _ ↦ ([], ok tt)
          | err e ↦ (drop fuse, err e)
          | panic ↦ (drop fuse, panic)
        ])

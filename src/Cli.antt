-- ===== src/Cli.antt =====
-- exe/src/main.rs: the commands of the executable, over the operations of the library and the host.
pub mod Answers
pub mod Correct
pub mod Unmount
pub mod Background
pub mod Mount
use puzzlefs.Prelude.{
  ℕ, ◌==◌, not, Bool, true, false, Bytes, bytes_eq, Option, none, some, List, [], ◌∷◌, ◌++◌,
  if◌then◌else◌, split,
}
use puzzlefs.Errors.{WireFormatError}
use puzzlefs.Format.{Hash}
use puzzlefs.Oci.Put.{Compression, noop, zstd}

-- Why a command fails: the messages of `anyhow::bail!`, or an error of a call.
pub data Failure : Type 0 where
  bad_oci_dir no_mountpoint not_root fusermount_failed unknown_mount_type panicked : Failure
  of_call : WireFormatError → Failure

pub data Answer {κ} (T : Type κ) : Type κ where
  fail : Failure → Answer T
  done : T → Answer T

infixl 5 ◌>>=◌ ◌>>◌
abbrev pub ◌>>=◌ {κ ι} : {T : Type κ} {U : Type ι} → Answer T → (T → Answer U) → Answer U
fail f >>= rest = fail f
done t >>= rest = rest t

abbrev pub ◌>>◌ {κ} : {U : Type κ} → Answer (Unit {0}) → Answer U → Answer U
m >> rest = m >>= λ _. rest

-- The arguments of the commands that are modelled.
pub record Build : Type 0 where
  pub rootfs : Bytes
  pub oci_dir : Bytes
  pub base_layer : Option Bytes
  pub compression : Bool

pub record Umount : Type 0 where
  pub mountpoint : Bytes

pub record Extract : Type 0 where
  pub oci_dir : Bytes
  pub extract_dir : Bytes

pub record FsVerity : Type 0 where
  pub oci_dir : Bytes
  pub root_hash : Bytes

abbrev pub colon : ℕ
colon = 58

-- `str::split_terminator`: an empty part at the end does not count.
abbrev pub without_last_empty : List Bytes → List Bytes
without_last_empty [] = []
without_last_empty ([] ∷ []) = []
without_last_empty ((b ∷ part) ∷ []) = (b ∷ part) ∷ []
without_last_empty (part ∷ next ∷ parts) = part ∷ without_last_empty (next ∷ parts)

unfoldable pub split_terminator : ℕ → Bytes → List Bytes
unfolding split
split_terminator c text = without_last_empty (split c text)

-- `components.len() != 2`
abbrev pub pair_of : List Bytes → Answer (Bytes × Bytes)
pair_of (dir ∷ tag ∷ []) = done (dir, tag)
pair_of _ = fail bad_oci_dir

unfoldable pub parse_oci_dir : Bytes → Answer (Bytes × Bytes)
unfolding split_terminator
parse_oci_dir oci_dir = pair_of (split_terminator colon oci_dir)

-- What the commands call: `Image::new` and `Image::open` with `fs::canonicalize`, the operations of
-- the library, the file of the manifest, and the effective user.
pub record Library : Type 1 where
  pub Image : Type 0
  pub image_new : Bytes → Answer Image
  pub canonicalize : Bytes → Answer Bytes
  pub image_open : Bytes → Answer Image
  pub build_initial_rootfs : Compression → Bytes → Image → Bytes → Answer Image
  pub add_rootfs_delta : Compression → Bytes → Image → Bytes → Bytes → Answer Image
  pub read_manifest : Image → Bytes → Answer Bytes
  pub get_fs_verity_digest : Bytes → Answer Hash
  pub extract_rootfs : Bytes → Bytes → Bytes → Answer (Unit {0})
  pub enable_fs_verity : Image → Bytes → Bytes → Answer (Unit {0})

-- An entry of `/proc/self/mountinfo`, where it could be parsed.
pub record MountInfo : Type 0 where
  pub mount_point : Bytes
  pub fstype : Bytes

-- What is done to unmount.
pub data Unmounting : Type 0 where
  umount : Bytes → Unmounting
  fusermount : Bytes → Unmounting

-- The mounts of the host, the effective user, and the answers of `umount` and of `fusermount -u`:
-- whether the call could be made, and whether the process succeeded.
pub record MountHost : Type 0 where
  pub mounts : Answer (List (Answer MountInfo))
  pub is_root : Bool
  pub join_ro : Bytes → Bytes
  pub may_umount : Bytes → Answer (Unit {0})
  pub run_fusermount : Bytes → Answer Bool

-- `"overlay"` and `"fuse"`
abbrev pub overlay_name : Bytes
overlay_name = 111 ∷ 118 ∷ 101 ∷ 114 ∷ 108 ∷ 97 ∷ 121 ∷ []

abbrev pub fuse_name : Bytes
fuse_name = 102 ∷ 117 ∷ 115 ∷ 101 ∷ []

-- `parser.find(..)`: an entry that could not be parsed is passed over.
unfoldable pub find_mount : Bytes → List (Answer MountInfo) → Answer MountInfo
unfolding bytes_eq
find_mount mountpoint [] = fail no_mountpoint
find_mount mountpoint (fail e ∷ infos) = find_mount mountpoint infos
find_mount mountpoint (done info ∷ infos) =
    let rest = find_mount mountpoint infos in
    if bytes_eq info.mount_point mountpoint then done info else rest

module _ (l : Library) where
  abbrev pub compression_of : Bool → Compression
  compression_of true = zstd
  compression_of false = noop

  -- `SubCommand::Build`: what is printed is the digest of the manifest.
  unfoldable pub build_command : Build → Answer Hash
  unfolding parse_oci_dir
  build_command b = do
    (oci_dir, tag) ← parse_oci_dir b.oci_dir
    image ← l.image_new oci_dir
    new_image ← elim b.base_layer [
      | some base_layer ↦
          l.add_rootfs_delta (compression_of b.compression) b.rootfs image tag base_layer
      | none ↦ l.build_initial_rootfs (compression_of b.compression) b.rootfs image tag
    ]
    read_buffer ← l.read_manifest new_image tag
    l.get_fs_verity_digest read_buffer

  -- `SubCommand::Extract`
  unfoldable pub extract_command : Extract → Answer (Unit {0})
  unfolding parse_oci_dir
  extract_command e = do
    (oci_dir, tag) ← parse_oci_dir e.oci_dir
    l.extract_rootfs oci_dir tag e.extract_dir

  -- `SubCommand::EnableFsVerity`
  unfoldable pub enable_command : FsVerity → Answer (Unit {0})
  unfolding parse_oci_dir
  enable_command v = do
    (oci_dir, tag) ← parse_oci_dir v.oci_dir
    path ← l.canonicalize oci_dir
    image ← l.image_open path
    l.enable_fs_verity image tag v.root_hash

module _ (m : MountHost) where
  unfoldable pub get_mount_type : Bytes → Answer Bytes
  unfolding find_mount
  get_mount_type mountpoint = do
    infos ← m.mounts
    info ← find_mount mountpoint infos
    done info.fstype

  -- The calls that were made, and how the command ends.
  abbrev pub Unmounted : Type 0
  Unmounted = List Unmounting × Answer (Unit {0})

  abbrev pub ended_by : Unmounting → Answer (Unit {0}) → Unmounted → Unmounted
  ended_by action (fail e) next = (action ∷ [], fail e)
  ended_by action (done _) next = (action ∷ next.0, next.1)

  unfoldable pub umount_overlay : Bytes → Unmounted
  umount_overlay mountpoint =
      if m.is_root
      then ended_by (umount mountpoint) (m.may_umount mountpoint) (
          ended_by (umount (m.join_ro mountpoint)) (m.may_umount (m.join_ro mountpoint))
            ([], done tt))
      else ([], fail not_root)

  unfoldable pub umount_fuse : Bytes → Unmounted
  umount_fuse mountpoint = (
    fusermount mountpoint ∷ [],
    m.run_fusermount mountpoint >>= λ success. if success then done tt else fail fusermount_failed,
  )

  -- `match mount_type.to_str()`
  unfoldable pub dispatch : Umount → Answer Bytes → Unmounted
  unfolding umount_overlay umount_fuse bytes_eq
  dispatch u (fail e) = ([], fail e)
  dispatch u (done fstype) =
      if bytes_eq fstype overlay_name
      then umount_overlay u.mountpoint
      else if bytes_eq fstype fuse_name
      then umount_fuse u.mountpoint
      else ([], fail unknown_mount_type)

  -- `SubCommand::Umount`
  unfoldable pub umount_command : Umount → Unmounted
  unfolding get_mount_type dispatch
  umount_command u = dispatch u (get_mount_type u.mountpoint)

-- ===== src/Format.antt =====
-- puzzlefs-lib/src/format/types.rs: the image's metadata. The children say how an inode is built
-- from host metadata and read (Inodes), what a message holds on the wire (Wire), how the two are
-- converted (Capnp), and how a layer and a stack of layers are searched (Search, Stack).
pub mod Inodes
pub mod Additional
pub mod Digest
pub mod Equality
pub mod Wire
pub mod Capnp
pub mod Verity
pub mod RootfsCapnp
pub mod RoundTrip
pub mod Search
pub mod Stack
use puzzlefs.Prelude.{ℕ, Bool, Bytes, Option, List}

abbrev pub sha256_block_size : ℕ
sha256_block_size = 32

abbrev pub default_file_permissions : ℕ
default_file_permissions = 0o644

abbrev pub Ino : Type 0
Ino = ℕ

-- A `[u8; 32]`; that it has 32 bytes is stated where it matters.
abbrev pub Hash : Type 0
Hash = Bytes

pub record BlobRef : Type 0 where
  pub digest : Hash
  pub offset : ℕ
  pub compressed : Bool

pub record DirEnt : Type 0 where
  pub ino : Ino
  pub name : Bytes

pub record DirList : Type 0 where
  pub look_below : Bool
  pub entries : List DirEnt

pub record FileChunk : Type 0 where
  pub blob : BlobRef
  pub len : ℕ

pub record Xattr : Type 0 where
  pub key : Bytes
  pub val : Bytes

pub record InodeAdditional : Type 0 where
  pub xattrs : List Xattr
  pub symlink_target : Option Bytes

pub data InodeMode : Type 0 where
  unknown : InodeMode
  fifo : InodeMode
  chr : ℕ → ℕ → InodeMode
  dir : DirList → InodeMode
  blk : ℕ → ℕ → InodeMode
  file : List FileChunk → InodeMode
  lnk : InodeMode
  sock : InodeMode
  wht : InodeMode

pub record Inode : Type 0 where
  pub ino : Ino
  pub mode : InodeMode
  pub uid : ℕ
  pub gid : ℕ
  pub permissions : ℕ
  pub additional : Option InodeAdditional

-- A BTreeMap from a blob's digest to its fs-verity digest, as an association list.
abbrev pub VerityData : Type 0
VerityData = List (Hash × Hash)

pub record Rootfs : Type 0 where
  pub metadatas : List (List Inode)
  pub fs_verity_data : VerityData
  pub manifest_version : ℕ

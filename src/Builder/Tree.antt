-- ===== src/Builder/Tree.antt =====
-- puzzlefs-lib/src/builder.rs: what `build_delta` uses of the host's directory tree, and the
-- directories and other files that it gathers.
use puzzlefs.Prelude.{Bool, true, false, Bytes, Option, List, [], ◌∷◌, ◌++◌, map}
use Prim.Native.Nat.{Ordering}
use puzzlefs.Errors.{Result}
use puzzlefs.Format.{Ino, DirList, InodeAdditional}
use puzzlefs.Format.Inodes.{Metadata}
use puzzlefs.Format.Additional.{AttributeHost}
use puzzlefs.Format.Verity.{bytes_cmp}
use puzzlefs.Reader.Lookup.{Component, root_dir, normal}
use puzzlefs.Builder.Stream.{FileSystem, FilesystemStream}

-- A path of the host below the directory that the image is built from: the names on the way.
abbrev pub HostPath : Type 0
HostPath = List Bytes

-- `fs::DirEntry`: a name in a directory, and the answer of `metadata`.
pub record HostEntry : Type 0 where
  pub file_name : Bytes
  pub metadata : Result Metadata

-- The struct `Dir`.
pub record Dir : Type 0 where
  pub ino : Ino
  pub dir_list : DirList
  pub md : Metadata
  pub additional : Option InodeAdditional

-- The struct `Other`.
pub record Other : Type 0 where
  pub ino : Ino
  pub md : Metadata
  pub additional : Option InodeAdditional

-- The host: the directories that `walker` gives with the filter of `build_delta`, the metadata of a
-- path and the entries of a directory, the files, the chunker of the fastcdc crate (a chunk that it
-- could not read is none), and the order in which a `HashMap` gives its values.
pub record HostTree : Type 1 where
  pub file_system : FileSystem
  pub attributes : AttributeHost
  pub full_path : HostPath → Bytes
  pub walk : List (Result HostPath)
  pub symlink_metadata : HostPath → Result Metadata
  pub read_dir : HostPath → Result (List (Result HostEntry))
  pub stream_cdc : FilesystemStream file_system → List (Option Bytes)
  pub into_values : List Dir → List Dir

-- `Dir::add_entry`
unfoldable pub add_entry : Bytes → Ino → Dir → Dir
add_entry name ino d = record d {
  dir_list = record d.dir_list {
    entries = d.dir_list.entries ++ record { ino = ino; name = name } ∷ [];
  };
}

-- `rootfs_relative`: the path in the image.
unfoldable pub rootfs_relative : HostPath → List Component
rootfs_relative p = root_dir ∷ map normal p

-- `new_dirents.sort_by_key(|a| a.file_name())`
abbrev pub by_name : HostEntry → HostEntry → Bool
by_name a b = elim (bytes_cmp a.file_name b.file_name) [ Ordering.gt ↦ false | _ ↦ true ]

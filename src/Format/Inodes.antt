-- ===== src/Format/Inodes.antt =====
-- puzzlefs-lib/src/format/types.rs, `impl Inode`: inodes from host metadata, and their accessors.
use Prim.Native.Nat.{bit_and}
use puzzlefs.Prelude.{ℕ, Bytes, bytes_eq, Option, none, some, List, [], ◌∷◌, find, add64}
use puzzlefs.Errors.{Result, ok, err, ok_or, ◌>>=◌, io_error, Errno, from_errno}
use puzzlefs.Format.{
  Ino, DirEnt, DirList, FileChunk, Inode, InodeAdditional, InodeMode, default_file_permissions,
}

-- The type of a host file, as `fs::FileType` tells it.
pub data FileType : Type 0 where
  is_fifo is_char_device is_dir is_block_device is_file is_symlink is_socket is_other : FileType

-- The part of `fs::Metadata` that the code reads. `major` and `minor` are those of `rdev`, which
-- the nix crate takes apart.
pub record Metadata : Type 0 where
  pub file_type : FileType
  pub host_ino : ℕ
  pub size : ℕ
  pub uid : ℕ
  pub gid : ℕ
  pub st_mode : ℕ
  pub major : ℕ
  pub minor : ℕ

unfoldable pub new_inode : Ino → Metadata → InodeMode → Option InodeAdditional → Inode
new_inode ino md mode additional = record {
  ino = ino;
  mode = mode;
  uid = md.uid;
  gid = md.gid;
  permissions = bit_and md.st_mode 0xFFF;
  additional = additional;
}

unfoldable pub new_dir : Ino → Metadata → DirList → Option InodeAdditional → Result Inode
unfolding new_inode
new_dir ino md dir_list additional = elim md.file_type [
  | is_dir ↦ ok (new_inode ino md (InodeMode.dir dir_list) additional)
  | _ ↦ err (io_error none)
]

unfoldable pub new_file : Ino → Metadata → List FileChunk → Option InodeAdditional → Result Inode
unfolding new_inode
new_file ino md file_chunks additional = elim md.file_type [
  | is_file ↦ ok (new_inode ino md (InodeMode.file file_chunks) additional)
  | _ ↦ err (io_error none)
]

-- The mode that `new_other` gives each file type; directories and files are refused.
unfoldable pub other_mode : Metadata → Result InodeMode
other_mode md = elim md.file_type [
  | is_fifo ↦ ok InodeMode.fifo
  | is_char_device ↦ ok (InodeMode.chr md.major md.minor)
  | is_dir ↦ err (io_error none)
  | is_block_device ↦ ok (InodeMode.blk md.major md.minor)
  | is_file ↦ err (io_error none)
  | is_symlink ↦ ok InodeMode.lnk
  | is_socket ↦ ok InodeMode.sock
  | is_other ↦ ok InodeMode.unknown
]

unfoldable pub new_other : Ino → Metadata → Option InodeAdditional → Result Inode
unfolding new_inode other_mode
new_other ino md additional = do mode ← other_mode md; ok (new_inode ino md mode additional)

unfoldable pub new_whiteout : Ino → Inode
new_whiteout ino = record {
  ino = ino;
  mode = InodeMode.wht;
  uid = 0;
  gid = 0;
  permissions = default_file_permissions;
  additional = none;
}

-- `match &self.mode`: the accessors below split on the mode.
abbrev pub mode_entries : InodeMode → Result (List DirEnt)
mode_entries (InodeMode.dir dir_list) = ok dir_list.entries
mode_entries _ = err (from_errno Errno.enotdir)

abbrev pub mode_chunks : InodeMode → Result (List FileChunk)
mode_chunks (InodeMode.file chunks) = ok chunks
mode_chunks _ = err (from_errno Errno.enotdir)

unfoldable pub dir_entries : Inode → Result (List DirEnt)
unfolding from_errno
dir_entries i = mode_entries i.mode

-- `entries.iter().find(|dir_ent| dir_ent.name == name)`
unfoldable pub find_entry : Bytes → List DirEnt → Option DirEnt
unfolding find bytes_eq
find_entry name = find (λ (e : DirEnt). bytes_eq e.name name)

unfoldable pub dir_lookup : Inode → Bytes → Result Ino
unfolding dir_entries find_entry
dir_lookup i name = do
  entries ← dir_entries i
  e ← ok_or (find_entry name entries) (from_errno Errno.enoent)
  ok e.ino

-- `chunks.iter().map(|c| c.len).sum()` over `u64`.
unfoldable pub chunks_len : List FileChunk → ℕ
chunks_len [] = 0
chunks_len (c ∷ cs) = add64 c.len (chunks_len cs)

unfoldable pub file_len : Inode → Result ℕ
unfolding chunks_len
file_len i = do chunks ← mode_chunks i.mode; ok (chunks_len chunks)

unfoldable pub symlink_target : Inode → Result Bytes
symlink_target i =
    ok_or (elim i.additional [ none ↦ none | some a ↦ a.symlink_target ]) (from_errno Errno.enoent)

-- ===== src/Reader/Fuse.antt =====
-- puzzlefs-lib/src/reader/fuse.rs: what the FUSE file system computes for a request. The child
-- Requests dispatches the requests to these.
pub mod Requests
pub mod Pages
pub mod Correct
use Prim.Native.Nat.{bit_and, bit_or}
use puzzlefs.Prelude.{
  ℕ, zero, suc, ◌+◌, ◌-◌, Bool, true, false, Bytes, bytes_eq, Option, none, some, List, [], ◌∷◌,
  ◌++◌, find, drop, length, ◌==◌, u32_mod, u64_mod, if◌then◌else◌,
}
use puzzlefs.Errors.{
  Result, ok, err, panic, ◌>>=◌, ok_or, Errno, WireFormatError, from_errno, to_errno,
}
use puzzlefs.Format.{Ino, DirEnt, Inode, InodeAdditional, InodeMode, Xattr}
use puzzlefs.Format.Inodes.{dir_lookup, dir_entries, file_len}
use puzzlefs.Compression.{ℤ}
use puzzlefs.Reader.Lookup.{PuzzleFs}

-- The file types of the FUSE protocol.
pub data Kind : Type 0 where
  regular_file directory named_pipe char_device block_device symlink socket : Kind

-- The fields of `FileAttr` that depend on the inode; the others are constants.
pub record FileAttr : Type 0 where
  pub ino : Ino
  pub size : ℕ
  pub kind : Kind
  pub perm : ℕ
  pub uid : ℕ
  pub gid : ℕ

unfoldable pub mode_to_fuse_type : Inode → Result Kind
unfolding from_errno
mode_to_fuse_type inode = elim inode.mode [
  | InodeMode.file _ ↦ ok regular_file
  | InodeMode.dir _ ↦ ok directory
  | InodeMode.fifo ↦ ok named_pipe
  | InodeMode.chr _ _ ↦ ok char_device
  | InodeMode.blk _ _ ↦ ok block_device
  | InodeMode.lnk ↦ ok symlink
  | InodeMode.sock ↦ ok socket
  | _ ↦ err (from_errno Errno.einval)
]

-- `file_len().unwrap_or(0)`
unfoldable pub size_of : Inode → ℕ
unfolding file_len
size_of inode = elim (file_len inode) [ ok len ↦ len | err _ ↦ 0 | panic ↦ 0 ]

-- One entry of a directory reply: `reply.add(ino, index + 1, kind, name)`.
pub record DirReply : Type 0 where
  pub ino : Ino
  pub next : ℕ
  pub kind : Kind
  pub name : Bytes

-- A number of 32 bits with a sign, as a pattern of bits; `negsuc n` is -(n + 1).
abbrev pub bits32 : ℤ → ℕ
bits32 (ℤ.pos n) = n
bits32 (ℤ.negsuc n) = u32_mod - suc n

-- `offset as usize`
abbrev pub as_usize : ℤ → ℕ
as_usize (ℤ.pos n) = n
as_usize (ℤ.negsuc n) = u64_mod - suc n

-- The numbers of `OFlag` in the nix crate: all the flags it knows, and those that the code allows.
pub record OpenFlags : Type 0 where
  pub known : ℕ
  pub o_rdonly : ℕ
  pub o_path : ℕ
  pub o_nonblock : ℕ
  pub o_directory : ℕ
  pub o_nofollow : ℕ
  pub o_noatime : ℕ

unfoldable pub allowed_flags : OpenFlags → ℕ
allowed_flags o =
    bit_or
      (bit_or (bit_or (bit_or (bit_or o.o_rdonly o.o_path) o.o_nonblock) o.o_directory)
        o.o_nofollow)
      o.o_noatime

-- The flags that an open replies with: `flags_i.try_into().unwrap()` panics on a negative number.
unfoldable pub open_reply : OpenFlags → ℤ → Result ℕ
unfolding allowed_flags from_errno
open_reply o flags_i =
    let flags = bit_and (bits32 flags_i) o.known in
    if bit_and (allowed_flags o) flags == flags
    then (elim flags_i [ ℤ.pos n ↦ ok n | ℤ.negsuc n ↦ panic ])
    else err (from_errno Errno.erofs)

-- `CString::new(key)`, with its nul byte: a key with a nul byte inside is refused.
unfoldable pub c_string : Bytes → Result Bytes
c_string key = elim (find (λ (b : ℕ). b == 0) key) [ some _ ↦ panic | none ↦ ok (key ++ 0 ∷ []) ]

unfoldable pub xattr_keys : List Xattr → Result Bytes
unfolding c_string
xattr_keys [] = ok []
xattr_keys (x ∷ xs) = do key ← c_string x.key; keys ← xattr_keys xs; ok (key ++ keys)

module _ (pfs : PuzzleFs) where
  unfoldable pub get_attr : Ino → Result FileAttr
  unfolding mode_to_fuse_type size_of
  get_attr ino = do
    ic ← pfs.find_inode ino
    kind ← mode_to_fuse_type ic
    ok (record {
      ino = ic.ino;
      size = size_of ic;
      kind = kind;
      perm = ic.permissions;
      uid = ic.uid;
      gid = ic.gid;
    })

  unfoldable pub look_up : Ino → Bytes → Result FileAttr
  unfolding get_attr dir_lookup
  look_up parent name = do dir ← pfs.find_inode parent; ino ← dir_lookup dir name; get_attr ino

  unfoldable pub read_file : Ino → ℕ → ℕ → Result Bytes
  read_file ino offset size = do inode ← pfs.find_inode ino; pfs.read inode offset size

  -- The entries from the index on, until the reply's buffer is full; `full replies e` says that
  -- the buffer which holds the replies has no room for the entry.
  unfoldable pub add_entries :
      (List DirReply → DirReply → Bool) → ℕ → List DirEnt → List DirReply → Result (List DirReply)
  unfolding mode_to_fuse_type
  add_entries full index [] replies = ok replies
  add_entries full index (e ∷ es) replies = do
    inode ← pfs.find_inode e.ino
    kind ← mode_to_fuse_type inode
    let entry : DirReply = record { ino = e.ino; next = index + 1; kind = kind; name = e.name }
    let rest = add_entries full (index + 1) es (replies ++ entry ∷ [])
    if full replies entry then ok replies else rest

  unfoldable pub read_dir : (List DirReply → DirReply → Bool) → Ino → ℕ → Result (List DirReply)
  unfolding add_entries dir_entries
  read_dir full ino offset = do
    inode ← pfs.find_inode ino
    entries ← dir_entries inode
    add_entries full offset (drop offset entries) []

  unfoldable pub read_link : Ino → Result Bytes
  unfolding mode_to_fuse_type from_errno
  read_link ino = do
    inode ← pfs.find_inode ino
    kind ← mode_to_fuse_type inode
    elim kind [
      | symlink ↦
          ok_or (elim inode.additional [ none ↦ none | some add ↦ add.symlink_target ])
            (from_errno Errno.einval)
      | _ ↦ err (from_errno Errno.einval)
    ]

  unfoldable pub list_xattr : Ino → Result Bytes
  unfolding xattr_keys
  list_xattr ino = do
    inode ← pfs.find_inode ino
    elim inode.additional [ none ↦ ok [] | some add ↦ xattr_keys add.xattrs ]

  unfoldable pub get_xattr : Ino → Bytes → Result Bytes
  unfolding find bytes_eq from_errno
  get_xattr ino name = do
    inode ← pfs.find_inode ino
    elim inode.additional [
      | none ↦ err (from_errno Errno.enodata)
      | some add ↦ elim (find (λ (x : Xattr). bytes_eq x.key name) add.xattrs) [
        | none ↦ err (from_errno Errno.enodata)
        | some x ↦ ok x.val
      ]
    ]

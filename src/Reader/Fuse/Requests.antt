-- ===== src/Reader/Fuse/Requests.antt =====
-- puzzlefs-lib/src/reader/fuse.rs, `impl Filesystem for Fuse`: the reply to each request. The
-- arguments that a handler ignores are left out.
use puzzlefs.Prelude.{ℕ, Bool, true, false, Bytes, List, length, leb, ltb, ◌==◌, u32_mod}
use puzzlefs.Errors.{Result, ok, err, panic, Errno, to_errno}
use puzzlefs.Format.{Ino}
use puzzlefs.Compression.{ℤ}
use puzzlefs.Reader.Lookup.{PuzzleFs}
use puzzlefs.Reader.Fuse.{
  FileAttr, DirReply, OpenFlags, open_reply, as_usize, get_attr, look_up, read_file, read_dir,
  read_link, list_xattr, get_xattr,
}

-- The requests that would change the file system, or lock or flush a file.
pub data Refused : Type 0 where
  setattr mknod mkdir unlink rmdir symlink rename link write flush fsync fsyncdir : Refused
  setxattr removexattr create getlk setlk : Refused

-- The error that each of them is answered with.
unfoldable pub refusal : Refused → Errno
refusal setattr = Errno.erofs
refusal mknod = Errno.erofs
refusal mkdir = Errno.erofs
refusal unlink = Errno.erofs
refusal rmdir = Errno.erofs
refusal symlink = Errno.erofs
refusal rename = Errno.erofs
refusal link = Errno.erofs
refusal write = Errno.erofs
refusal flush = Errno.enosys
refusal fsync = Errno.erofs
refusal fsyncdir = Errno.erofs
refusal setxattr = Errno.erofs
refusal removexattr = Errno.erofs
refusal create = Errno.erofs
refusal getlk = Errno.erofs
refusal setlk = Errno.erofs

pub data Request : Type 0 where
  refuse : Refused → Request
  lookup : Ino → Bytes → Request
  getattr : Ino → Request
  readlink : Ino → Request
  open_file : ℤ → Request
  read : Ino → ℤ → ℕ → Request
  release : Request
  opendir : ℤ → Request
  readdir : Ino → ℤ → Request
  releasedir : Request
  statfs : Request
  getxattr : Ino → Bytes → ℕ → Request
  listxattr : Ino → ℕ → Request
  access : Request
  bmap : Request

-- `panicked` stands for a handler that unwinds.
pub data Reply : Type 0 where
  error : Errno → Reply
  entry : FileAttr → Reply
  attr : FileAttr → Reply
  bytes : Bytes → Reply
  opened : ℕ → Reply
  done : Reply
  dir_replies : List DirReply → Reply
  stats : ℕ → Reply
  size : ℕ → Reply
  panicked : Reply

abbrev pub answer {ℓ} : {A : Type ℓ} → Result A → (A → Reply) → Reply
answer (ok a) reply = reply a
answer (err e) reply = error (to_errno e)
answer panic reply = panicked

-- A request for an attribute asks for its size with the size 0, and otherwise for a value that
-- fits its buffer. The length must fit a `u32`.
unfoldable pub xattr_reply : ℕ → Bytes → Reply
xattr_reply size' xattr = elim (ltb (length xattr) u32_mod) [
  | false ↦ panicked
  | true ↦ elim (size' == 0) [
    | true ↦ size (length xattr)
    | false ↦ elim (leb (length xattr) size') [ true ↦ bytes xattr | false ↦ error Errno.erange ]
  ]
]

module _ (o : OpenFlags) (full : List DirReply → DirReply → Bool) (pfs : PuzzleFs) where
  unfoldable pub handle : Request → Reply
  unfolding refusal look_up get_attr read_link open_reply read_file read_dir get_xattr list_xattr
      xattr_reply
  handle (refuse r) = error (refusal r)
  handle (lookup parent name) = answer (look_up pfs parent name) entry
  handle (getattr ino) = answer (get_attr pfs ino) attr
  handle (readlink ino) = answer (read_link pfs ino) bytes
  handle (open_file flags) = answer (open_reply o flags) opened
  handle (read ino (ℤ.pos offset) size') = answer (read_file pfs ino offset size') bytes
  handle (read ino (ℤ.negsuc n) size') = panicked
  handle release = done
  handle (opendir flags) = answer (open_reply o flags) opened
  handle (readdir ino offset) = answer (read_dir pfs full ino (as_usize offset)) dir_replies
  handle releasedir = done
  handle statfs = stats 256
  handle (getxattr ino name size') = answer (get_xattr pfs ino name) (xattr_reply size')
  handle (listxattr ino size') = answer (list_xattr pfs ino) (xattr_reply size')
  handle access = done
  handle bmap = error Errno.enolck

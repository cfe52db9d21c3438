-- ===== src/Examples.antt =====
-- A small image, and runs of the code on it.
mod Format
mod Oci
mod Reader
mod Trees
mod Gather
mod ReadBack
mod Build
mod Stream
mod Compress
mod Cli
mod Mount
mod Verity
mod Builder
mod Links
mod Extractor
use puzzlefs.Prelude.{
  ℕ, Bool, true, false, Bytes, bytes_eq, Option, none, some, List, [], ◌∷◌, refl, take, drop,
  length, ◌+◌,
}
use puzzlefs.Errors.{Result, ok, err, io_error, missing_manifest}
use puzzlefs.Format.{Hash, Inode, InodeMode, FileChunk, DirEnt, Rootfs}
use puzzlefs.Format.Wire.{Capnp}
use puzzlefs.Format.Stack.{finished}
use puzzlefs.Compression.{Host, SeekFrom}

-- A Cap'n Proto whose pointer fields are options.
abbrev has_some : {A : Type 0} → Option A → Bool
has_some none = false
has_some (some a) = true

abbrev get_or : {A : Type 0} → A → Option A → Result A
get_or d none = ok d
get_or d (some a) = ok a

abbrev pub options : Capnp
options = record {
  Ptr = Option;
  null = λ A. none;
  init = λ A a. some a;
  has = λ A. has_some;
  get = λ A. get_or;
  has-null = λ A. refl;
  has-init = λ A a. refl;
  get-null = λ A d. refl;
  get-init = λ A d a. refl;
}

abbrev pub digest_1 : Hash
digest_1 = 1 ∷ []

-- 32 bytes.
abbrev pub digest_32 : Hash
digest_32 =
    1 ∷ 2 ∷ 3 ∷ 4 ∷ 5 ∷ 6 ∷ 7 ∷ 8 ∷ 9 ∷ 10 ∷ 11 ∷ 12 ∷ 13 ∷ 14 ∷ 15 ∷ 16 ∷ 17 ∷ 18 ∷ 19 ∷ 20 ∷ 21
    ∷ 22 ∷ 23 ∷ 24 ∷ 25 ∷ 26 ∷ 27 ∷ 28 ∷ 29 ∷ 30 ∷ 31 ∷ 32 ∷ []

abbrev pub content : Bytes
content = 10 ∷ 11 ∷ 12 ∷ 13 ∷ 14 ∷ []

abbrev pub TestFile : Type 0
TestFile = Bytes × ℕ

abbrev seek_to : TestFile → SeekFrom → Result (TestFile × ℕ)
seek_to (b, p) (SeekFrom.start s) = ok ((b, s), s)
seek_to (b, p) (SeekFrom.end e) = err (io_error none)
seek_to (b, p) (SeekFrom.current e) = err (io_error none)

-- A host whose only blob is `content`; every file measures as `digest_32`.
abbrev pub one_blob : Host
one_blob = record {
  File = TestFile;
  open_blob =
      λ d. elim (bytes_eq d digest_32) [ true ↦ ok (content, 0) | false ↦ err (io_error none) ];
  measure = λ f. ok digest_32;
  file_seek = seek_to;
  file_read = λ f n. ok ((f.0, f.1 + length (take n (drop f.1 f.0))), take n (drop f.1 f.0));
  Stream = Bytes;
  stream_init = λ f. ok f.0;
  frame_sizes = λ b. length b ∷ [];
  decompress = λ b n o. ok (take n (drop o b));
}

abbrev pub chunk_1 : FileChunk
chunk_1 = record { blob = record { digest = digest_32; offset = 1; compressed = false }; len = 3 }

abbrev pub chunk_2 : FileChunk
chunk_2 = record { blob = record { digest = digest_32; offset = 0; compressed = true }; len = 2 }

abbrev pub root_inode : Inode
root_inode = record {
  ino = 1;
  mode = InodeMode.dir (record {
    look_below = false;
    entries = record { ino = 2; name = 97 ∷ [] } ∷ record { ino = 3; name = 98 ∷ [] } ∷ [];
  });
  uid = 0;
  gid = 0;
  permissions = 0o755;
  additional = none;
}

abbrev pub file_inode : Inode
file_inode = record {
  ino = 2;
  mode = InodeMode.file (chunk_1 ∷ chunk_2 ∷ []);
  uid = 7;
  gid = 8;
  permissions = 0o644;
  additional = some (record {
    xattrs = record { key = 120 ∷ []; val = 1 ∷ 2 ∷ 3 ∷ [] } ∷ [];
    symlink_target = none;
  });
}

abbrev pub whiteout : Inode
whiteout = record {
  ino = 3;
  mode = InodeMode.wht;
  uid = 0;
  gid = 0;
  permissions = 0o644;
  additional = none;
}

-- Two layers; the upper one hides the inode 3 of the lower one.
abbrev pub two_layers : Rootfs
two_layers = record {
  metadatas =
      (whiteout ∷ [])
      ∷ (root_inode ∷ file_inode ∷ record whiteout { mode = InodeMode.fifo } ∷ [])
      ∷ [];
  fs_verity_data = (digest_32, digest_32) ∷ [];
  manifest_version = 3;
}

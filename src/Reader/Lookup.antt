-- ===== src/Reader/Lookup.antt =====
-- puzzlefs-lib/src/reader/puzzlefs.rs, `PuzzleFS`: what the readers use of an image, and the lookup
-- of a path.
pub mod Correct
pub mod Image
use puzzlefs.Prelude.{
  zero, suc, ◌++◌, ℕ, ◌-◌, Bytes, Option, none, some, List, [], ◌∷◌, ◌==◌, Bool, true, false,
  length, min, add64, sub64, if◌then◌else◌,
}
use puzzlefs.Errors.{Result, ok, err, panic, ◌>>=◌, from_errno, to_errno, Errno}
use puzzlefs.Format.{Ino, DirEnt, Inode, InodeMode, VerityData}
use puzzlefs.Format.Inodes.{find_entry, file_len}
use puzzlefs.Format.Wire.{Capnp, RootfsMsg}
use puzzlefs.Format.Stack
use puzzlefs.Compression.{Host}
use puzzlefs.Reader.File.{file_read}

-- An opened image: its inodes, and the bytes of its files. `read inode offset size` fills a buffer
-- of that size.
pub record PuzzleFs : Type 0 where
  pub find_inode : Ino → Result Inode
  pub max_inode : Result Ino
  pub read : Inode → ℕ → ℕ → Result Bytes

-- The image with this metadata and these blobs.
unfoldable pub image_fs : Host → (c : Capnp) → RootfsMsg c → Option VerityData → PuzzleFs
unfolding Stack.find_inode Stack.max_inode file_read
image_fs h c rootfs verity_data = record {
  find_inode = Stack.find_inode c rootfs;
  max_inode = Stack.max_inode c rootfs;
  read = λ inode offset size. file_read h inode offset size verity_data;
}

-- The components of a path, as the standard library splits it.
pub data Component : Type 0 where
  prefix root_dir cur_dir parent_dir : Component
  normal : Bytes → Component

module _ (pfs : PuzzleFs) where
  -- The loop over the components after the first.
  unfoldable pub lookup_loop : Inode → List Component → Result (Option Inode)
  unfolding find_entry from_errno
  lookup_loop cur [] = ok (some cur)
  lookup_loop cur (normal p ∷ comps) = elim cur.mode [
    | InodeMode.dir dir_list ↦ elim (find_entry p dir_list.entries) [
      | some e ↦ do next ← pfs.find_inode e.ino; lookup_loop next comps
      | none ↦ ok none
    ]
    | _ ↦ ok none
  ]
  lookup_loop cur (_ ∷ comps) = err (from_errno Errno.einval)

  -- An empty path has no first component to look at.
  unfoldable pub lookup : List Component → Result (Option Inode)
  unfolding lookup_loop
  lookup [] = panic
  lookup (root_dir ∷ comps) = do cur ← pfs.find_inode 1; lookup_loop cur comps
  lookup (_ ∷ comps) = err (from_errno Errno.einval)

-- `FileReader`: a file that is read from its start on.
pub record FileReader : Type 0 where
  pub inode : Inode
  pub offset : ℕ
  pub len : ℕ

unfoldable pub new_reader : Inode → Result FileReader
unfolding file_len
new_reader inode = do len ← file_len inode; ok (record { inode = inode; offset = 0; len = len })

-- `map_err(|e| io::Error::from_raw_os_error(e.to_errno()))`
unfoldable pub as_os_error {ℓ} : {A : Type ℓ} → Result A → Result A
unfolding to_errno from_errno
as_os_error (ok a) = ok a
as_os_error (err e) = err (from_errno (to_errno e))
as_os_error panic = panic

-- A read into a buffer of `size` bytes; `read` is that of the image without verity data.
unfoldable pub read : PuzzleFs → FileReader → ℕ → Result (FileReader × Bytes)
unfolding add64 sub64 as_os_error
read pfs r size = elim (min (sub64 r.len r.offset) size == 0) [
  | true ↦ ok (r, [])
  | false ↦ do
    b ← as_os_error (pfs.read r.inode r.offset (min (sub64 r.len r.offset) size))
    ok (record r { offset = add64 r.offset (length b) }, b)
]

-- `io::copy`: reads with a buffer of `size` bytes until a read gives nothing, on fuel.
unfoldable pub copy : PuzzleFs → ℕ → ℕ → FileReader → Bytes → Option (Result Bytes)
unfolding read
copy pfs size zero r out = none
copy pfs size (suc fuel) r out = elim (read pfs r size) [
  | err e ↦ some (err e)
  | panic ↦ some panic
  | ok (r', b) ↦ elim (length b == 0) [
    | true ↦ some (ok out)
    | false ↦ copy pfs size fuel r' (out ++ b)
  ]
]

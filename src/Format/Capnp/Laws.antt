-- ===== src/Format/Capnp/Laws.antt =====
-- puzzlefs-lib/src/format/types.rs: an inode that is written to a message and read back is the same
-- inode.
use puzzlefs.Prelude.{
  Bytes, Option, none, some, List, [], ◌∷◌, map, length, u32_mod, ◌<◌, ◌≡◌, refl, All, arith,
}
use puzzlefs.Errors.{ok, traverse-map}
use puzzlefs.Format.{
  BlobRef, DirEnt, FileChunk, Xattr, Inode, InodeAdditional, InodeMode, sha256_block_size,
}
use puzzlefs.Format.Wire.{
  Capnp, DeviceMsg, BlobRefMsg, FileChunkMsg, DirEntryMsg, DirMsg, XattrMsg, InodeAdditionalMsg,
  ModeMsg, InodeMsg,
}
use puzzlefs.Format.Capnp.{
  to_hash, checked_list, blob_ref_from_capnp, blob_ref_fill_capnp, file_chunk_from_capnp,
  file_chunk_fill_capnp, dir_ent_from_capnp, dir_ent_fill_capnp, xattr_from_capnp, xattr_fill_capnp,
  inode_mode_from_capnp, inode_mode_fill_capnp, inode_additional_from_capnp,
  inode_additional_fill_capnp, inode_from_capnp, fill_additional, inode_fill_capnp, empty_device,
  empty_blob_ref, empty_dir, empty_additional,
}

-- What the Rust types guarantee (a digest is a `[u8; 32]`) and lists that a `u32` can count.
abbrev pub IsHash : Bytes → Type 0
IsHash b = length b ≡ sha256_block_size

abbrev pub ChunkFits : FileChunk → Type 0
ChunkFits f = IsHash f.blob.digest

abbrev pub ModeFits : InodeMode → Type 0
ModeFits (InodeMode.dir d) = length d.entries < u32_mod
ModeFits (InodeMode.file chunks) = (length chunks < u32_mod) × All ChunkFits chunks
ModeFits _ = Unit

abbrev pub AdditionalFits : Option InodeAdditional → Type 0
AdditionalFits none = Unit
AdditionalFits (some a) = length a.xattrs < u32_mod

abbrev pub InodeFits : Inode → Type 0
InodeFits i = ModeFits i.mode × AdditionalFits i.additional

pub to_hash_lem : (b : Bytes) → IsHash b → to_hash b ≡ ok b
unfolding to_hash
to_hash_lem b h = ground arith

pub checked_list_lem : {A : Type 0} (xs : List A) → length xs < u32_mod → checked_list xs ≡ ok xs
unfolding checked_list
checked_list_lem xs h = ground arith

All-trivial : {A : Type 0} (xs : List A) → All (λ _. Unit {0}) xs
All-trivial [] = tt
All-trivial (x ∷ xs) = (tt, All-trivial xs)

module _ (c : Capnp) where
  blob_ref_back :
      (b : BlobRef) → IsHash b.digest → blob_ref_from_capnp c (blob_ref_fill_capnp c b) ≡ ok b
  unfolding blob_ref_from_capnp blob_ref_fill_capnp
  blob_ref_back b h = rw (c.get-init Bytes [] b.digest, to_hash_lem b.digest h)

  file_chunk_back :
      (f : FileChunk) → ChunkFits f → file_chunk_from_capnp c (file_chunk_fill_capnp c f) ≡ ok f
  unfolding file_chunk_from_capnp file_chunk_fill_capnp
  file_chunk_back f h = rw (
    c.get-init (BlobRefMsg c) (empty_blob_ref c) (blob_ref_fill_capnp c f.blob),
    blob_ref_back f.blob h,
  )

  dir_ent_back : (e : DirEnt) → Unit {0} → dir_ent_from_capnp c (dir_ent_fill_capnp c e) ≡ ok e
  unfolding dir_ent_from_capnp dir_ent_fill_capnp
  dir_ent_back e _ = rw (c.get-init Bytes [] e.name)

  xattr_back : (x : Xattr) → Unit {0} → xattr_from_capnp c (xattr_fill_capnp c x) ≡ ok x
  unfolding xattr_from_capnp xattr_fill_capnp
  xattr_back x _ = rw (c.get-init Bytes [] x.key, c.get-init Bytes [] x.val)

  inode_mode_back :
      (m : InodeMode)
      → ModeFits m
      → (w : ModeMsg c) × (inode_mode_fill_capnp c m ≡ ok w) × (inode_mode_from_capnp c w ≡ ok m)
  unfolding inode_mode_fill_capnp inode_mode_from_capnp
  inode_mode_back InodeMode.unknown h = (_, refl, refl)
  inode_mode_back InodeMode.fifo h = (_, refl, refl)
  inode_mode_back (InodeMode.chr a b) h =
      (_, refl, rw (c.get-init (DeviceMsg c) (empty_device c) _))
  inode_mode_back (InodeMode.blk a b) h =
      (_, refl, rw (c.get-init (DeviceMsg c) (empty_device c) _))
  inode_mode_back (InodeMode.dir d) h = (
    ModeMsg.dir (
        c.init (DirMsg c) (record {
          entries = c.init (List (DirEntryMsg c)) (map (dir_ent_fill_capnp c) d.entries);
          look_below = d.look_below;
        })),
    rw (checked_list_lem d.entries h),
    rw (
      c.get-init (DirMsg c) (empty_dir c) _,
      c.get-init (List (DirEntryMsg c)) [] _,
      traverse-map _ _ _ dir_ent_back d.entries (All-trivial d.entries),
    ),
  )
  inode_mode_back (InodeMode.file chunks) h = (
    ModeMsg.file (c.init (List (FileChunkMsg c)) (map (file_chunk_fill_capnp c) chunks)),
    rw (checked_list_lem chunks h.0),
    rw (c.get-init (List (FileChunkMsg c)) [] _, traverse-map _ _ _ file_chunk_back chunks h.1),
  )
  inode_mode_back InodeMode.lnk h = (_, refl, refl)
  inode_mode_back InodeMode.sock h = (_, refl, refl)
  inode_mode_back InodeMode.wht h = (_, refl, refl)

  abbrev written_xattrs : List Xattr → c.Ptr (List (XattrMsg c))
  written_xattrs xs = c.init (List (XattrMsg c)) (map (xattr_fill_capnp c) xs)

  abbrev written_target : Option Bytes → c.Ptr Bytes
  written_target none = c.null Bytes
  written_target (some t) = c.init Bytes t

  inode_additional_fill_lem :
      (xs : List Xattr) (t : Option Bytes)
      → length xs < u32_mod
      → inode_additional_fill_capnp c (record { xattrs = xs; symlink_target = t })
        ≡ ok (record { xattrs = written_xattrs xs; symlink_target = written_target t })
  unfolding inode_additional_fill_capnp
  inode_additional_fill_lem xs none h = rw (checked_list_lem xs h)
  inode_additional_fill_lem xs (some t) h = rw (checked_list_lem xs h)

  inode_additional_from_lem :
      (xs : List Xattr) (t : Option Bytes)
      → inode_additional_from_capnp c
          (record { xattrs = written_xattrs xs; symlink_target = written_target t })
        ≡ ok (some (record { xattrs = xs; symlink_target = t }))
  unfolding inode_additional_from_capnp
  inode_additional_from_lem xs none = rw (
    c.has-init (List (XattrMsg c)) (map (xattr_fill_capnp c) xs),
    c.has-null Bytes,
    c.get-init (List (XattrMsg c)) [] (map (xattr_fill_capnp c) xs),
    traverse-map _ _ _ xattr_back xs (All-trivial xs),
  )
  inode_additional_from_lem xs (some t) = rw (
    c.has-init (List (XattrMsg c)) (map (xattr_fill_capnp c) xs),
    c.has-init Bytes t,
    c.get-init (List (XattrMsg c)) [] (map (xattr_fill_capnp c) xs),
    traverse-map _ _ _ xattr_back xs (All-trivial xs),
    c.get-init Bytes [] t,
  )

  -- What `additional` was set to reads back; if it was never set, the default reads as none.
  additional_back :
      (a : Option InodeAdditional)
      → AdditionalFits a
      → (w : c.Ptr (InodeAdditionalMsg c)) × (m : InodeAdditionalMsg c) × (fill_additional c a
          ≡ ok w)
        × (c.get (InodeAdditionalMsg c) (empty_additional c) w ≡ ok m)
        × (inode_additional_from_capnp c m ≡ ok a)
  unfolding fill_additional inode_additional_from_capnp
  additional_back none h = (
    c.null (InodeAdditionalMsg c),
    empty_additional c,
    refl,
    c.get-null (InodeAdditionalMsg c) (empty_additional c),
    rw (c.has-null (List (XattrMsg c)), c.has-null Bytes),
  )
  additional_back (some a) h =
      let m : InodeAdditionalMsg c = record {
        xattrs = written_xattrs a.xattrs;
        symlink_target = written_target a.symlink_target;
      } in
      (
        c.init (InodeAdditionalMsg c) m,
        m,
        rw (inode_additional_fill_lem a.xattrs a.symlink_target h),
        c.get-init (InodeAdditionalMsg c) (empty_additional c) m,
        inode_additional_from_lem a.xattrs a.symlink_target,
      )

  -- An inode that fits the format is written without error, and reading the message gives it back.
  pub inode_back :
      (i : Inode)
      → InodeFits i
      → (w : InodeMsg c) × (inode_fill_capnp c i ≡ ok w) × (inode_from_capnp c w ≡ ok i)
  unfolding inode_fill_capnp inode_from_capnp
  inode_back i h =
      let (mode, mode_wrote, mode_read) = inode_mode_back i.mode h.0 in
      let (additional, m, wrote, got, read) = additional_back i.additional h.1 in
      (
        record {
          ino = i.ino;
          mode = mode;
          uid = i.uid;
          gid = i.gid;
          permissions = i.permissions;
          additional = additional;
        },
        rw (mode_wrote, wrote),
        rw (mode_read, got, read),
      )

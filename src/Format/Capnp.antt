-- ===== src/Format/Capnp.antt =====
-- puzzlefs-lib/src/format/types.rs, `from_capnp` and `fill_capnp`: reading and writing messages. A
-- `fill_capnp` is a function to the contents that it sets; lists are written through `u32` lengths.
pub mod Laws
use puzzlefs.Prelude.{
  ℕ, Bool, true, false, Bytes, Option, none, some, List, [], ◌∷◌, map, length, u32_mod, ltb, ◌==◌,
  if◌then◌else◌, ◌||◌, not,
}
use puzzlefs.Errors.{
  Result, ok, err, ◌>>=◌, from_slice_error, from_int_error, invalid_serialized_data, traverse,
}
use puzzlefs.Format.{
  Hash, BlobRef, DirEnt, DirList, FileChunk, Xattr, Inode, InodeAdditional, InodeMode, Rootfs,
  VerityData, sha256_block_size,
}
use puzzlefs.Format.Wire.{
  Capnp, DeviceMsg, BlobRefMsg, FileChunkMsg, DirEntryMsg, DirMsg, XattrMsg, InodeAdditionalMsg,
  ModeMsg, InodeMsg, InodeVectorMsg, VerityDataMsg, RootfsMsg,
}

-- `<[u8; SHA256_BLOCK_SIZE]>::try_from(slice)`
unfoldable pub to_hash : Bytes → Result Hash
to_hash b = if length b == sha256_block_size then ok b else err from_slice_error

-- `u32::try_from(len)` for the length of a list that is to be written; the list is then filled.
unfoldable pub checked_list : {A : Type 0} → List A → Result (List A)
checked_list xs = if ltb (length xs) u32_mod then ok xs else err from_int_error

module _ (c : Capnp) where
  abbrev pub empty_device : DeviceMsg c
  empty_device = record { major = 0; minor = 0 }

  abbrev pub empty_blob_ref : BlobRefMsg c
  empty_blob_ref = record { digest = c.null Bytes; offset = 0; compressed = false }

  abbrev pub empty_dir : DirMsg c
  empty_dir = record { entries = c.null (List (DirEntryMsg c)); look_below = false }

  abbrev pub empty_additional : InodeAdditionalMsg c
  empty_additional = record { xattrs = c.null (List (XattrMsg c)); symlink_target = c.null Bytes }

  unfoldable pub blob_ref_from_capnp : BlobRefMsg c → Result BlobRef
  unfolding to_hash
  blob_ref_from_capnp m = do
    bytes ← c.get Bytes [] m.digest
    digest ← to_hash bytes
    ok (record { digest = digest; offset = m.offset; compressed = m.compressed })

  unfoldable pub blob_ref_fill_capnp : BlobRef → BlobRefMsg c
  blob_ref_fill_capnp b = record {
    digest = c.init Bytes b.digest;
    offset = b.offset;
    compressed = b.compressed;
  }

  unfoldable pub file_chunk_from_capnp : FileChunkMsg c → Result FileChunk
  file_chunk_from_capnp m = do
    b ← c.get (BlobRefMsg c) empty_blob_ref m.blob
    blob ← blob_ref_from_capnp b
    ok (record { blob = blob; len = m.len })

  -- The body of the loop over the chunks in `InodeMode::fill_capnp`.
  unfoldable pub file_chunk_fill_capnp : FileChunk → FileChunkMsg c
  file_chunk_fill_capnp f = record {
    blob = c.init (BlobRefMsg c) (blob_ref_fill_capnp f.blob);
    len = f.len;
  }

  unfoldable pub dir_ent_from_capnp : DirEntryMsg c → Result DirEnt
  dir_ent_from_capnp m = do name ← c.get Bytes [] m.name; ok (record { ino = m.ino; name = name })

  unfoldable pub dir_ent_fill_capnp : DirEnt → DirEntryMsg c
  dir_ent_fill_capnp e = record { ino = e.ino; name = c.init Bytes e.name }

  unfoldable pub xattr_from_capnp : XattrMsg c → Result Xattr
  xattr_from_capnp m = do
    key ← c.get Bytes [] m.key
    val ← c.get Bytes [] m.val
    ok (record { key = key; val = val })

  unfoldable pub xattr_fill_capnp : Xattr → XattrMsg c
  xattr_fill_capnp x = record { key = c.init Bytes x.key; val = c.init Bytes x.val }

  unfoldable pub inode_mode_from_capnp : ModeMsg c → Result InodeMode
  inode_mode_from_capnp ModeMsg.unknown = ok InodeMode.unknown
  inode_mode_from_capnp ModeMsg.fifo = ok InodeMode.fifo
  inode_mode_from_capnp ModeMsg.lnk = ok InodeMode.lnk
  inode_mode_from_capnp ModeMsg.sock = ok InodeMode.sock
  inode_mode_from_capnp ModeMsg.wht = ok InodeMode.wht
  inode_mode_from_capnp (ModeMsg.chr p) = do
    r ← c.get (DeviceMsg c) empty_device p
    ok (InodeMode.chr r.major r.minor)
  inode_mode_from_capnp (ModeMsg.blk p) = do
    r ← c.get (DeviceMsg c) empty_device p
    ok (InodeMode.blk r.major r.minor)
  inode_mode_from_capnp (ModeMsg.file p) = do
    r ← c.get (List (FileChunkMsg c)) [] p
    chunks ← traverse file_chunk_from_capnp r
    ok (InodeMode.file chunks)
  inode_mode_from_capnp (ModeMsg.dir p) = do
    r ← c.get (DirMsg c) empty_dir p
    es ← c.get (List (DirEntryMsg c)) [] r.entries
    entries ← traverse dir_ent_from_capnp es
    ok (InodeMode.dir (record { look_below = r.look_below; entries = entries }))
  inode_mode_from_capnp ModeMsg.not_in_schema = err invalid_serialized_data

  unfoldable pub inode_mode_fill_capnp : InodeMode → Result (ModeMsg c)
  inode_mode_fill_capnp InodeMode.unknown = ok ModeMsg.unknown
  inode_mode_fill_capnp InodeMode.fifo = ok ModeMsg.fifo
  inode_mode_fill_capnp (InodeMode.chr major minor) =
      ok (ModeMsg.chr (c.init (DeviceMsg c) (record { major = major; minor = minor })))
  inode_mode_fill_capnp (InodeMode.dir d) = do
    es ← checked_list d.entries
    let entries = c.init (List (DirEntryMsg c)) (map dir_ent_fill_capnp es)
    ok (ModeMsg.dir (c.init (DirMsg c) (record { entries = entries; look_below = d.look_below })))
  inode_mode_fill_capnp (InodeMode.blk major minor) =
      ok (ModeMsg.blk (c.init (DeviceMsg c) (record { major = major; minor = minor })))
  inode_mode_fill_capnp (InodeMode.file chunks) = do
    cs ← checked_list chunks
    ok (ModeMsg.file (c.init (List (FileChunkMsg c)) (map file_chunk_fill_capnp cs)))
  inode_mode_fill_capnp InodeMode.lnk = ok ModeMsg.lnk
  inode_mode_fill_capnp InodeMode.sock = ok ModeMsg.sock
  inode_mode_fill_capnp InodeMode.wht = ok ModeMsg.wht

  -- A field that `has_...` does not report is not read.
  unfoldable pub inode_additional_from_capnp :
      InodeAdditionalMsg c → Result (Option InodeAdditional)
  inode_additional_from_capnp m =
      let has_xattrs = c.has (List (XattrMsg c)) m.xattrs in
      let has_target = c.has Bytes m.symlink_target in
      if not (has_xattrs || has_target) then ok none else do
        xs ← (if has_xattrs then c.get (List (XattrMsg c)) [] m.xattrs else ok [])
        xattrs ← traverse xattr_from_capnp xs
        target ←
            (if has_target then (do t ← c.get Bytes [] m.symlink_target; ok (some t)) else ok none)
        ok (some (record { xattrs = xattrs; symlink_target = target }))

  unfoldable pub inode_additional_fill_capnp : InodeAdditional → Result (InodeAdditionalMsg c)
  inode_additional_fill_capnp a = do
    xs ← checked_list a.xattrs
    ok (record {
      xattrs = c.init (List (XattrMsg c)) (map xattr_fill_capnp xs);
      symlink_target = elim a.symlink_target [ none ↦ c.null Bytes | some t ↦ c.init Bytes t ];
    })

  unfoldable pub inode_from_capnp : InodeMsg c → Result Inode
  inode_from_capnp m = do
    mode ← inode_mode_from_capnp m.mode
    a ← c.get (InodeAdditionalMsg c) empty_additional m.additional
    additional ← inode_additional_from_capnp a
    ok (record {
      ino = m.ino;
      mode = mode;
      uid = m.uid;
      gid = m.gid;
      permissions = m.permissions;
      additional = additional;
    })

  -- The field `additional` is set only if there is something to set.
  unfoldable pub fill_additional : Option InodeAdditional → Result (c.Ptr (InodeAdditionalMsg c))
  fill_additional none = ok (c.null (InodeAdditionalMsg c))
  fill_additional (some a) = do
    m ← inode_additional_fill_capnp a
    ok (c.init (InodeAdditionalMsg c) m)

  unfoldable pub inode_fill_capnp : Inode → Result (InodeMsg c)
  inode_fill_capnp i = do
    mode ← inode_mode_fill_capnp i.mode
    additional ← fill_additional i.additional
    ok (record {
      ino = i.ino;
      mode = mode;
      uid = i.uid;
      gid = i.gid;
      permissions = i.permissions;
      additional = additional;
    })

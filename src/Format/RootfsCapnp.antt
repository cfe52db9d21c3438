-- ===== src/Format/RootfsCapnp.antt =====
-- puzzlefs-lib/src/format/types.rs: `from_capnp` and `fill_capnp` of `InodeVector` and `Rootfs`, and
-- `RootfsReader::get_verity_data`.
use puzzlefs.Prelude.{Bytes, List, [], ◌∷◌, map}
use puzzlefs.Errors.{Result, ok, ◌>>=◌, traverse}
use puzzlefs.Format.{Hash, Inode, Rootfs, VerityData}
use puzzlefs.Format.Verity.{insert}
use puzzlefs.Format.Wire.{Capnp, InodeMsg, InodeVectorMsg, VerityDataMsg, RootfsMsg}
use puzzlefs.Format.Capnp.{to_hash, checked_list, inode_from_capnp, inode_fill_capnp}

module _ (c : Capnp) where
  unfoldable pub inode_vector_from_capnp : InodeVectorMsg c → Result (List Inode)
  inode_vector_from_capnp m = do
    is ← c.get (List (InodeMsg c)) [] m.inodes
    traverse (inode_from_capnp c) is

  unfoldable pub inode_vector_fill_capnp : List Inode → Result (InodeVectorMsg c)
  inode_vector_fill_capnp inodes = do
    is ← checked_list inodes
    ms ← traverse (inode_fill_capnp c) is
    ok (record { inodes = c.init (List (InodeMsg c)) ms })

  -- The loop over the verity entries, with the map built so far.
  unfoldable pub verity_loop : VerityData → List (VerityDataMsg c) → Result VerityData
  verity_loop m [] = ok m
  verity_loop m (e ∷ es) = do
    d ← c.get Bytes [] e.digest
    digest ← to_hash d
    v ← c.get Bytes [] e.verity
    verity ← to_hash v
    verity_loop (insert digest verity m) es

  unfoldable pub get_verity_data : RootfsMsg c → Result VerityData
  get_verity_data m = do es ← c.get (List (VerityDataMsg c)) [] m.fs_verity_data; verity_loop [] es

  unfoldable pub rootfs_from_capnp : RootfsMsg c → Result Rootfs
  rootfs_from_capnp m = do
    ls ← c.get (List (InodeVectorMsg c)) [] m.metadatas
    metadatas ← traverse inode_vector_from_capnp ls
    es ← c.get (List (VerityDataMsg c)) [] m.fs_verity_data
    fs_verity_data ← verity_loop [] es
    ok (record {
      metadatas = metadatas;
      fs_verity_data = fs_verity_data;
      manifest_version = m.manifest_version;
    })

  unfoldable pub verity_fill_capnp : Hash × Hash → VerityDataMsg c
  verity_fill_capnp (digest, verity) = record {
    digest = c.init Bytes digest;
    verity = c.init Bytes verity;
  }

  unfoldable pub rootfs_fill_capnp : Rootfs → Result (RootfsMsg c)
  rootfs_fill_capnp r = do
    ls ← checked_list r.metadatas
    metadatas ← traverse inode_vector_fill_capnp ls
    vs ← checked_list r.fs_verity_data
    ok (record {
      metadatas = c.init (List (InodeVectorMsg c)) metadatas;
      fs_verity_data = c.init (List (VerityDataMsg c)) (map verity_fill_capnp vs);
      manifest_version = r.manifest_version;
    })

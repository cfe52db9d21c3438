-- ===== src/Format/RoundTrip.antt =====
-- puzzlefs-lib/src/format/types.rs: a root file system that is written and read back is the same.
use puzzlefs.Prelude.{
  ◌≡◌, Bytes, List, [], ◌∷◌, ◌++◌, map, length, u32_mod, ◌<◌, All, append_assoc, sym, subst,
  append-nil, ◌∙◌, ap,
}
use puzzlefs.Errors.{ok, ◌>>=◌, traverse-traverse}
use puzzlefs.Format.{Hash, Inode, Rootfs, VerityData}
use puzzlefs.Format.Verity.{IsOrdered, insert_ascending}
use puzzlefs.Format.Wire.{Capnp, InodeMsg, InodeVectorMsg, VerityDataMsg}
use puzzlefs.Format.Capnp.{inode_from_capnp, inode_fill_capnp}
use puzzlefs.Format.Capnp.Laws.{IsHash, InodeFits, inode_back, to_hash_lem, checked_list_lem}
use puzzlefs.Format.RootfsCapnp.{
  inode_vector_from_capnp, inode_vector_fill_capnp, verity_loop, rootfs_from_capnp,
  verity_fill_capnp, rootfs_fill_capnp,
}

abbrev pub LayerFits : List Inode → Type 0
LayerFits inodes = (length inodes < u32_mod) × All InodeFits inodes

abbrev pub VerityFits : Hash × Hash → Type 0
VerityFits (digest, verity) = IsHash digest × IsHash verity

-- What the Rust types guarantee of a `Rootfs`, and lists that a `u32` can count.
pub record RootfsFits (r : Rootfs) : Type 0 where
  pub layers : length r.metadatas < u32_mod
  pub each_layer : All LayerFits r.metadatas
  pub verities : length r.fs_verity_data < u32_mod
  pub each_verity : All VerityFits r.fs_verity_data
  pub ordered : IsOrdered r.fs_verity_data

module _ (c : Capnp) where
  inode_vector_back :
      (l : List Inode)
      → LayerFits l
      → (w : InodeVectorMsg c) × (inode_vector_fill_capnp c l ≡ ok w)
        × (inode_vector_from_capnp c w ≡ ok l)
  unfolding inode_vector_fill_capnp inode_vector_from_capnp
  inode_vector_back l h =
      let (ms, wrote, read) =
        traverse-traverse (inode_from_capnp c) (inode_fill_capnp c) InodeFits (inode_back c) l
          h.1 in
      (
        record { inodes = c.init (List (InodeMsg c)) ms },
        rw (checked_list_lem l h.0, wrote),
        rw (c.get-init (List (InodeMsg c)) [] ms, read),
      )

  verity_back :
      (m vs : VerityData)
      → IsOrdered (m ++ vs)
      → All VerityFits vs
      → verity_loop c m (map (verity_fill_capnp c) vs) ≡ ok (m ++ vs)
  unfolding verity_loop verity_fill_capnp
  verity_back m [] ordered h = rw append-nil
  verity_back m ((k, v) ∷ vs) ordered h =
      rw
        (
          c.get-init Bytes [] k,
          to_hash_lem k h.0.0,
          c.get-init Bytes [] v,
          to_hash_lem v h.0.1,
          insert_ascending m k v vs ordered,
        )
        (verity_back (m ++ (k, v) ∷ []) vs
            (subst IsOrdered (sym (append_assoc m ((k, v) ∷ []) vs)) ordered) h.1
          ∙ ap ok (append_assoc m ((k, v) ∷ []) vs))

  -- A root file system that fits the format is written without error, and reading the message
  -- gives back the same layers, verity data and version.
  pub rootfs_round_trip :
      (r : Rootfs) → RootfsFits r → (rootfs_fill_capnp c r >>= rootfs_from_capnp c) ≡ ok r
  unfolding rootfs_fill_capnp rootfs_from_capnp
  rootfs_round_trip r h =
      let (ls, wrote, read) =
        traverse-traverse (inode_vector_from_capnp c) (inode_vector_fill_capnp c) LayerFits
          inode_vector_back r.metadatas h.each_layer in
      rw (
        checked_list_lem r.metadatas h.layers,
        wrote,
        checked_list_lem r.fs_verity_data h.verities,
        c.get-init (List (InodeVectorMsg c)) [] ls,
        read,
        c.get-init (List (VerityDataMsg c)) [] (map (verity_fill_capnp c) r.fs_verity_data),
        verity_back [] r.fs_verity_data h.ordered h.each_verity,
      )

-- ===== src/Builder/Build.antt =====
-- puzzlefs-lib/src/builder.rs: an image built from a directory tree, from scratch or as a delta over
-- an image, and stored in the OCI directory under a tag.
use Prim.Native.String.{String}
pub mod Stores
pub mod Layered
pub mod Correct
use puzzlefs.Prelude.{ℕ, Bool, true, false, Bytes, Option, none, some, List, [], ◌∷◌, if◌then◌else◌}
use puzzlefs.Errors.{Result, ok, err, panic, ◌>>=◌}
use puzzlefs.Format.{Hash, Inode, Rootfs, VerityData}
use puzzlefs.Format.Equality.{list_eq, inode_eq}
use puzzlefs.Format.Verity.{extend}
use puzzlefs.Format.Wire.{Capnp, RootfsMsg}
use puzzlefs.Format.RootfsCapnp.{rootfs_from_capnp, rootfs_fill_capnp}
use puzzlefs.Compression.{Host}
use puzzlefs.Oci.Put.{
  BlobHost, Compression, noop, MediaType, rootfs, Descriptor, Image, Put, put_blob,
}
use puzzlefs.Oci.Rootfs.{Oci, open_rootfs_blob, open_image, image_manifest_version}
use puzzlefs.Reader.Lookup.{PuzzleFs, image_fs}
use puzzlefs.Builder.Tree.{HostTree}
use puzzlefs.Builder.Delta.{Built, build_delta}

-- What the code uses of the capnp and ocidir crates to write an image: the bytes of a message, and,
-- over the index of the OCI directory and its blobs, a new manifest and storing a manifest with its
-- layers under a tag.
pub record OciDir (c : Capnp) : Type 1 where
  pub Index : Type 0
  pub write_message : RootfsMsg c → Result Bytes
  pub new_empty_manifest : Index → Result (List Descriptor)
  pub insert_manifest :
      List Descriptor → String → List (Hash × Bytes) × Index → Result (List (Hash × Bytes) × Index)

-- `rootfs.metadatas.iter().any(|x| *x == inodes)`
unfoldable pub has_layer : List Inode → List (List Inode) → Bool
unfolding inode_eq
has_layer inodes [] = false
has_layer inodes (x ∷ xs) =
    let rest = has_layer inodes xs in if list_eq inode_eq x inodes then true else rest

-- The metadata with the delta as its highest layer, unless there is such a layer.
unfoldable pub add_layer_to : Built → Rootfs → Rootfs
unfolding has_layer extend
add_layer_to b r = record r {
  metadatas = if has_layer b.inodes r.metadatas then r.metadatas else b.inodes ∷ r.metadatas;
  fs_verity_data = extend r.fs_verity_data b.verity_data;
}

module _ (c : Capnp) (dir : OciDir c) where
  -- The OCI directory: the blobs, and what names them.
  abbrev pub Stored : Type 0
  Stored = List (Hash × Bytes) × dir.Index

  unfoldable pub get_empty_manifest : Stored → Result (List Descriptor)
  get_empty_manifest (blobs, index) = dir.new_empty_manifest index

  unfoldable pub serialize_metadata : Rootfs → Result Bytes
  unfolding rootfs_fill_capnp
  serialize_metadata r = do message ← rootfs_fill_capnp c r; dir.write_message message

  -- The end of both builds: the metadata is stored, and the manifest gets its tag.
  unfoldable pub finish :
      BlobHost → Rootfs → String → Image → dir.Index → Result (Descriptor × Stored)
  unfolding serialize_metadata put_blob
  finish blobs r tag image index = do
    rootfs_buf ← serialize_metadata r
    p ← put_blob blobs noop rootfs_buf rootfs image
    stored ← dir.insert_manifest p.image.layers tag (p.image.blobs, index)
    ok (p.descriptor, stored)

  unfoldable pub build_initial_rootfs :
      HostTree → BlobHost → Compression → String → Stored → Result (Descriptor × Stored)
  unfolding get_empty_manifest build_delta finish
  build_initial_rootfs h blobs compression tag store = do
    layers ← get_empty_manifest store
    b ← build_delta h blobs compression none [] (record { blobs = store.0; layers = layers })
    finish blobs
        (record {
          metadatas = b.inodes ∷ [];
          fs_verity_data = b.verity_data;
          manifest_version = image_manifest_version;
        })
        tag b.image store.1

  -- `read` is how the image that is there is read.
  unfoldable pub add_rootfs_delta :
      HostTree
      → BlobHost
      → Compression
      → (read : Host) → Oci read c
      → String
      → String
      → Stored
      → Result (Descriptor × Stored)
  unfolding get_empty_manifest open_image open_rootfs_blob rootfs_from_capnp image_fs build_delta
      add_layer_to finish
  add_rootfs_delta h blobs compression read oci tag base_layer store = do
    layers ← get_empty_manifest store
    pfs ← open_image read c oci base_layer none
    message ← open_rootfs_blob read c oci base_layer none
    r ← rootfs_from_capnp c message
    b ←
        build_delta h blobs compression (some (image_fs read c pfs.rootfs pfs.verity_data)) []
          (record { blobs = store.0; layers = layers })
    finish blobs (add_layer_to b r) tag b.image store.1

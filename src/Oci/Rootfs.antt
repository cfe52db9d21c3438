-- ===== src/Oci/Rootfs.antt =====
-- puzzlefs-lib/src/oci.rs and reader/puzzlefs.rs, `PuzzleFS::open`: finding the metadata of an image
-- by its tag, and checking it against the fs-verity digest of the manifest.
pub mod Trust
use Prim.Native.String.{String}
use text.Mathlib.Text.{◌==◌ as str_eq}
use puzzlefs.Prelude.{
  ℕ, Bool, true, false, Bytes, Option, none, some, List, find, ◌==◌, if◌then◌else◌,
}
use puzzlefs.Errors.{
  Result, ok, err, ◌>>=◌, ◌>>◌, ok_or, missing_manifest, missing_rootfs, invalid_fs_verity_data,
  invalid_image_version,
}
use puzzlefs.Format.{Hash, VerityData}
use puzzlefs.Format.Wire.{Capnp, RootfsMsg}
use puzzlefs.Format.RootfsCapnp.{get_verity_data}
use puzzlefs.Compression.{Host}
use puzzlefs.Oci.Put.{puzzlefs_rootfs}
use puzzlefs.Oci.Blob.{check_fs_verity, open_raw_blob}

abbrev pub image_manifest_version : ℕ
image_manifest_version = 3

-- A layer of a manifest, as it is read: the annotations, if there are any, may have the root hash.
pub record Layer : Type 0 where
  pub media_type : String
  pub digest : Hash
  pub annotations : Option (Option String)

-- What the code uses of the ocidir, hex and capnp crates: the manifest with a tag and the digest of
-- the descriptor that names it, the decoding of 32 bytes, and the message in a file.
pub record Oci (h : Host) (c : Capnp) : Type 1 where
  pub find_manifest_with_tag : String → Result (Option (List Layer))
  pub find_manifest_descriptor_with_tag : String → Result (Option Hash)
  pub decode_to_slice : String → Result Bytes
  pub read_message : h.File → Result (RootfsMsg c)

-- `PuzzleFS`: the metadata, and the verity data if the manifest was verified.
pub record Opened (c : Capnp) : Type 0 where
  pub rootfs : RootfsMsg c
  pub verity_data : Option VerityData
  pub manifest_verity : Option Bytes

module _ (h : Host) (c : Capnp) (oci : Oci h c) where
  -- The manifest's layer with the PuzzleFS metadata.
  unfoldable pub rootfs_layer : String → Result Layer
  rootfs_layer tag = do
    m ← oci.find_manifest_with_tag tag
    layers ← ok_or m missing_manifest
    ok_or (find (λ (l : Layer). str_eq l.media_type puzzlefs_rootfs) layers) missing_rootfs

  unfoldable pub get_pfs_rootfs_verity : String → Result Bytes
  unfolding rootfs_layer
  get_pfs_rootfs_verity tag = do
    rootfs_desc ← rootfs_layer tag
    annotations ← ok_or rootfs_desc.annotations invalid_fs_verity_data
    rootfs_verity ← ok_or annotations invalid_fs_verity_data
    oci.decode_to_slice rootfs_verity

  unfoldable pub get_pfs_rootfs : String → Option Bytes → Result h.File
  unfolding rootfs_layer open_raw_blob
  get_pfs_rootfs tag verity = do
    rootfs_desc ← rootfs_layer tag
    open_raw_blob h rootfs_desc.digest verity

  unfoldable pub get_image_manifest_fd : String → Result h.File
  unfolding open_raw_blob
  get_image_manifest_fd tag = do
    m ← oci.find_manifest_descriptor_with_tag tag
    image_manifest ← ok_or m missing_manifest
    open_raw_blob h image_manifest none

  -- The digest that the metadata must have, where the manifest is to have a digest.
  unfoldable pub rootfs_verity : String → Option Bytes → Result (Option Bytes)
  unfolding get_image_manifest_fd get_pfs_rootfs_verity check_fs_verity
  rootfs_verity tag none = ok none
  rootfs_verity tag (some verity) = do
    manifest ← get_image_manifest_fd tag
    check_fs_verity h manifest verity
    v ← get_pfs_rootfs_verity tag
    ok (some v)

  unfoldable pub open_rootfs_blob : String → Option Bytes → Result (RootfsMsg c)
  unfolding rootfs_verity get_pfs_rootfs
  open_rootfs_blob tag verity = do
    v ← rootfs_verity tag verity
    rootfs_file ← get_pfs_rootfs tag v
    oci.read_message rootfs_file

  -- The verity data is used where the manifest is verified.
  unfoldable pub verity_data_of : RootfsMsg c → Option Bytes → Result (Option VerityData)
  unfolding get_verity_data
  verity_data_of rootfs none = ok none
  verity_data_of rootfs (some _) = do v ← get_verity_data c rootfs; ok (some v)

  unfoldable pub open_image : String → Option Bytes → Result (Opened c)
  unfolding open_rootfs_blob verity_data_of
  open_image tag manifest_verity = do
    rootfs ← open_rootfs_blob tag manifest_verity
    elim (rootfs.manifest_version == image_manifest_version) [
      | true ↦ do
        verity_data ← verity_data_of rootfs manifest_verity
        ok (record {
          rootfs = rootfs;
          verity_data = verity_data;
          manifest_verity = manifest_verity;
        })
      | false ↦ err invalid_image_version
    ]

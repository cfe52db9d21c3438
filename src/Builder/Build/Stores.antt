-- ===== src/Builder/Build/Stores.antt =====
-- puzzlefs-lib/src/builder.rs, the end of both builds: metadata that is stored under a tag is what
-- the tag opens.
use Prim.Native.String.{String}
use text.Mathlib.Text.{◌==◌ as str_eq}
use puzzlefs.Prelude.{
  ◌≡◌, sym, ap, ◌∙◌, subst, true, Bytes, none, some, List, [], ◌∷◌, map, find, ◌==◌, ==_iff,
}
use puzzlefs.Errors.{ok, ◌>>=◌, >>=-eq-ok, ok-injective, traverse}
use puzzlefs.Format.{Hash, Rootfs}
use puzzlefs.Format.Wire.{Capnp, RootfsMsg, InodeVectorMsg, VerityDataMsg}
use puzzlefs.Format.RootfsCapnp.{
  rootfs_from_capnp, rootfs_fill_capnp, inode_vector_from_capnp, verity_loop,
}
use puzzlefs.Format.RoundTrip.{RootfsFits, rootfs_round_trip}
use puzzlefs.Compression.{Host}
use puzzlefs.Oci.Put.{
  BlobHost, noop, rootfs, Descriptor, Image, Put, put_blob, blob, puzzlefs_rootfs, add_layer,
}
use puzzlefs.Oci.Put.Correct.{put_blob-layers, put_blob-Keeps, put_blob-noop}
use puzzlefs.Oci.Blob.{open_raw_blob}
use puzzlefs.Oci.Rootfs.{
  Oci, Layer, rootfs_layer, get_pfs_rootfs, rootfs_verity, open_rootfs_blob, verity_data_of,
  open_image, Opened, image_manifest_version,
}
use puzzlefs.Builder.Delta.{Built}
use puzzlefs.Builder.Build.{OciDir, Stored, serialize_metadata, finish}

-- The descriptor of the metadata is the first layer.
put_blob_rootfs :
    (h : BlobHost) (buf : Bytes) (image : Image) (p : Put)
    → put_blob h noop buf rootfs image ≡ ok p
    → (p.image.layers ≡ p.descriptor ∷ image.layers) × (p.descriptor.media_type ≡ puzzlefs_rootfs)
unfolding add_layer
put_blob_rootfs h buf image p done = put_blob-layers h noop buf rootfs image p done

-- The version of the metadata is that of the message.
pub version_of :
    (c : Capnp) (m : RootfsMsg c) (r : Rootfs)
    → rootfs_from_capnp c m ≡ ok r
    → m.manifest_version ≡ r.manifest_version
unfolding rootfs_from_capnp
version_of c m r h =
    let (ls, _, h1) = >>=-eq-ok (c.get (List (InodeVectorMsg c)) [] m.metadatas) _ h in
    let (rs, _, h2) = >>=-eq-ok (traverse (inode_vector_from_capnp c) ls) _ h1 in
    let (es, _, h3) = >>=-eq-ok (c.get (List (VerityDataMsg c)) [] m.fs_verity_data) _ h2 in
    let (vs, _, h4) = >>=-eq-ok (verity_loop c [] es) _ h3 in
    ap (λ (x : Rootfs). x.manifest_version) (ok-injective h4)

-- The metadata of an image that is built from scratch.
abbrev pub initial_rootfs : Built → Rootfs
initial_rootfs b = record {
  metadatas = b.inodes ∷ [];
  fs_verity_data = b.verity_data;
  manifest_version = image_manifest_version;
}

-- A layer of the manifest, as it is read.
abbrev pub as_layer : (Hash → String) → Descriptor → Layer
as_layer hex d = record {
  media_type = d.media_type;
  digest = d.digest;
  annotations = elim d.annotation [ none ↦ none | some v ↦ some (some (hex v)) ];
}

module _ (c : Capnp) (dir : OciDir c) (hex : Hash → String) (read : Stored c dir → Host)
    (oci : (s : Stored c dir) → Oci (read s) c) where
  -- What the code relies on of the ocidir and capnp crates: a new manifest has no layers; a
  -- manifest that was stored under a tag is found under it, and the blobs are kept; a blob can be
  -- opened; and the message of the metadata is read back as it was written.
  pub record Crates (r : Rootfs) : Type 0 where
    pub empty :
        (s : Stored c dir) (layers : List Descriptor)
        → dir.new_empty_manifest s.1 ≡ ok layers
        → layers ≡ []
    pub tagged :
        (layers : List Descriptor) (tag : String) (before after : Stored c dir)
        → dir.insert_manifest layers tag before ≡ ok after
        → (oci after).find_manifest_with_tag tag ≡ ok (some (map (as_layer hex) layers))
    pub kept :
        (layers : List Descriptor) (tag : String) (before after : Stored c dir) (d : Hash)
        (b : Bytes)
        → dir.insert_manifest layers tag before ≡ ok after
        → blob d before.0 ≡ some b
        → blob d after.0 ≡ some b
    pub read_back :
        (layers : List Descriptor) (tag : String) (before s : Stored c dir) (d : Hash) (b : Bytes)
        (m : RootfsMsg c)
        → dir.insert_manifest layers tag before ≡ ok s
        → blob d s.0 ≡ some b
        → rootfs_fill_capnp c r ≡ ok m
        → dir.write_message m ≡ ok b
        → (f : (read s).File) × ((read s).open_blob d ≡ ok f) × ((oci s).read_message f ≡ ok m)

  -- No other blob has the hash of the metadata.
  abbrev pub NoCollision : BlobHost → Rootfs → Type 0
  NoCollision blobs r =
      (buf other : Bytes)
      → serialize_metadata c dir r ≡ ok buf
      → blobs.sha256 other ≡ blobs.sha256 buf
      → other ≡ buf

  -- The tag opens an image with this metadata.
  abbrev pub Opens : String → Stored c dir → Rootfs → Type 0
  Opens tag s r =
      (opened : Opened c) × (open_image (read s) c (oci s) tag none ≡ ok opened)
      × (rootfs_from_capnp c opened.rootfs ≡ ok r)

  -- The first layer of the manifest is that of the metadata.
  rootfs_layer_first :
      (s : Stored c dir) (tag : String) (ls : List Descriptor) (d : Descriptor)
      (rest : List Descriptor)
      → (oci s).find_manifest_with_tag tag ≡ ok (some (map (as_layer hex) ls))
      → ls ≡ d ∷ rest
      → d.media_type ≡ puzzlefs_rootfs
      → rootfs_layer (read s) c (oci s) tag ≡ ok (as_layer hex d)
  unfolding rootfs_layer find
  rootfs_layer_first s tag ls d rest found first media_type =
      let there : str_eq d.media_type puzzlefs_rootfs ≡ true =
        ap (λ t. str_eq t puzzlefs_rootfs) media_type in
      rw (found, first, there)

  -- Opening without fs-verity, from the layer of the metadata on.
  opens_message :
      (s : Stored c dir) (tag : String) (m : RootfsMsg c) (layer : Layer) (f : (read s).File)
      → rootfs_layer (read s) c (oci s) tag ≡ ok layer
      → (read s).open_blob layer.digest ≡ ok f
      → (oci s).read_message f ≡ ok m
      → m.manifest_version ≡ image_manifest_version
      → open_image (read s) c (oci s) tag none
        ≡ ok (record { rootfs = m; verity_data = none; manifest_verity = none })
  unfolding open_image open_rootfs_blob rootfs_verity get_pfs_rootfs verity_data_of open_raw_blob
  opens_message s tag m layer f first opens reads version =
      let current : (m.manifest_version == image_manifest_version) ≡ true =
        (==_iff _ _).1 version in
      let got : open_rootfs_blob (read s) c (oci s) tag none ≡ ok m = rw (first, opens, reads) in
      rw (got, ◌>>=◌, current)

  pub finish-Opens :
      (blobs : BlobHost) (r : Rootfs) (tag : String) (image : Image) (index : dir.Index)
      (d : Descriptor) (after : Stored c dir)
      → Crates r
      → RootfsFits r
      → NoCollision blobs r
      → r.manifest_version ≡ image_manifest_version
      → finish c dir blobs r tag image index ≡ ok (d, after)
      → Opens tag after r
  unfolding finish serialize_metadata
  finish-Opens blobs r tag image index d after crates fits unique version done =
      let (buf, serialized, done1) = >>=-eq-ok (serialize_metadata c dir r) _ done in
      let (p, put, done2) = >>=-eq-ok (put_blob blobs noop buf rootfs image) _ done1 in
      let (stored, inserted, done3) =
        >>=-eq-ok (dir.insert_manifest p.image.layers tag (p.image.blobs, index)) _ done2 in
      let same : stored ≡ after =
        ap (λ (x : Descriptor × Stored c dir). x.1) (ok-injective done3) in
      let (m, filled, written) = >>=-eq-ok (rootfs_fill_capnp c r) _ serialized in
      let (layers, media_type) = put_blob_rootfs blobs buf image p put in
      let ((content, there, hashes), _, _) = put_blob-Keeps blobs noop buf rootfs image p [] put in
      let (digest, _) = put_blob-noop blobs buf rootfs image p put in
      let buf_there : blob p.descriptor.digest p.image.blobs ≡ some buf =
        there ∙ ap some (unique buf content serialized (hashes ∙ digest)) in
      let kept =
        crates.kept p.image.layers tag (p.image.blobs, index) stored p.descriptor.digest buf
          inserted buf_there in
      let (f, opens, reads) =
        crates.read_back p.image.layers tag (p.image.blobs, index) stored p.descriptor.digest buf m
          inserted kept filled written in
      let tagged = crates.tagged p.image.layers tag (p.image.blobs, index) stored inserted in
      let back : rootfs_from_capnp c m ≡ ok r =
        ap (λ x. x >>= rootfs_from_capnp c) (sym filled) ∙ rootfs_round_trip c r fits in
      let first : rootfs_layer (read stored) c (oci stored) tag ≡ ok (as_layer hex p.descriptor) =
        rootfs_layer_first stored tag p.image.layers p.descriptor image.layers tagged layers
          media_type in
      let opened =
        opens_message stored tag m (as_layer hex p.descriptor) f first opens reads
          (version_of c m r back ∙ version) in
      subst (λ s. Opens tag s r) same
        (record { rootfs = m; verity_data = none; manifest_verity = none }, opened, back)

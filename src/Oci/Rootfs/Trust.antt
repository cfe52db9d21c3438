-- ===== src/Oci/Rootfs/Trust.antt =====
-- puzzlefs-lib/src/oci.rs: the chain of fs-verity digests from the manifest to the metadata.
use Prim.Native.String.{String}
use puzzlefs.Prelude.{
  ◌≡◌, refl, ap, sym, ◌∙◌, Bool, true, false, Bytes, bytes_eq, bytes_eq_iff, some, length, ◌==◌,
  ==_iff, if◌then◌else◌,
}
use puzzlefs.Errors.{Result, ok, err, panic, >>=-eq-ok, ok-injective, WireFormatError}
use puzzlefs.Format.{Hash, VerityData, sha256_block_size}
use puzzlefs.Format.Wire.{Capnp, RootfsMsg}
use puzzlefs.Format.RootfsCapnp.{get_verity_data}
use puzzlefs.Compression.{Host}
use puzzlefs.Oci.Blob.{check_fs_verity, open_raw_blob, as_io_error}
use puzzlefs.Oci.Rootfs.{
  Layer, Oci, Opened, rootfs_layer, get_pfs_rootfs_verity, get_pfs_rootfs, get_image_manifest_fd,
  rootfs_verity, open_rootfs_blob, verity_data_of, open_image, image_manifest_version,
}

if_left {ℓ} :
    {A : Type ℓ} (b : Bool) (x : Result A) {y : A} (e : WireFormatError)
    → (if b then x else err e) ≡ ok y
    → (b ≡ true) × (x ≡ ok y)
if_left true x e h = (refl, h)
if_left false x e h = absurd (cc h)

elim_left {ℓ} :
    {A : Type ℓ} (b : Bool) (x : Result A) {y : A} (e : WireFormatError)
    → (elim b as (λ z. Result A) [ true ↦ x | false ↦ err e ]) ≡ ok y
    → (b ≡ true) × (x ≡ ok y)
elim_left true x e h = (refl, h)
elim_left false x e h = absurd (cc h)

module _ (h : Host) (c : Capnp) (oci : Oci h c) where
  check_fs_verity-measures :
      (f : h.File) (v : Bytes)
      → check_fs_verity h f v ≡ ok tt
      → (length v ≡ sha256_block_size) × (h.measure f ≡ ok v)
  unfolding check_fs_verity
  check_fs_verity-measures f v e =
      let (len, e1) = if_left (length v == sha256_block_size) _ _ e in
      let (m, measured, e2) = >>=-eq-ok (h.measure f) _ e1 in
      let (same, _) = if_left (bytes_eq v m) _ _ e2 in
      ((==_iff _ _).0 len, measured ∙ ap ok (sym ((bytes_eq_iff v m).0 same)))

  as_io_error-ok : (x : Result (Unit {0})) → as_io_error x ≡ ok tt → x ≡ ok tt
  as_io_error-ok (ok a) e = e
  as_io_error-ok (err w) e = absurd (cc e)
  as_io_error-ok panic e = absurd (cc e)

  -- The file of a digest whose measurement is `v`.
  abbrev pub Verified : Hash → Bytes → h.File → Type 0
  Verified digest v f =
      (h.open_blob digest ≡ ok f) × (length v ≡ sha256_block_size) × (h.measure f ≡ ok v)

  open_raw_blob-Verified :
      (digest : Hash) (v : Bytes) (f : h.File)
      → open_raw_blob h digest (some v) ≡ ok f
      → Verified digest v f
  unfolding open_raw_blob
  open_raw_blob-Verified digest v f e =
      let (g, found, e1) = >>=-eq-ok (h.open_blob digest) _ e in
      let (_, checked, e2) = >>=-eq-ok (as_io_error (check_fs_verity h g v)) _ e1 in
      let same : g ≡ f = ok-injective e2 in
      let (len, measured) = check_fs_verity-measures g v (as_io_error-ok _ checked) in
      (found ∙ ap ok same, len, sym (ap h.measure same) ∙ measured)

  -- The manifest's file measures as asked; the metadata's file measures as the manifest's layer for
  -- it says; and the metadata in it is of the version that the code knows and gives the digests of
  -- the other blobs.
  pub record Trusted (tag : String) (verity : Bytes) (o : Opened c) : Type 0 where
    pub manifest : h.File
    pub manifest_opened : get_image_manifest_fd h c oci tag ≡ ok manifest
    pub manifest_measured : h.measure manifest ≡ ok verity
    pub layer : Layer
    pub layer_found : rootfs_layer h c oci tag ≡ ok layer
    pub annotated : Bytes
    pub annotation_read : get_pfs_rootfs_verity h c oci tag ≡ ok annotated
    pub metadata : h.File
    pub metadata_verified : Verified layer.digest annotated metadata
    pub metadata_read : oci.read_message metadata ≡ ok o.rootfs
    pub version : o.rootfs.manifest_version ≡ image_manifest_version
    pub digests : VerityData
    pub digests_read : get_verity_data c o.rootfs ≡ ok digests
    pub digests_kept : o.verity_data ≡ some digests

  -- Where an image is opened with the fs-verity digest of its manifest, the chain of digests from
  -- the manifest to the digests of the data blobs holds.
  pub open_image-Trusted :
      (tag : String) (verity : Bytes) (o : Opened c)
      → open_image h c oci tag (some verity) ≡ ok o
      → Trusted tag verity o
  unfolding open_image open_rootfs_blob rootfs_verity get_pfs_rootfs verity_data_of
  open_image-Trusted tag verity o e =
      let (msg, opened, e1) = >>=-eq-ok (open_rootfs_blob h c oci tag (some verity)) _ e in
      let (v, verified, e2) = >>=-eq-ok (rootfs_verity h c oci tag (some verity)) _ opened in
      let (manifest, found, e3) = >>=-eq-ok (get_image_manifest_fd h c oci tag) _ verified in
      let (_, checked, e4) = >>=-eq-ok (check_fs_verity h manifest verity) _ e3 in
      let (annotated, annotation, e5) = >>=-eq-ok (get_pfs_rootfs_verity h c oci tag) _ e4 in
      let (file, got, read) = >>=-eq-ok (get_pfs_rootfs h c oci tag v) _ e2 in
      let (layer, layer_found, raw) = >>=-eq-ok (rootfs_layer h c oci tag) _ got in
      let (same_version, e6) = elim_left (msg.manifest_version == image_manifest_version) _ _ e1 in
      let (data', data_read, e7) = >>=-eq-ok (verity_data_of h c oci msg (some verity)) _ e6 in
      let (digests, digests_read, e8) = >>=-eq-ok (get_verity_data c msg) _ data_read in
      let msg_kept : msg ≡ o.rootfs = ap (λ (x : Opened c). x.rootfs) (ok-injective e7) in
      record {
        manifest = manifest;
        manifest_opened = found;
        manifest_measured = (check_fs_verity-measures manifest verity checked).1;
        layer = layer;
        layer_found = layer_found;
        annotated = annotated;
        annotation_read = annotation;
        metadata = file;
        metadata_verified =
            open_raw_blob-Verified layer.digest annotated file
              (ap (open_raw_blob h layer.digest) (ok-injective e5) ∙ raw);
        metadata_read = read ∙ ap ok msg_kept;
        version =
            sym (ap (λ (x : RootfsMsg c). x.manifest_version) msg_kept)
            ∙ (==_iff _ _).0 same_version;
        digests = digests;
        digests_read = sym (ap (get_verity_data c) msg_kept) ∙ digests_read;
        digests_kept =
            sym (ap (λ (x : Opened c). x.verity_data) (ok-injective e7)) ∙ sym (ok-injective e8);
      }

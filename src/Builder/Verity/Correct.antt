-- ===== src/Builder/Verity/Correct.antt =====
-- puzzlefs-lib/src/builder.rs, `enable_fs_verity`: afterwards every file of the image measures as it
-- should, and the image can be opened with verification.
use Prim.Native.String.{String}
use puzzlefs.Prelude.{
  ◌≡◌, sym, ◌∙◌, subst, true, Bytes, Bool-cases, inl, inr, Option, none, some, ◌==◌,
}
use puzzlefs.Errors.{invalid_image_version, Result, ok, err, ◌>>=◌, >>=-eq-ok, ok-injective}
use puzzlefs.Format.{Hash, VerityData}
use puzzlefs.Format.Wire.{Capnp, RootfsMsg}
use puzzlefs.Format.RootfsCapnp.{get_verity_data}
use puzzlefs.Compression.{Host}
use puzzlefs.Oci.Blob.{open_raw_blob}
use puzzlefs.Oci.Rootfs.{
  Oci, Layer, Opened, open_image, open_rootfs_blob, rootfs_layer, rootfs_verity,
  get_image_manifest_fd, get_pfs_rootfs, get_pfs_rootfs_verity, verity_data_of,
  image_manifest_version,
}
use puzzlefs.Builder.Verity.{
  Kernel, at, enable_verity_for_file, enable_and_check_verity_for_file, enable_config,
  enable_metadata, enable_fs_verity,
}
use puzzlefs.Builder.Verity.Measures.{
  Later, Lasting, Measures, when_ok-inv, when_read-inv, Measures-check, enable-Later,
  enable_and_check-Measures, Verified, enable_blobs-Verified,
}

module _ (h : Host) (k : Kernel h) where
  module _ (c : Capnp) (oci : Oci h c) (config : String → Result (Option Hash))
      (hex_decode : String → Result Bytes) where
    -- The OCI directory, with the host in a state of the kernel.
    abbrev pub oci_at : (s : k.State) → Oci (at h k s) c
    oci_at s = record {
      find_manifest_with_tag = oci.find_manifest_with_tag;
      find_manifest_descriptor_with_tag = oci.find_manifest_descriptor_with_tag;
      decode_to_slice = oci.decode_to_slice;
      read_message = oci.read_message;
    }

    current_version :
        (tag : String) (m : RootfsMsg c) (pfs : Opened c)
        → open_image h c oci tag none ≡ ok pfs
        → open_rootfs_blob h c oci tag none ≡ ok m
        → (m.manifest_version == image_manifest_version) ≡ true
    unfolding open_image
    current_version tag m pfs opens got =
        let (m', got', opens1) = >>=-eq-ok (open_rootfs_blob h c oci tag none) _ opens in
        let same : m' ≡ m = ok-injective (sym got' ∙ got) in
        elim (Bool-cases (m'.manifest_version == image_manifest_version)) [
          | inl current ↦
              subst (λ (x : RootfsMsg c). (x.manifest_version == image_manifest_version) ≡ true)
                same current
          | inr other ↦
              let never : ◌≡◌ {A = Result (Opened c)} (err invalid_image_version) (ok pfs) =
                rw other at opens1 in
              cc
        ]

    -- The message and the file of the metadata, opened without verification.
    plain_message :
        (tag : String) (m : RootfsMsg c) (fd : h.File)
        → open_rootfs_blob h c oci tag none ≡ ok m
        → get_pfs_rootfs h c oci tag none ≡ ok fd
        → (layer : Layer) × (rootfs_layer h c oci tag ≡ ok layer)
          × (h.open_blob layer.digest ≡ ok fd)
          × (oci.read_message fd ≡ ok m)
    unfolding open_rootfs_blob get_pfs_rootfs rootfs_verity open_raw_blob
    plain_message tag m fd got found =
        let (layer, named, opens) = >>=-eq-ok (rootfs_layer h c oci tag) _ found in
        let (fd', found', reads) = >>=-eq-ok (get_pfs_rootfs h c oci tag none) _ got in
        let same : fd' ≡ fd = ok-injective (sym found' ∙ found) in
        (layer, named, opens, subst (λ f. oci.read_message f ≡ ok m) same reads)

    opens_verified :
        (tag : String) (s : k.State) (m : RootfsMsg c) (fd manifest : h.File)
        (expected annotated : Bytes) (layer : Layer) (files : VerityData)
        → get_image_manifest_fd h c oci tag ≡ ok manifest
        → Measures h k s manifest expected
        → get_pfs_rootfs_verity h c oci tag ≡ ok annotated
        → rootfs_layer h c oci tag ≡ ok layer
        → h.open_blob layer.digest ≡ ok fd
        → Measures h k s fd annotated
        → oci.read_message fd ≡ ok m
        → (m.manifest_version == image_manifest_version) ≡ true
        → get_verity_data c m ≡ ok files
        → open_image (at h k s) c (oci_at s) tag (some expected)
          ≡ ok (record { rootfs = m; verity_data = some files; manifest_verity = some expected })
    unfolding open_image open_rootfs_blob rootfs_verity get_pfs_rootfs verity_data_of open_raw_blob
        get_image_manifest_fd get_pfs_rootfs_verity rootfs_layer
    opens_verified tag s m fd manifest expected annotated layer files found measures names named
          opens measures' reads version files_are =
        let checks = Measures-check h k s manifest expected measures in
        let checks' = Measures-check h k s fd annotated measures' in
        let host = at h k s in
        let found' : get_image_manifest_fd host c (oci_at s) tag ≡ ok manifest = found in
        let names' : get_pfs_rootfs_verity host c (oci_at s) tag ≡ ok annotated = names in
        let named' : rootfs_layer host c (oci_at s) tag ≡ ok layer = named in
        let files_are' : get_verity_data c m ≡ ok files = files_are in
        let checked : rootfs_verity host c (oci_at s) tag (some expected) ≡ ok (some annotated) =
          rw (rootfs_verity, found', checks, names') in
        let opened : get_pfs_rootfs host c (oci_at s) tag (some annotated) ≡ ok fd =
          rw (get_pfs_rootfs, named', open_raw_blob, opens, checks') in
        let got : open_rootfs_blob host c (oci_at s) tag (some expected) ≡ ok m =
          rw (open_rootfs_blob, checked, opened, reads) in
        rw (open_image, got, ◌>>=◌, version, verity_data_of, files_are')

    enable_config-Later :
        (tag : String) (s s' : k.State)
        → Lasting h k
        → enable_config h k c oci config hex_decode tag s ≡ (s', ok tt)
        → Later h k s s'
    unfolding enable_config
    enable_config-Later tag s s' lasting e =
        let (f, _, e1) = when_read-inv h k s _ (enable_verity_for_file h k) s' e in
        enable-Later h k f s s' lasting e1

    -- Where `enable_fs_verity` returns without an error, the image can then be opened with the given
    -- root hash as the digest of its manifest: the manifest and the metadata measure as they should.
    -- Every file that the verity data of the metadata names can be opened, and measures as it says.
    -- Once fs-verity is enabled on a file, it stays so and the file does not change.
    pub enable_fs_verity-Opens :
        (tag root_hash : String) (s s' : k.State)
        → Lasting h k
        → enable_fs_verity h k c oci config hex_decode tag root_hash s ≡ (s', ok tt)
        → (expected : Bytes) × (hex_decode root_hash ≡ ok expected)
          × (m : RootfsMsg c) × (files : VerityData) × (open_image
                (at h k s')
                c
                (oci_at s')
                tag
                (some expected)
              ≡ ok (record {
                rootfs = m;
                verity_data = some files;
                manifest_verity = some expected;
              }))
          × Verified h k s' files
    unfolding enable_fs_verity enable_metadata
    enable_fs_verity-Opens tag root_hash s s' lasting e =
        let (manifest, found, e1) =
          when_read-inv h k s (get_image_manifest_fd h c oci tag) _ s' e in
        let (expected, decoded, e2) = when_read-inv h k s (hex_decode root_hash) _ s' e1 in
        let (s1, first, e3) =
          when_ok-inv h k (enable_and_check_verity_for_file h k manifest expected s)
            (enable_metadata h k c oci config hex_decode tag) s' e2 in
        let (pfs, opened, e4) = when_read-inv h k s1 (open_image h c oci tag none) _ s' e3 in
        let (m, got, e5) = when_read-inv h k s1 (open_rootfs_blob h c oci tag none) _ s' e4 in
        let (fd, found_fd, e6) = when_read-inv h k s1 (get_pfs_rootfs h c oci tag none) _ s' e5 in
        let (annotated, names, e7) =
          when_read-inv h k s1 (get_pfs_rootfs_verity h c oci tag) _ s' e6 in
        let (s2, second, e8) =
          when_ok-inv h k (enable_and_check_verity_for_file h k fd annotated s1) _ s' e7 in
        let (s3, third, e9) =
          when_ok-inv h k (enable_config h k c oci config hex_decode tag s2) _ s' e8 in
        let (files, files_are, e10) = when_read-inv h k s3 (get_verity_data c m) _ s' e9 in
        let (_, measures1) = enable_and_check-Measures h k manifest expected s s1 lasting first in
        let (later2, measures2) = enable_and_check-Measures h k fd annotated s1 s2 lasting second in
        let later3 = enable_config-Later tag s2 s3 lasting third in
        let (later4, verified) = enable_blobs-Verified h k files s3 s' lasting e10 in
        let (layer, named, opens, reads) = plain_message tag m fd got found_fd in
        let kept1 =
          later4 manifest expected
            (later3 manifest expected (later2 manifest expected measures1.1)) in
        let kept2 = later4 fd annotated (later3 fd annotated measures2.1) in
        (
          expected,
          decoded,
          m,
          files,
          opens_verified tag s' m fd manifest expected annotated layer files found
              (measures1.0, kept1) names named opens (measures2.0, kept2) reads
              (current_version tag m pfs opened got) files_are,
          verified,
        )

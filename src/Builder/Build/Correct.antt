-- ===== src/Builder/Build/Correct.antt =====
-- puzzlefs-lib/src/builder.rs and reader/puzzlefs.rs: an image that was built is the one that is
-- opened under its tag.
use Prim.Native.String.{String}
use puzzlefs.Prelude.{
  ◌+◌, ◌<◌, ◌≡◌, refl, sym, ap, ◌∙◌, subst, subst₂, Bool-cases, none, some, List, [], ◌∷◌, u64_mod,
  inl, inr, ◌==◌, ==_iff, Option-cases,
}
use puzzlefs.Errors.{Result, ok, err, >>=-eq-ok, ok-injective, invalid_image_version}
use puzzlefs.Format.{Hash, Ino, Inode, Rootfs}
use puzzlefs.Format.Wire.{Capnp, RootfsMsg}
use puzzlefs.Format.RootfsCapnp.{rootfs_from_capnp}
use puzzlefs.Format.RoundTrip.{RootfsFits}
use puzzlefs.Format.Stack
use puzzlefs.Format.Stack.Layers.{stack_find, layer_find, answer}
use puzzlefs.Format.Stack.Correct.{find_inode-answer}
use puzzlefs.Compression.{Host}
use puzzlefs.Oci.Put.{BlobHost, Compression, Descriptor}
use puzzlefs.Oci.Rootfs.{
  Oci, open_rootfs_blob, verity_data_of, open_image, Opened, image_manifest_version,
}
use puzzlefs.Reader.Lookup.{image_fs}
use puzzlefs.Builder.Tree.{HostTree}
use puzzlefs.Builder.Delta.{Built, build_delta}
use puzzlefs.Builder.Delta.Scan.{entries_in}
use puzzlefs.Builder.Delta.Layer.{build_delta-IsLayer}
use puzzlefs.Builder.Delta.Render.{Reorders}
use puzzlefs.Builder.Build.{
  add_layer_to, add_rootfs_delta, OciDir, Stored, get_empty_manifest, finish, build_initial_rootfs,
}
use puzzlefs.Builder.Build.Layered.{Layered, add_layer_to-Layered}
use puzzlefs.Builder.Build.Stores.{version_of, initial_rootfs, Crates, NoCollision, finish-Opens}

module _ (c : Capnp) (dir : OciDir c) (hex : Hash → String) (read : Stored c dir → Host)
    (oci : (s : Stored c dir) → Oci (read s) c) where
  one_layer :
      (ino : Ino) (l : List Inode) → answer (stack_find ino (l ∷ [])) ≡ answer (layer_find ino l)
  unfolding stack_find
  one_layer ino l = elim (Option-cases (layer_find ino l)) [
    | inl missing ↦ rw (stack_find, missing)
    | inr (i, there) ↦ rw (stack_find, there)
  ]

  -- Where `build_initial_rootfs` returns, the tag opens the image that `build_delta` gave: its
  -- metadata has the one layer of inodes and the verity data, and every inode number is found as it
  -- is in that layer, and is ENOENT if it is not there. The metadata fits the format, the tree is
  -- not too large to be counted, no other blob has the hash of the metadata, a `HashMap` gives its
  -- values in some order, and the ocidir and capnp crates give back what they stored.
  pub build_initial_rootfs-Opens :
      (h : HostTree) (blobs : BlobHost) (compression : Compression) (tag : String)
      (before after : Stored c dir) (d : Descriptor) (b : Built)
      → Crates c dir hex read oci (initial_rootfs b)
      → Reorders h
      → entries_in h h.walk + 2 < u64_mod
      → build_delta h blobs compression none [] (record { blobs = before.0; layers = [] }) ≡ ok b
      → RootfsFits (initial_rootfs b)
      → NoCollision c dir hex read oci blobs (initial_rootfs b)
      → build_initial_rootfs c dir h blobs compression tag before ≡ ok (d, after)
      → (opened : Opened c) × (open_image (read after) c (oci after) tag none ≡ ok opened)
        × (rootfs_from_capnp c opened.rootfs ≡ ok (initial_rootfs b))
        × ((ino : Ino) → Stack.find_inode c opened.rootfs ino ≡ answer (layer_find ino b.inodes))
  unfolding build_initial_rootfs get_empty_manifest
  build_initial_rootfs-Opens h blobs compression tag before after d b crates reorders small built
        fits unique done =
      let (layers, empty, done1) = >>=-eq-ok (dir.new_empty_manifest before.1) _ done in
      let (b', built', done2) =
        >>=-eq-ok
          (build_delta h blobs compression none [] (record { blobs = before.0; layers = layers })) _
          done1 in
      let built_empty : build_delta h blobs compression none []
            (record { blobs = before.0; layers = [] })
          ≡ ok b' =
        subst
          (λ l.
            build_delta h blobs compression none [] (record { blobs = before.0; layers = l })
            ≡ ok b')
          (crates.empty before layers empty) built' in
      let same : b' ≡ b = ok-injective (sym built_empty ∙ built) in
      let finished : finish c dir blobs (initial_rootfs b) tag b.image before.1 ≡ ok (d, after) =
        subst (λ x. finish c dir blobs (initial_rootfs x) tag x.image before.1 ≡ ok (d, after)) same
          done2 in
      let (opened, opens, back) =
        finish-Opens c dir hex read oci blobs (initial_rootfs b) tag b.image before.1 d after crates
          fits unique refl finished in
      let layer =
        build_delta-IsLayer h blobs compression [] _ b reorders small fits.each_layer.0.0 built in
      (
        opened,
        opens,
        back,
        λ ino.
            find_inode-answer c opened.rootfs (initial_rootfs b) ino back (layer, tt)
            ∙ one_layer ino b.inodes,
      )

  open_image_plain :
      (s : Stored c dir) (tag : String) (base : Opened c)
      → open_image (read s) c (oci s) tag none ≡ ok base
      → (open_rootfs_blob (read s) c (oci s) tag none ≡ ok base.rootfs)
        × (base.rootfs.manifest_version ≡ image_manifest_version)
  unfolding open_image verity_data_of
  open_image_plain s tag base opens =
      let (m, got, opens1) = >>=-eq-ok (open_rootfs_blob (read s) c (oci s) tag none) _ opens in
      elim (Bool-cases (m.manifest_version == image_manifest_version)) [
        | inl current ↦
            let made : ◌≡◌ {A = Result (Opened c)}
                (ok (record { rootfs = m; verity_data = none; manifest_verity = none })) (ok base) =
              rw current at opens1 in
            let same : m ≡ base.rootfs = ap (λ (o : Opened c). o.rootfs) (ok-injective made) in
            (
              got ∙ ap ok same,
              ap (λ (x : RootfsMsg c). x.manifest_version) (sym same) ∙ (==_iff _ _).0 current,
            )
        | inr other ↦
            let never : ◌≡◌ {A = Result (Opened c)} (err invalid_image_version) (ok base) =
              rw other at opens1 in
            cc
      ]

  -- Where `add_rootfs_delta` returns, the tag opens an image whose metadata is made of that of the base
  -- image and of the inodes and the verity data of the tree. Its layers are those of the base image, if
  -- one of them is equal to the inodes, and otherwise the inodes and below them the layers of the base
  -- image. The verity digest of each blob is the one that the tree gives it last, or else the one that
  -- it had. The version is that of the base image. The metadata fits the format, no other blob has its
  -- hash, and the ocidir and capnp crates give back what they stored.
  pub add_rootfs_delta-Opens :
      (h : HostTree) (blobs : BlobHost) (compression : Compression) (tag base_layer : String)
      (before after : Stored c dir) (d : Descriptor) (base : Opened c) (old : Rootfs) (b : Built)
      → Crates c dir hex read oci (add_layer_to b old)
      → open_image (read before) c (oci before) base_layer none ≡ ok base
      → rootfs_from_capnp c base.rootfs ≡ ok old
      → build_delta h blobs compression
          (some (image_fs (read before) c base.rootfs base.verity_data))
          []
          (record { blobs = before.0; layers = [] })
        ≡ ok b
      → RootfsFits (add_layer_to b old)
      → NoCollision c dir hex read oci blobs (add_layer_to b old)
      → add_rootfs_delta c dir h blobs compression (read before) (oci before) tag base_layer before
        ≡ ok (d, after)
      → (opened : Opened c) × (open_image (read after) c (oci after) tag none ≡ ok opened)
        × (new : Rootfs) × (rootfs_from_capnp c opened.rootfs ≡ ok new)
        × Layered b old new
  unfolding add_rootfs_delta get_empty_manifest
  add_rootfs_delta-Opens h blobs compression tag base_layer before after d base old b crates opens
        reads built fits unique done =
      let (layers, empty, done1) = >>=-eq-ok (dir.new_empty_manifest before.1) _ done in
      let (base', opens', done2) =
        >>=-eq-ok (open_image (read before) c (oci before) base_layer none) _ done1 in
      let (m, blob_opens, done3) =
        >>=-eq-ok (open_rootfs_blob (read before) c (oci before) base_layer none) _ done2 in
      let (old', reads', done4) = >>=-eq-ok (rootfs_from_capnp c m) _ done3 in
      let (b', built', done5) =
        >>=-eq-ok
          (build_delta h blobs compression
            (some (image_fs (read before) c base'.rootfs base'.verity_data)) []
            (record { blobs = before.0; layers = layers }))
          _ done4 in
      let same_base : base' ≡ base = ok-injective (sym opens' ∙ opens) in
      let (base_opens, version) = open_image_plain before base_layer base opens in
      let same_message : m ≡ base.rootfs = ok-injective (sym blob_opens ∙ base_opens) in
      let same_old : old' ≡ old =
        ok-injective (sym reads' ∙ ap (rootfs_from_capnp c) same_message ∙ reads) in
      let build : Opened c → List Descriptor → Result Built = λ o ls.
        build_delta h blobs compression (some (image_fs (read before) c o.rootfs o.verity_data)) []
          (record { blobs = before.0; layers = ls }) in
      let same_b : b' ≡ b = ok-injective (
        sym built'
        ∙ ap (λ o. build o layers) same_base
        ∙ ap (build base) (crates.empty before layers empty)
        ∙ built) in
      let finished : finish c dir blobs (add_layer_to b old) tag b.image before.1 ≡ ok (d, after) =
        subst₂ (λ x r. finish c dir blobs (add_layer_to x r) tag x.image before.1 ≡ ok (d, after))
          same_b same_old done5 in
      let (opened, opens_new, back) =
        finish-Opens c dir hex read oci blobs (add_layer_to b old) tag b.image before.1 d after
          crates fits unique (sym (version_of c base.rootfs old reads) ∙ version) finished in
      (opened, opens_new, add_layer_to b old, back, add_layer_to-Layered b old)

-- ===== src/Examples/Verity.antt =====
-- Enabling fs-verity on an image.
use puzzlefs.Prelude.{◌≡◌, refl, Bool, true, false, Bytes, Option, none, some, List, [], ◌∷◌}
use puzzlefs.Errors.{Result, ok, err, io_error}
use puzzlefs.Format.{Hash, VerityData}
use puzzlefs.Format.Wire.{RootfsMsg}
use puzzlefs.Oci.Put.{puzzlefs_rootfs}
use puzzlefs.Oci.Rootfs.{Oci, open_image}
use puzzlefs.Builder.Verity.{Kernel, Enabling, at, enable_fs_verity}
use puzzlefs.Builder.Verity.Measures.{Lasting, Verified}
use puzzlefs.Builder.Verity.Correct.{oci_at, enable_fs_verity-Opens}
use puzzlefs.Examples.{options, one_blob, digest_32}

-- fs-verity is on every file or on none.
abbrev switch : Kernel one_blob
switch = record {
  State = Bool;
  enable =
      λ f on. elim on [ true ↦ (true, Enabling.already_exists) | false ↦ (true, Enabling.enabled) ];
  measure = λ on f. elim on [ true ↦ ok digest_32 | false ↦ err (io_error none) ];
}

switch-Lasting : Lasting one_blob switch
switch-Lasting true f g v measured = measured
switch-Lasting false f g v measured = cc

abbrev verified_rootfs : RootfsMsg options
verified_rootfs = record {
  metadatas = none;
  fs_verity_data = some (record { digest = some digest_32; verity = some digest_32 } ∷ []);
  manifest_version = 3;
}

abbrev one_image : Oci one_blob options
one_image = record {
  find_manifest_with_tag = λ tag. ok (
      some (
        record { media_type = puzzlefs_rootfs; digest = digest_32; annotations = some (some "00") }
        ∷ []));
  find_manifest_descriptor_with_tag = λ tag. ok (some digest_32);
  decode_to_slice = λ text. ok digest_32;
  read_message = λ f. ok verified_rootfs;
}

enabled :
    enable_fs_verity one_blob switch options one_image
      (λ tag. ok (some digest_32))
      (λ text. ok digest_32)
      "tag"
      "00"
      false
    ≡ (true, ok tt)
unfolding enable_fs_verity puzzlefs.Prelude.find puzzlefs.Format.RootfsCapnp.verity_loop
    puzzlefs.Format.Capnp.to_hash puzzlefs.Format.Verity.insert
enabled = refl

enable_fs_verity-Opens_example :
    (expected : Bytes) × (◌≡◌ {A = Result Bytes} (ok digest_32) (ok expected))
    × (m : RootfsMsg options) × (files : VerityData) × (open_image
          (at one_blob switch true)
          options
          (oci_at one_blob switch options one_image
            (λ tag. ok (some digest_32))
            (λ text. ok digest_32)
            true)
          "tag"
          (some expected)
        ≡ ok (record { rootfs = m; verity_data = some files; manifest_verity = some expected }))
    × Verified one_blob switch true files
enable_fs_verity-Opens_example =
    enable_fs_verity-Opens one_blob switch options one_image (λ tag. ok (some digest_32))
      (λ text. ok digest_32) "tag" "00" false true switch-Lasting enabled

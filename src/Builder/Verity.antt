-- ===== src/Builder/Verity.antt =====
-- puzzlefs-lib/src/builder.rs, `enable_fs_verity`: fs-verity is enabled on every file of an image, and
-- what the files measure as is checked.
pub mod Measures
pub mod Correct
use Prim.Native.String.{String}
use puzzlefs.Prelude.{Bytes, Option, none, some, List, [], ◌∷◌}
use puzzlefs.Errors.{WireFormatError, Result, ok, err, panic, ◌>>=◌, ok_or, missing_manifest}
use puzzlefs.Format.{Hash, VerityData}
use puzzlefs.Format.Wire.{Capnp, RootfsMsg}
use puzzlefs.Format.RootfsCapnp.{get_verity_data}
use puzzlefs.Compression.{Host}
use puzzlefs.Oci.Blob.{check_fs_verity}
use puzzlefs.Oci.Rootfs.{
  Oci, open_image, open_rootfs_blob, get_image_manifest_fd, get_pfs_rootfs, get_pfs_rootfs_verity,
}

-- The answer of `fsverity_enable`.
pub data Enabling : Type 0 where
  enabled already_exists : Enabling
  failed : WireFormatError → Enabling

-- The kernel: enabling fs-verity on a file changes what files measure as.
pub record Kernel (h : Host) : Type 1 where
  pub State : Type 0
  pub enable : h.File → State → State × Enabling
  pub measure : State → h.File → Result Bytes

module _ (h : Host) (k : Kernel h) where
  -- The host in a state of the kernel.
  abbrev pub at : k.State → Host
  at s = record h { measure = k.measure s }

  -- A run changes the state also where it fails.
  abbrev pub Run : Type 0
  Run = k.State → k.State × Result (Unit {0})

  abbrev pub result_of : Enabling → Result (Unit {0})
  result_of Enabling.enabled = ok tt
  result_of Enabling.already_exists = ok tt
  result_of (Enabling.failed e) = err e

  abbrev pub when_ok : k.State × Result (Unit {0}) → Run → k.State × Result (Unit {0})
  when_ok (s, ok _) next = next s
  when_ok (s, err e) next = (s, err e)
  when_ok (s, panic) next = (s, panic)

  -- The state as it is when what is read from it is known.
  abbrev pub when_read {ℓ} :
      {A : Type ℓ} → k.State → Result A → (A → Run) → k.State × Result (Unit {0})
  when_read s (ok a) next = next a s
  when_read s (err e) next = (s, err e)
  when_read s panic next = (s, panic)

  unfoldable pub enable_verity_for_file : h.File → Run
  enable_verity_for_file file s = let (s', answer) = k.enable file s in (s', result_of answer)

  unfoldable pub enable_and_check_verity_for_file : h.File → Bytes → Run
  unfolding enable_verity_for_file check_fs_verity
  enable_and_check_verity_for_file file expected s =
      when_ok (enable_verity_for_file file s) λ s'. (s', check_fs_verity (at s') file expected)

  -- The loop over the content-addressed files.
  unfoldable pub enable_blobs : VerityData → Run
  unfolding enable_and_check_verity_for_file
  enable_blobs [] s = (s, ok tt)
  enable_blobs ((content_addressed_file, verity_hash) ∷ files) s =
      when_read s (h.open_blob content_addressed_file)
        λ fd s'. when_ok (enable_and_check_verity_for_file fd verity_hash s') (enable_blobs files)

  -- `config` is the digest of the configuration that the manifest with a tag names, if there is such
  -- a manifest.
  module _ (c : Capnp) (oci : Oci h c) (config : String → Result (Option Hash))
      (hex_decode : String → Result Bytes) where
    unfoldable pub enable_config : String → Run
    unfolding enable_verity_for_file
    enable_config tag s =
        when_read s
          (do manifest ← config tag; digest ← ok_or manifest missing_manifest; h.open_blob digest)
          enable_verity_for_file

    unfoldable pub enable_metadata : String → Run
    unfolding open_image open_rootfs_blob get_pfs_rootfs get_pfs_rootfs_verity
        enable_and_check_verity_for_file enable_config get_verity_data enable_blobs
    enable_metadata tag s = when_read s (open_image h c oci tag none) λ pfs s1.
        when_read s1 (open_rootfs_blob h c oci tag none) λ rootfs s2.
          when_read s2 (get_pfs_rootfs h c oci tag none) λ rootfs_fd s3.
            when_read s3 (get_pfs_rootfs_verity h c oci tag) λ rootfs_verity s4.
              when_ok (enable_and_check_verity_for_file rootfs_fd rootfs_verity s4) λ s5.
                when_ok (enable_config tag s5)
                  λ s6. when_read s6 (get_verity_data c rootfs) enable_blobs

    unfoldable pub enable_fs_verity : String → String → Run
    unfolding get_image_manifest_fd enable_and_check_verity_for_file enable_metadata
    enable_fs_verity tag manifest_root_hash s =
        when_read s (get_image_manifest_fd h c oci tag) λ manifest_fd s1.
          when_read s1 (hex_decode manifest_root_hash) λ expected s2.
            when_ok (enable_and_check_verity_for_file manifest_fd expected s2) (enable_metadata tag)

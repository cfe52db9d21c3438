-- ===== src/Examples/Oci.antt =====
-- Runs of puzzlefs-lib/src/oci.rs.
use puzzlefs.Prelude.{
  ℕ, ◌+◌, ◌≡◌, ◌≢◌, ◌<◌, ◌≤◌, ◌⊎◌, ◌↔◌, inl, inr, refl, Bool, true, false, Bytes, bytes_eq, Option,
  none, some, List, [], ◌∷◌, length, take, drop, arith, u64_mod,
}
use puzzlefs.Errors.{ok}
use puzzlefs.Format.{Hash, BlobRef, VerityData}
use puzzlefs.Format.Wire.{RootfsMsg}
use puzzlefs.Compression.{Host}
use puzzlefs.Oci.Blob.{fill_from_chunk}
use puzzlefs.Oci.Blob.Correct.{BlobReads, fill_from_chunk-content}
use puzzlefs.Oci.Put.{
  BlobHost, Image, Put, noop, zstd, chunk, blob, put_blob, puzzlefs_rootfs, compress,
}
use puzzlefs.Oci.Put.Correct.{Flagged, put_blob-Keeps, put_blob-Flagged}
use puzzlefs.Oci.Put.Verity.{put_blob-verity}
use puzzlefs.Oci.Rootfs.{Oci, Opened, open_image}
use puzzlefs.Oci.Rootfs.Trust.{Trusted, open_image-Trusted}
use puzzlefs.Examples.{options, digest_32, one_blob, content, chunk_2}

-- A compressor that keeps the first two bytes, and adds a byte to shorter data; digests that keep
-- the data as it is, and the fs-verity digests with a byte before them.
abbrev pub encode : Bytes → Bytes
encode [] = 0 ∷ []
encode (a ∷ []) = a ∷ 0 ∷ []
encode (a ∷ b ∷ bs) = a ∷ b ∷ []

abbrev pub blob_host : BlobHost
blob_host = record {
  sha256 = λ b. b;
  fs_verity_digest = λ b. ok (9 ∷ b);
  zstd_encode = λ b. ok (encode b);
  may_open = λ d. ok tt;
  may_write = λ d. ok tt;
}

abbrev pub empty_image : Image
empty_image = record { blobs = ((7 ∷ []), 7 ∷ []) ∷ []; layers = [] }

abbrev long_data : Bytes
long_data = 1 ∷ 2 ∷ 3 ∷ 4 ∷ []

abbrev put_long : Put
put_long = record {
  image = record {
    blobs = (1 ∷ 2 ∷ [], 1 ∷ 2 ∷ []) ∷ (7 ∷ [], 7 ∷ []) ∷ [];
    layers =
        record {
          media_type = "application/vnd.puzzlefs.image.filedata.v1+zstd";
          size = 2;
          digest = 1 ∷ 2 ∷ [];
          annotation = none;
        }
        ∷ [];
  };
  descriptor = record {
    media_type = "application/vnd.puzzlefs.image.filedata.v1+zstd";
    size = 2;
    digest = 1 ∷ 2 ∷ [];
    annotation = none;
  };
  fs_verity_digest = 9 ∷ 1 ∷ 2 ∷ [];
  compressed = true;
}

put_long-done : put_blob blob_host zstd long_data chunk empty_image ≡ ok put_long
unfolding put_blob
put_long-done = refl

put_blob-Keeps_example :
    ((stored : Bytes) × (blob put_long.descriptor.digest put_long.image.blobs ≡ some stored)
      × (blob_host.sha256 stored ≡ put_long.descriptor.digest))
    × ((final : Bytes) × (put_long.descriptor.digest ≡ blob_host.sha256 final)
        × (put_long.descriptor.size ≡ length final))
    × ((blob (7 ∷ []) empty_image.blobs ≡ none)
        ⊎ (blob (7 ∷ []) put_long.image.blobs ≡ blob (7 ∷ []) empty_image.blobs))
put_blob-Keeps_example =
    put_blob-Keeps blob_host zstd long_data chunk empty_image put_long (7 ∷ []) put_long-done

put_blob-Flagged_example :
    Flagged blob_host put_long.compressed long_data put_long.descriptor.digest
put_blob-Flagged_example =
    put_blob-Flagged blob_host zstd long_data chunk empty_image put_long put_long-done

-- One byte, which the compressor makes longer.
abbrev put_short : Put
put_short = record {
  image = record {
    blobs = (5 ∷ [], 5 ∷ []) ∷ (7 ∷ [], 7 ∷ []) ∷ [];
    layers =
        record {
          media_type = "application/vnd.puzzlefs.image.filedata.v1+zstd";
          size = 1;
          digest = 5 ∷ [];
          annotation = none;
        }
        ∷ [];
  };
  descriptor = record {
    media_type = "application/vnd.puzzlefs.image.filedata.v1+zstd";
    size = 1;
    digest = 5 ∷ [];
    annotation = none;
  };
  fs_verity_digest = 9 ∷ 5 ∷ 0 ∷ [];
  compressed = false;
}

put_short-done : put_blob blob_host zstd (5 ∷ []) chunk empty_image ≡ ok put_short
unfolding put_blob
put_short-done = refl

-- The blob is not the compressed form, and its fs-verity digest is not the one returned.
put_blob-verity_example :
    (stored : Bytes) × (blob put_short.descriptor.digest put_short.image.blobs ≡ some stored)
    × (((2 < 1) × (◌≡◌ {A = Bytes} stored (5 ∷ 0 ∷ [])))
        ⊎ ((1 ≤ 2) × (◌≡◌ {A = Bytes} stored (5 ∷ []))))
    × ((blob_host.fs_verity_digest stored ≡ ok put_short.fs_verity_digest) ↔ (
        (zstd ≡ noop)
        ⊎ ((2 < 1)
            ⊎ (blob_host.fs_verity_digest (5 ∷ 0 ∷ []) ≡ blob_host.fs_verity_digest (5 ∷ [])))))
unfolding compress
put_blob-verity_example =
    put_blob-verity blob_host zstd (5 ∷ []) chunk empty_image put_short (5 ∷ 0 ∷ []) (λ a b e. e)
      put_short-done refl

-- The compressed chunk, with its verity data.
pub verified_blob : BlobReads one_blob chunk_2.blob (some ((digest_32, digest_32) ∷ [])) content
unfolding bytes_eq puzzlefs.Format.Verity.get puzzlefs.Compression.sum64 puzzlefs.Prelude.add64
verified_blob =
    ((content, 0), refl, (digest_32, refl, refl, refl), (content, refl, refl, λ n o le. refl))

fill_from_chunk-content_example :
    fill_from_chunk one_blob chunk_2.blob 1 2 (some ((digest_32, digest_32) ∷ []))
    ≡ ok (take 2 (drop (chunk_2.blob.offset + 1) content))
fill_from_chunk-content_example =
    fill_from_chunk-content one_blob chunk_2.blob (some ((digest_32, digest_32) ∷ [])) content 1 2
      verified_blob (omega arith) (omega arith)

abbrev pub empty_rootfs : RootfsMsg options
empty_rootfs = record { metadatas = none; fs_verity_data = none; manifest_version = 3 }

-- One tag, whose manifest and metadata are in the blob with the digest `digest_32`.
abbrev pub one_tag : Oci one_blob options
one_tag = record {
  find_manifest_with_tag = λ tag. ok (
      some (
        record { media_type = puzzlefs_rootfs; digest = digest_32; annotations = some (some "00") }
        ∷ []));
  find_manifest_descriptor_with_tag = λ tag. ok (some digest_32);
  decode_to_slice = λ s. ok digest_32;
  read_message = λ f. ok empty_rootfs;
}

abbrev opened : Opened options
opened = record { rootfs = empty_rootfs; verity_data = some []; manifest_verity = some digest_32 }

opened-done : open_image one_blob options one_tag "tag" (some digest_32) ≡ ok opened
unfolding open_image puzzlefs.Prelude.find puzzlefs.Format.RootfsCapnp.verity_loop
opened-done = refl

open_image-Trusted_example : Trusted one_blob options one_tag "tag" digest_32 opened
open_image-Trusted_example =
    open_image-Trusted one_blob options one_tag "tag" digest_32 opened opened-done

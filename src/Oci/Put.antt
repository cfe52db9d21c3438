-- ===== src/Oci/Put.antt =====
-- puzzlefs-lib/src/oci.rs, `put_blob`, with oci/media_types.rs and the compressors: storing a blob
-- under its digest and adding it to the manifest.
pub mod Correct
pub mod Verity
use text.Mathlib.Text.{◌==◌ as str_eq}
use Prim.Native.String.{String, ◌++◌ as ◌<>◌}
use puzzlefs.Prelude.{
  ℕ, Bool, true, false, Bytes, bytes_eq, Option, none, some, List, [], ◌∷◌, ◌++◌, length, leb, min,
  if◌then◌else◌, ◌&&◌, not,
}
use puzzlefs.Errors.{Result, ok, err, ◌>>=◌, ◌>>◌, io_error}
use puzzlefs.Format.{Hash}

-- The media types of `media_types.rs` and their names.
pub data MediaType : Type 0 where
  rootfs chunk : MediaType

abbrev pub puzzlefs_rootfs : String
puzzlefs_rootfs = "application/vnd.puzzlefs.image.rootfs.v1"

abbrev pub puzzlefs_chunk_data : String
puzzlefs_chunk_data = "application/vnd.puzzlefs.image.filedata.v1"

abbrev pub name : MediaType → String
name rootfs = puzzlefs_rootfs
name chunk = puzzlefs_chunk_data

-- The type parameter `C: Compression`.
pub data Compression : Type 0 where
  noop zstd : Compression

-- The digests and the zstd encoder that the code calls, and the host's answers when a blob is
-- opened or written.
pub record BlobHost : Type 0 where
  pub sha256 : Bytes → Hash
  pub fs_verity_digest : Bytes → Result Hash
  pub zstd_encode : Bytes → Result Bytes
  pub may_open : Hash → Result (Unit {0})
  pub may_write : Hash → Result (Unit {0})

-- A descriptor in the manifest. `annotation` is the root hash annotation.
pub record Descriptor : Type 0 where
  pub media_type : String
  pub size : ℕ
  pub digest : Hash
  pub annotation : Option Hash

-- The blob directory, and the layers of the manifest that is being built.
pub record Image : Type 0 where
  pub blobs : List (Hash × Bytes)
  pub layers : List Descriptor

pub record Put : Type 0 where
  pub image : Image
  pub descriptor : Descriptor
  pub fs_verity_digest : Hash
  pub compressed : Bool

unfoldable pub blob : Hash → List (Hash × Bytes) → Option Bytes
blob d [] = none
blob d ((e, content) ∷ bs) = if bytes_eq d e then some content else blob d bs

abbrev pub is_rootfs : MediaType → Bool
is_rootfs m = str_eq (name m) puzzlefs_rootfs

module _ (h : BlobHost) where
  -- What the compressor has written when the stream has ended.
  unfoldable pub compress : Compression → Bytes → Result Bytes
  compress noop buf = ok buf
  compress zstd buf = h.zstd_encode buf

  abbrev pub append_extension : Compression → String → String
  append_extension noop media_type = media_type
  append_extension zstd media_type = media_type <> "+zstd"

  -- `TypeId::of::<C>() != TypeId::of::<Noop>()`
  abbrev pub is_compressed : Compression → Bool
  is_compressed noop = false
  is_compressed zstd = true

  -- A blob that is there is kept (so that it keeps its fs-verity data), if its content hashes to the
  -- digest; otherwise the data is written.
  unfoldable pub store_blob : Hash → Bytes → List (Hash × Bytes) → Result (List (Hash × Bytes))
  unfolding blob bytes_eq
  store_blob digest final_data blobs = elim (blob digest blobs) [
    | some existing ↦ do
      h.may_open digest
      if bytes_eq (h.sha256 existing) digest then ok blobs else err (io_error none)
    | none ↦ do h.may_write digest; ok ((digest, final_data) ∷ blobs)
  ]

  -- The PuzzleFS root file system is the first layer.
  unfoldable pub add_layer : MediaType → Descriptor → List Descriptor → List Descriptor
  add_layer media_type descriptor layers =
      if is_rootfs media_type then descriptor ∷ layers else layers ++ descriptor ∷ []

  -- The data that is stored, and whether it is compressed: the compressed form, unless it is no
  -- shorter.
  unfoldable pub choose : Compression → Bytes → Bytes → Bytes × Bool
  choose c buf compressed_data =
      if is_compressed c && leb (length buf) (length compressed_data)
      then (buf, false)
      else (compressed_data, is_compressed c)

  unfoldable pub put_blob : Compression → Bytes → MediaType → Image → Result Put
  unfolding compress choose store_blob add_layer
  put_blob c buf media_type image = do
    compressed_data ← compress c buf
    let final_size = min (length compressed_data) (length buf)
    let final_data = (choose c buf compressed_data).0
    let digest = h.sha256 final_data
    verity ← h.fs_verity_digest compressed_data
    let descriptor : Descriptor = record {
      media_type = append_extension c (name media_type);
      size = final_size;
      digest = digest;
      annotation = if is_rootfs media_type then some verity else none;
    }
    blobs ← store_blob digest final_data image.blobs
    ok (record {
      image = record { blobs = blobs; layers = add_layer media_type descriptor image.layers };
      descriptor = descriptor;
      fs_verity_digest = verity;
      compressed = (choose c buf compressed_data).1;
    })

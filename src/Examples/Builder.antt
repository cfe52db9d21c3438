-- ===== src/Examples/Builder.antt =====
-- A run of `process_chunks`.
use puzzlefs.Prelude.{
  ℕ, ◌≡◌, refl, true, false, Bytes, none, some, List, [], ◌∷◌, arith, bytes_eq, bytes_eq_iff,
  Bool-cases, ◌⊎◌, inl, inr, sym, ◌∙◌,
}
use puzzlefs.Format.{Hash}
use puzzlefs.Format.Inodes.{Metadata, FileType}
use puzzlefs.Oci.Put.{zstd, blob}
use puzzlefs.Oci.Put.Correct.{IsAddressed}
use puzzlefs.Builder.Chunks.{BuildFile, process_chunks}
use puzzlefs.Builder.Chunks.Correct.{AllHeld, read_chunks, process_chunks-FilesHold}
use puzzlefs.Builder.Chunks.Works.{Works}
use puzzlefs.Examples.Oci.{blob_host, empty_image, encode}

abbrev metadata : ℕ → Metadata
metadata size = record {
  file_type = FileType.is_file;
  host_ino = 100;
  size = size;
  uid = 0;
  gid = 0;
  st_mode = 0o644;
  major = 0;
  minor = 0;
}

abbrev file_of : ℕ → ℕ → BuildFile
file_of ino size = record { ino = ino; chunks = []; md = metadata size; additional = none }

-- Two files of three bytes with an empty file between them, in two chunks.
abbrev files : List BuildFile
files = file_of 2 3 ∷ file_of 3 0 ∷ file_of 4 3 ∷ []

abbrev contents : List Bytes
contents = (1 ∷ 2 ∷ 3 ∷ []) ∷ [] ∷ (4 ∷ 5 ∷ 6 ∷ []) ∷ []

abbrev chunks : List Bytes
chunks = (1 ∷ 2 ∷ []) ∷ (3 ∷ 4 ∷ 5 ∷ 6 ∷ []) ∷ []

some-injective {ℓ} : {A : Type ℓ} {x y : A} → some x ≡ some y → x ≡ y
some-injective e = cc

pub works : Works blob_host
works = (λ b. (encode b, refl), λ b. (9 ∷ b, refl), λ d. refl, λ d. refl)

addressed_by :
    (d : Hash) (content : Bytes)
    → (bytes_eq d (7 ∷ []) ≡ true) ⊎ (bytes_eq d (7 ∷ []) ≡ false)
    → blob d empty_image.blobs ≡ some content
    → content ≡ d
unfolding blob
addressed_by d content (inl same) there =
    some-injective (sym (rw (blob, same) at there)) ∙ sym ((bytes_eq_iff d (7 ∷ [])).0 same)
addressed_by d content (inr other) there = absurd (cc (rw (blob, other) at there))

pub addressed : IsAddressed blob_host empty_image.blobs
addressed d content there = addressed_by d content (Bool-cases (bytes_eq d (7 ∷ []))) there

process_chunks-FilesHold_example :
    AllHeld blob_host contents
      (process_chunks blob_host zstd (read_chunks chunks) files [] empty_image)
process_chunks-FilesHold_example =
    process_chunks-FilesHold blob_host zstd chunks files contents [] empty_image works addressed
      (omega arith, omega arith, (omega arith, omega arith, tt))
      (refl, omega arith, refl, (refl, omega arith, refl, (refl, omega arith, refl, tt))) refl

-- ===== src/Examples/ReadBack.antt =====
-- What was built, read back.
use puzzlefs.Prelude.{
  ℕ, zero, suc, ◌+◌, ◌≡◌, refl, sym, ap, ◌∙◌, Bytes, Option, none, some, List, [], ◌∷◌, length,
  take, drop, arith, add64_exact,
}
use puzzlefs.Errors.{Result, ok, err, io_error, ok-injective}
use puzzlefs.Format.{Hash}
use puzzlefs.Compression.{Host, SeekFrom}
use puzzlefs.Oci.Put.{BlobHost, zstd, blob, Image}
use puzzlefs.Oci.Put.Correct.{IsAddressed}
use puzzlefs.Builder.Chunks.{Chunked, process_chunks}
use puzzlefs.Builder.Chunks.Correct.{BlobOf}
use puzzlefs.Builder.Chunks.Works.{Works}
use puzzlefs.Builder.Chunks.ReadBack.{Serves, ReadBack}
use puzzlefs.Builder.Delta.Contents.{Sizes}
use puzzlefs.Builder.Delta.ReadBack.{built_files-ReadBack}
use puzzlefs.Examples.Gather.{tree, gathered, gathered-scanned, cuts, sizes}

-- A compressor that makes one zero of three.
abbrev squeeze : Bytes → Bytes
squeeze (zero ∷ zero ∷ zero ∷ bs) = 0 ∷ bs
squeeze bs = 1 ∷ bs

abbrev expand : Bytes → Bytes
expand [] = []
expand (zero ∷ bs) = 0 ∷ 0 ∷ 0 ∷ bs
expand (suc n ∷ bs) = bs

expand-squeeze : (b : Bytes) → expand (squeeze b) ≡ b
expand-squeeze (zero ∷ zero ∷ zero ∷ bs) = refl
expand-squeeze [] = refl
expand-squeeze (suc n ∷ bs) = refl
expand-squeeze (zero ∷ []) = refl
expand-squeeze (zero ∷ suc n ∷ bs) = refl
expand-squeeze (zero ∷ zero ∷ []) = refl
expand-squeeze (zero ∷ zero ∷ suc n ∷ bs) = refl

-- A blob's digest is its content.
abbrev squeezing : BlobHost
squeezing = record {
  sha256 = λ b. b;
  fs_verity_digest = λ b. ok b;
  zstd_encode = λ b. ok (squeeze b);
  may_open = λ d. ok tt;
  may_write = λ d. ok tt;
}

abbrev seek_to : Bytes × ℕ → SeekFrom → Result ((Bytes × ℕ) × ℕ)
seek_to (b, p) (SeekFrom.start s) = ok ((b, s), s)
seek_to (b, p) _ = err (io_error none)

abbrev serving : List (Hash × Bytes) → Host
serving bs = record {
  File = Bytes × ℕ;
  open_blob = λ d. elim (blob d bs) [ none ↦ err (io_error none) | some b ↦ ok (b, 0) ];
  measure = λ f. err (io_error none);
  file_seek = seek_to;
  file_read = λ f n. ok ((f.0, f.1 + length (take n (drop f.1 f.0))), take n (drop f.1 f.0));
  Stream = Bytes;
  stream_init = λ f. ok (expand f.0);
  frame_sizes = λ b. length b ∷ [];
  decompress = λ b n o. ok (take n (drop o b));
}

serving-Serves : (bs : List (Hash × Bytes)) → Serves squeezing bs (serving bs)
unfolding puzzlefs.Compression.sum64
serving-Serves bs d stored there = (
  (stored, 0),
  ap
      (λ (o : Option Bytes). elim o as (λ p. Result (Bytes × ℕ)) [
        | none ↦ err (io_error none)
        | some b ↦ ok (b, 0)
      ])
      there,
  λ s n. ((stored, s), s, (stored, s + length (take n (drop s stored))), refl, refl),
  λ b small e.
      let same : expand stored ≡ b = ap expand (sym (ok-injective e)) ∙ expand-squeeze b in
      (
        expand stored,
        refl,
        add64_exact (length (expand stored)) 0 (omega (arith, small, ap length same))
            ∙ omega (arith, ap length same),
        λ n o le. ap (λ (x : Bytes). ok (take n (drop o x))) same,
      ),
)

works : Works squeezing
works = (λ b. (squeeze b, refl), λ b. (b, refl), λ d. refl, λ d. refl)

abbrev no_blobs : Image
no_blobs = record { blobs = []; layers = [] }

addressed : IsAddressed squeezing no_blobs.blobs
unfolding blob
addressed d content there = absurd (cc there)

sized : Sizes tree (λ b. b) (BlobOf squeezing)
sized = sizes

-- Two bytes from the first one on, of each file.
built_files-ReadBack_example :
    (r : Chunked) × (process_chunks squeezing zstd
        (some (1 ∷ []) ∷ some (2 ∷ []) ∷ some (3 ∷ []) ∷ [])
        gathered.files
        []
        no_blobs
      ≡ ok r)
    × ReadBack (serving r.image.blobs) 1 2 r.files ((1 ∷ []) ∷ (2 ∷ 3 ∷ []) ∷ [])
built_files-ReadBack_example =
    built_files-ReadBack tree (λ b. b) squeezing zstd none gathered [] no_blobs serving 1 2 sized
      cuts works addressed (λ a b e. e) serving-Serves (omega arith) gathered-scanned

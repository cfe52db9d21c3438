-- ===== src/Examples/Stream.antt =====
-- A stream of three files, and the texts of a digest.
use puzzlefs.Prelude.{
  ℕ, suc, zero, ◌+◌, ◌-◌, ◌≡◌, ◌<◌, ◌≤◌, ◌↔◌, ◌≢◌, ◌⊎◌, refl, sym, ap, Bytes, some, List, [], ◌∷◌,
  ◌++◌, length, take, drop, arith, take-append-drop, length-take, Lacks,
}
use puzzlefs.Errors.{ok, err, panic, json_error}
use puzzlefs.Format.{sha256_block_size}
use puzzlefs.Format.Digest.{
  Hex, HexLaws, colon, sha256_name, serialize, display, visit_str, try_from_str, visit_str-Digest,
  digest_round_trip,
}
use puzzlefs.Builder.Stream.{FileSystem, new, read_stream, read_to_end}
use puzzlefs.Builder.Stream.Correct.{
  Reads, remaining, pushed, read_stream-Served, read_to_end-concat,
}
use puzzlefs.Examples.{digest_32}

-- A file's content is its path.
abbrev paths_as_files : FileSystem
paths_as_files = record {
  File = Bytes;
  open_file = λ path. ok path;
  read = λ f n. ok (drop n f, take n f);
}

none_read : (f : Bytes) (n : ℕ) → take n f ≡ [] → 0 < n → f ≡ []
none_read [] n e room = refl
none_read (x ∷ f) zero e room = absurd (omega arith)
none_read (x ∷ f) (suc n) e room = cc

paths_as_files-Reads : Reads paths_as_files (λ path. path) (λ f. f)
paths_as_files-Reads = (
  λ path. (path, refl, refl),
  λ f n. (
    drop n f,
    take n f,
    refl,
    sym (take-append-drop n f),
    omega (arith, length-take n f),
    none_read f n,
  ),
)

abbrev three_files : List Bytes
three_files = (1 ∷ 2 ∷ 3 ∷ []) ∷ [] ∷ (4 ∷ []) ∷ []

read_stream-Served_example :
    (out : Bytes) × ((read_stream paths_as_files 2
        (pushed paths_as_files (λ path. path) (λ f. f) three_files (new paths_as_files))).1
      ≡ ok out)
    × (remaining paths_as_files
          (λ path. path)
          (λ f. f)
          (pushed paths_as_files (λ path. path) (λ f. f) three_files (new paths_as_files))
        ≡ out
          ++ remaining paths_as_files
              (λ path. path)
              (λ f. f)
              (read_stream paths_as_files 2
                (pushed paths_as_files (λ path. path) (λ f. f) three_files (new paths_as_files))).0)
    × (length out ≤ 2)
    × (out ≡ []
        → remaining paths_as_files
            (λ path. path)
            (λ f. f)
            (pushed paths_as_files (λ path. path) (λ f. f) three_files (new paths_as_files))
          ≡ [])
read_stream-Served_example =
    read_stream-Served paths_as_files (λ path. path) (λ f. f) 2
      (pushed paths_as_files (λ path. path) (λ f. f) three_files (new paths_as_files))
      paths_as_files-Reads (omega arith)

read_to_end-concat_example :
    read_to_end paths_as_files 5 2
      (pushed paths_as_files (λ path. path) (λ f. f) three_files (new paths_as_files))
    ≡ some (ok (1 ∷ 2 ∷ 3 ∷ 4 ∷ []))
read_to_end-concat_example =
    read_to_end-concat paths_as_files (λ path. path) (λ f. f) three_files 5 2 paths_as_files-Reads
      (omega arith) (omega arith)

-- One digit for each byte, after the colon in the order of the bytes.
abbrev digits_of : Bytes → Bytes
digits_of [] = []
digits_of (x ∷ xs) = (x + 59) ∷ digits_of xs

abbrev bytes_of : Bytes → Bytes
bytes_of [] = []
bytes_of (x ∷ xs) = (x - 59) ∷ bytes_of xs

abbrev hex : Hex
hex = record {
  encode = digits_of;
  decode = λ text. ok (bytes_of text);
  decode_to_slice = λ text. ok (bytes_of text);
}

bytes_of-digits_of : (b : Bytes) → bytes_of (digits_of b) ≡ b
bytes_of-digits_of [] = refl
bytes_of-digits_of (x ∷ xs) =
    let back : x + 59 - 59 ≡ x = omega arith in rw (back, bytes_of-digits_of xs)

digits_of-Lacks : (b : Bytes) → Lacks colon (digits_of b)
digits_of-Lacks [] = tt
digits_of-Lacks (x ∷ xs) = (ground arith, digits_of-Lacks xs)

hex-HexLaws : HexLaws hex
hex-HexLaws =
    (λ b. ap ok (bytes_of-digits_of b), λ b size. ap ok (bytes_of-digits_of b), digits_of-Lacks)

digest_round_trip_example :
    (visit_str hex (serialize hex digest_32) ≡ ok digest_32)
    × (try_from_str hex (display hex digest_32) ≡ ok digest_32)
digest_round_trip_example = digest_round_trip hex digest_32 hex-HexLaws refl

hex-decodes : (b : Bytes) → hex.decode b ≢ panic
hex-decodes b e = cc e

visit_str-Digest_example :
    ((visit_str hex (serialize hex digest_32) ≡ ok digest_32)
      ↔ (digits : Bytes) × (serialize hex digest_32 ≡ sha256_name ++ colon ∷ digits)
        × Lacks colon digits
        × (hex.decode digits ≡ ok digest_32)
        × (length digest_32 ≡ sha256_block_size))
    × (((other : Bytes) × (visit_str hex (serialize hex digest_32) ≡ ok other))
        ⊎ (visit_str hex (serialize hex digest_32) ≡ err json_error))
visit_str-Digest_example = visit_str-Digest hex (serialize hex digest_32) digest_32 hex-decodes

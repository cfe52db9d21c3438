-- ===== src/Format/Digest.antt =====
-- puzzlefs-lib/src/format/types.rs: the textual forms of a blob's digest. Text is the list of its
-- bytes.
use puzzlefs.Prelude.{
  ℕ, ◌≡◌, refl, sym, ap, ◌∙◌, ◌↔◌, ◌≢◌, ◌⊎◌, Bytes, bytes_eq, bytes_eq_iff, Bool-cases, inl, inr,
  List, [], ◌∷◌, ◌++◌, length, ◌==◌, ==_iff, if◌then◌else◌, split, Lacks, split-Lacks, split-append,
  append-nil, split-All, join-split, All, join,
}
use puzzlefs.Errors.{Result, ok, err, panic, ◌>>=◌, json_error, ok-injective}
use puzzlefs.Format.{Hash, sha256_block_size}

-- The hex crate. `decode_to_slice` decodes into an array of 32 bytes.
pub record Hex : Type 0 where
  pub encode : Bytes → Bytes
  pub decode : Bytes → Result Bytes
  pub decode_to_slice : Bytes → Result Hash

abbrev pub colon : ℕ
colon = 58

-- `"sha256"`
abbrev pub sha256_name : Bytes
sha256_name = 115 ∷ 104 ∷ 97 ∷ 50 ∷ 53 ∷ 54 ∷ []

-- `.map_err(|e| SerdeError::custom(..))`: what fails is reported as an error of the reader.
abbrev pub as_custom : Result Bytes → Result Bytes
as_custom (ok bytes) = ok bytes
as_custom (err e) = err json_error
as_custom panic = panic

-- `buf.try_into()` of a vector into an array of 32 bytes.
abbrev pub to_array : Bytes → Result Hash
to_array buf = if length buf == sha256_block_size then ok buf else err json_error

module _ (hex : Hex) where
  -- `impl Display for Digest`
  unfoldable pub display : Hash → Bytes
  display digest = hex.encode digest

  -- `impl Serialize for Digest`
  unfoldable pub serialize : Hash → Bytes
  serialize digest = sha256_name ++ colon ∷ hex.encode digest

  -- `impl TryFrom<&str> for Digest`
  unfoldable pub try_from_str : Bytes → Result Hash
  try_from_str s = hex.decode_to_slice s

  -- `match parts[0]`, of the two parts of the text.
  abbrev pub of_parts : Bytes → Bytes → Result Hash
  of_parts name digits =
      if bytes_eq name sha256_name
      then (do buf ← as_custom (hex.decode digits); to_array buf)
      else err json_error

  -- `parts.len() != 2`
  abbrev pub two_parts : List Bytes → Result Hash
  two_parts (name ∷ digits ∷ []) = of_parts name digits
  two_parts _ = err json_error

  -- `DigestVisitor::visit_str`
  unfoldable pub visit_str : Bytes → Result Hash
  unfolding split bytes_eq
  visit_str s = two_parts (split colon s)

  -- What the code relies on of the hex crate: hex digits are read back, and none is a colon.
  abbrev pub HexLaws : Type 0
  HexLaws =
      ((b : Bytes) → hex.decode (hex.encode b) ≡ ok b)
      × ((b : Bytes) → length b ≡ sha256_block_size → hex.decode_to_slice (hex.encode b) ≡ ok b)
      × ((b : Bytes) → Lacks colon (hex.encode b))

  array_of :
      (decoded : Result Bytes) (digest : Hash)
      → (as_custom decoded >>= to_array) ≡ ok digest
      → (length digest ≡ sha256_block_size) × (decoded ≡ ok digest)
  array_of panic digest made = cc
  array_of (err e) digest made = cc
  array_of (ok buf) digest made = elim (Bool-cases (length buf == sha256_block_size)) [
    | inl full ↦
        let same : buf ≡ digest = ok-injective (rw full at made) in
        ((==_iff _ _).0 (rw same at full), ap ok same)
    | inr other ↦
        let never : ◌≡◌ {A = Result Hash} (err json_error) (ok digest) = rw other at made in cc
  ]

  of_parts-eq-ok :
      (name digits digest : Bytes)
      → of_parts name digits ≡ ok digest
      → (name ≡ sha256_name) × (hex.decode digits ≡ ok digest) × (length digest ≡ sha256_block_size)
  of_parts-eq-ok name digits digest read = elim (Bool-cases (bytes_eq name sha256_name)) [
    | inr other ↦
        let never : ◌≡◌ {A = Result Hash} (err json_error) (ok digest) = rw other at read in cc
    | inl same ↦
        let read' : (as_custom (hex.decode digits) >>= to_array) ≡ ok digest = rw same at read in
        let (size, decoded) = array_of (hex.decode digits) digest read' in
        ((bytes_eq_iff name sha256_name).0 same, decoded, size)
  ]

  two_parts-eq-ok :
      (parts : List Bytes) (digest : Bytes)
      → two_parts parts ≡ ok digest
      → (name : Bytes) × (digits : Bytes) × (parts ≡ name ∷ digits ∷ [])
        × (of_parts name digits ≡ ok digest)
  two_parts-eq-ok [] digest read = cc
  two_parts-eq-ok (name ∷ []) digest read = cc
  two_parts-eq-ok (name ∷ digits ∷ []) digest read = (name, digits, refl, read)
  two_parts-eq-ok (name ∷ digits ∷ more ∷ parts) digest read = cc

  visit_str-eq-ok :
      (s digest : Bytes)
      → (visit_str s ≡ ok digest)
        ↔ (digits : Bytes) × (s ≡ sha256_name ++ colon ∷ digits)
          × Lacks colon digits
          × (hex.decode digits ≡ ok digest)
          × (length digest ≡ sha256_block_size)
  unfolding visit_str
  visit_str-eq-ok s digest = (
    (λ read.
        let (name, digits, parts, read') = two_parts-eq-ok (split colon s) digest read in
        let (is_sha256, decoded, size) = of_parts-eq-ok name digits digest read' in
        let whole = join-split colon s in
        let lacks = split-All colon s in
        let whole' : join colon (name ∷ digits ∷ []) ≡ s = rw parts at whole in
        let written : join colon (name ∷ digits ∷ []) ≡ name ++ colon ∷ digits =
          rw (append-nil digits) in
        let lacks' : All (Lacks colon) (name ∷ digits ∷ []) = rw parts at lacks in
        (
          digits,
          sym whole' ∙ written ∙ ap (λ n. n ++ colon ∷ digits) is_sha256,
          lacks'.1.0,
          decoded,
          size,
        )),
    (λ (digits, text, lacks, decoded, size).
        let parts =
          split-append colon sha256_name digits
            (refl, (refl, (refl, (refl, (refl, (refl, tt)))))) in
        let full = (==_iff (length digest) sha256_block_size).1 size in
        let two : split colon (sha256_name ++ colon ∷ digits) ≡ sha256_name ∷ digits ∷ [] =
          parts ∙ ap (λ ps. sha256_name ∷ ps) (split-Lacks colon digits lacks) in
        let found : of_parts sha256_name digits ≡ ok digest = rw (decoded, full) in
        ap visit_str text ∙ ap two_parts two ∙ found),
  )

  -- A digest, or the error of the reader.
  abbrev pub Read : Result Hash → Type 0
  Read (ok digest) = Unit
  Read (err e) = e ≡ json_error
  Read panic = ⊥

  array_of-Read : (decoded : Result Bytes) → decoded ≢ panic → Read (as_custom decoded >>= to_array)
  array_of-Read panic decodes = absurd (decodes refl)
  array_of-Read (err e) decodes = refl
  array_of-Read (ok buf) decodes = elim (Bool-cases (length buf == sha256_block_size)) [
    | inl full ↦ rw full tt
    | inr other ↦ rw other refl
  ]

  two_parts-Read :
      (parts : List Bytes) → ((b : Bytes) → hex.decode b ≢ panic) → Read (two_parts parts)
  two_parts-Read [] decodes = refl
  two_parts-Read (name ∷ []) decodes = refl
  two_parts-Read (name ∷ digits ∷ []) decodes = elim (Bool-cases (bytes_eq name sha256_name)) [
    | inl same ↦ rw same (array_of-Read (hex.decode digits) (decodes digits))
    | inr other ↦ rw other refl
  ]
  two_parts-Read (name ∷ digits ∷ more ∷ parts) decodes = refl

  Read-cases :
      (r : Result Hash) → Read r → ((digest : Hash) × (r ≡ ok digest)) ⊎ (r ≡ err json_error)
  Read-cases (ok digest) read = inl (digest, refl)
  Read-cases (err e) read = inr (ap err read)
  Read-cases panic read = absurd read

  -- A text is read as a digest exactly if it is `sha256:`, with no other colon after it, and what
  -- follows decodes to the digest's 32 bytes. Every text is read as some digest or gives the error of
  -- the reader, never a panic. The hex decoder does not panic.
  pub visit_str-Digest :
      (s digest : Bytes)
      → ((b : Bytes) → hex.decode b ≢ panic)
      → ((visit_str s ≡ ok digest)
          ↔ (digits : Bytes) × (s ≡ sha256_name ++ colon ∷ digits)
            × Lacks colon digits
            × (hex.decode digits ≡ ok digest)
            × (length digest ≡ sha256_block_size))
        × (((other : Hash) × (visit_str s ≡ ok other)) ⊎ (visit_str s ≡ err json_error))
  unfolding visit_str
  visit_str-Digest s digest decodes =
      (visit_str-eq-ok s digest, Read-cases (visit_str s) (two_parts-Read (split colon s) decodes))

  -- A digest of 32 bytes is read back from each of its two texts: from `sha256:` and its hex digits,
  -- as the manifest and the metadata name it, and from the digits alone.
  pub digest_round_trip :
      (digest : Hash)
      → HexLaws
      → length digest ≡ sha256_block_size
      → (visit_str (serialize digest) ≡ ok digest) × (try_from_str (display digest) ≡ ok digest)
  unfolding serialize try_from_str display
  digest_round_trip digest laws size = (
    (visit_str-eq-ok _ digest).1 (hex.encode digest, refl, laws.2 digest, laws.0 digest, size),
    laws.1 digest size,
  )

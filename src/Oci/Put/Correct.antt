-- ===== src/Oci/Put/Correct.antt =====
-- puzzlefs-lib/src/oci.rs: what `put_blob` keeps, stores and returns.
use puzzlefs.Prelude.{
  ◌<◌, ◌≡◌, ◌⊎◌, inl, inr, refl, Bool, true, false, Bytes, bytes_eq, bytes_eq_iff, none, some, List,
  ◌∷◌, length, leb, min, if◌then◌else◌, arith, Bool-cases, Option-cases, ap, sym, ◌∙◌, subst,
}
use puzzlefs.Errors.{ok, err, >>=-eq-ok, io_error, WireFormatError, ok-injective}
use puzzlefs.Format.{Hash}
use puzzlefs.Oci.Put.{
  name, append_extension, MediaType, Compression, noop, zstd, BlobHost, Image, Put, blob, compress,
  store_blob, add_layer, choose, put_blob,
}

if_ok {ℓ} :
    {A : Type ℓ} (b : Bool) {x y : A} (e : WireFormatError)
    → (if b then ok x else err e) ≡ ok y
    → (b ≡ true) × (x ≡ y)
if_ok true e h = (refl, ok-injective h)
if_ok false e h = cc

module _ (h : BlobHost) where
  -- Every blob is stored under the digest of its content.
  abbrev pub IsAddressed : List (Hash × Bytes) → Type 0
  IsAddressed bs = (d : Hash) (content : Bytes) → blob d bs ≡ some content → h.sha256 content ≡ d

  -- The digest names a blob that hashes to it, and every blob that was there is as it was.
  abbrev pub Keeps : Hash → List (Hash × Bytes) → List (Hash × Bytes) → Type 0
  Keeps digest bs bs' =
      (content : Bytes) × (blob digest bs' ≡ some content)
      × (h.sha256 content ≡ digest)
      × ((d : Hash) (old : Bytes) → blob d bs ≡ some old → blob d bs' ≡ some old)

  Keeps-new :
      (data' : Bytes) (bs : List (Hash × Bytes))
      → blob (h.sha256 data') bs ≡ none
      → Keeps (h.sha256 data') bs ((h.sha256 data', data') ∷ bs)
  unfolding blob
  Keeps-new data' bs fresh = (
    data',
    rw ((bytes_eq_iff (h.sha256 data') (h.sha256 data')).1 refl),
    refl,
    λ d old there. elim (Bool-cases (bytes_eq d (h.sha256 data'))) [
      | inl same ↦ cc (there, fresh, ap (λ x. blob x bs) ((bytes_eq_iff d (h.sha256 data')).0 same))
      | inr other ↦ rw (other, blob) there
    ],
  )

  pub store_blob-Keeps :
      (data' : Bytes) (bs bs' : List (Hash × Bytes))
      → store_blob h (h.sha256 data') data' bs ≡ ok bs'
      → Keeps (h.sha256 data') bs bs'
  unfolding store_blob
  store_blob-Keeps data' bs bs' stored = elim (Option-cases (blob (h.sha256 data') bs)) [
    | inl fresh ↦
        let (_, may, same) =
          >>=-eq-ok (h.may_write (h.sha256 data')) _ (rw (fresh, store_blob) at stored) in
        subst (Keeps (h.sha256 data') bs) (ok-injective same) (Keeps-new data' bs fresh)
    | inr (existing, there) ↦
        let (_, may, same) =
          >>=-eq-ok (h.may_open (h.sha256 data')) _ (rw (there, store_blob) at stored) in
        let (hashes, kept) =
          if_ok (bytes_eq (h.sha256 existing) (h.sha256 data')) (io_error none) same in
        (existing, rw (← kept) there, (bytes_eq_iff _ _).0 hashes, λ d old e. rw (← kept) e)
  ]

  -- What a successful `put_blob` did.
  pub record Did (c : Compression) (buf : Bytes) (m : MediaType) (image : Image) (p : Put)
      : Type 0 where
    pub encoded : Bytes
    pub encodes : compress h c buf ≡ ok encoded
    pub measured : h.fs_verity_digest encoded ≡ ok p.fs_verity_digest
    pub digest : p.descriptor.digest ≡ h.sha256 (choose h c buf encoded).0
    pub size : p.descriptor.size ≡ min (length encoded) (length buf)
    pub flag : p.compressed ≡ (choose h c buf encoded).1
    pub stored :
        store_blob h (h.sha256 (choose h c buf encoded).0) (choose h c buf encoded).0 image.blobs
        ≡ ok p.image.blobs
    pub layers : p.image.layers ≡ add_layer h m p.descriptor image.layers
    pub media_type : p.descriptor.media_type ≡ append_extension h c (name m)

  pub put_blob-Did :
      (c : Compression) (buf : Bytes) (m : MediaType) (image : Image) (p : Put)
      → put_blob h c buf m image ≡ ok p
      → Did c buf m image p
  unfolding put_blob
  put_blob-Did c buf m image p done =
      let (encoded, encodes, h1) = >>=-eq-ok (compress h c buf) _ done in
      let (verity, measured, h2) = >>=-eq-ok (h.fs_verity_digest encoded) _ h1 in
      let (blobs, stored, h3) =
        >>=-eq-ok
          (store_blob h (h.sha256 (choose h c buf encoded).0) (choose h c buf encoded).0
            image.blobs)
          _ h2 in
      let e = ok-injective h3 in
      subst (Did c buf m image) e (record {
        encoded = encoded;
        encodes = encodes;
        measured = measured;
        digest = refl;
        size = refl;
        flag = refl;
        stored = stored;
        layers = refl;
        media_type = refl;
      })

  -- Where the descriptor goes in the manifest, and its media type.
  pub put_blob-layers :
      (c : Compression) (buf : Bytes) (m : MediaType) (image : Image) (p : Put)
      → put_blob h c buf m image ≡ ok p
      → (p.image.layers ≡ add_layer h m p.descriptor image.layers)
        × (p.descriptor.media_type ≡ append_extension h c (name m))
  put_blob-layers c buf m image p done =
      let did = put_blob-Did c buf m image p done in (did.layers, did.media_type)

  choose-length :
      (c : Compression) (buf encoded : Bytes)
      → compress h c buf ≡ ok encoded
      → length (choose h c buf encoded).0 ≡ min (length encoded) (length buf)
  unfolding choose compress
  choose-length noop buf encoded e =
      let same : buf ≡ encoded = ok-injective e in rw same (omega arith)
  choose-length zstd buf encoded e = ground arith

  unless_missing :
      (bs bs' : List (Hash × Bytes)) (d : Hash)
      → ((old : Bytes) → blob d bs ≡ some old → blob d bs' ≡ some old)
      → (blob d bs ≡ none) ⊎ (blob d bs' ≡ blob d bs)
  unless_missing bs bs' d kept = elim (Option-cases (blob d bs)) [
    | inl missing ↦ inl missing
    | inr (old, there) ↦ inr (kept old there ∙ sym there)
  ]

  -- A successful `put_blob` leaves a blob under the digest that it returns: the blob hashes to that
  -- digest, and the descriptor's size is the length of the data that was to be stored. Every blob
  -- that was there before has the content that it had.
  pub put_blob-Keeps :
      (c : Compression) (buf : Bytes) (m : MediaType) (image : Image) (p : Put) (d : Hash)
      → put_blob h c buf m image ≡ ok p
      → ((content : Bytes) × (blob p.descriptor.digest p.image.blobs ≡ some content)
          × (h.sha256 content ≡ p.descriptor.digest))
        × ((final : Bytes) × (p.descriptor.digest ≡ h.sha256 final)
            × (p.descriptor.size ≡ length final))
        × ((blob d image.blobs ≡ none) ⊎ (blob d p.image.blobs ≡ blob d image.blobs))
  put_blob-Keeps c buf m image p d done =
      let did = put_blob-Did c buf m image p done in
      let final = (choose h c buf did.encoded).0 in
      let (content, there, hashes, kept) =
        store_blob-Keeps final image.blobs p.image.blobs did.stored in
      (
        (content, rw did.digest there, hashes ∙ sym did.digest),
        (final, did.digest, did.size ∙ sym (choose-length c buf did.encoded did.encodes)),
        unless_missing image.blobs p.image.blobs d (kept d),
      )

  -- The flag tells how to read the blob: if it is set the digest is that of the zstd form, which is
  -- shorter than the data; if not, of the data itself.
  abbrev pub Flagged : Bool → Bytes → Hash → Type 0
  Flagged true buf digest =
      (encoded : Bytes) × (h.zstd_encode buf ≡ ok encoded)
      × (length encoded < length buf)
      × (digest ≡ h.sha256 encoded)
  Flagged false buf digest = digest ≡ h.sha256 buf

  choose-Flagged :
      (c : Compression) (buf encoded : Bytes)
      → compress h c buf ≡ ok encoded
      → Flagged (choose h c buf encoded).1 buf (h.sha256 (choose h c buf encoded).0)
  unfolding choose compress
  choose-Flagged noop buf encoded e = ap h.sha256 (sym (ok-injective e))
  choose-Flagged zstd buf encoded e = elim (Bool-cases (leb (length buf) (length encoded))) [
    | inl long ↦ rw (long, choose)
    | inr short ↦ rw (short, choose) (encoded, e, ground arith, refl)
  ]

  -- The flag that `put_blob` returns tells so of the digest that it returns.
  pub put_blob-Flagged :
      (c : Compression) (buf : Bytes) (m : MediaType) (image : Image) (p : Put)
      → put_blob h c buf m image ≡ ok p
      → Flagged p.compressed buf p.descriptor.digest
  put_blob-Flagged c buf m image p done =
      let did = put_blob-Did c buf m image p done in
      rw (did.flag, did.digest) (choose-Flagged c buf did.encoded did.encodes)

  -- Of SHA-256: no two contents have one digest.
  abbrev pub NoCollisions : Type 0
  NoCollisions = (a b : Bytes) → h.sha256 a ≡ h.sha256 b → a ≡ b

  -- With `Noop`, what is returned is about the data itself.
  pub put_blob-noop :
      (buf : Bytes) (m : MediaType) (image : Image) (p : Put)
      → put_blob h noop buf m image ≡ ok p
      → (p.descriptor.digest ≡ h.sha256 buf) × (h.fs_verity_digest buf ≡ ok p.fs_verity_digest)
  unfolding choose compress
  put_blob-noop buf m image p done =
      let did = put_blob-Did noop buf m image p done in
      let same : did.encoded ≡ buf = sym (ok-injective did.encodes) in
      (did.digest ∙ ap h.sha256 same, rw same at did.measured)

-- ===== src/Oci/Put/Verity.antt =====
-- puzzlefs-lib/src/oci.rs: which data `put_blob` stores, and the fs-verity digest that it returns.
use puzzlefs.Prelude.{
  ◌<◌, ◌≤◌, ◌≡◌, ◌⊎◌, ◌↔◌, inl, inr, refl, Bytes, some, length, leb, arith, Bool-cases, ap, sym,
  ◌∙◌, subst,
}
use puzzlefs.Errors.{ok, ok-injective}
use puzzlefs.Format.{Hash}
use puzzlefs.Oci.Put.{
  MediaType, Compression, noop, zstd, BlobHost, Image, Put, blob, compress, choose, put_blob,
}
use puzzlefs.Oci.Put.Correct.{NoCollisions, store_blob-Keeps, put_blob-Did}

module _ (h : BlobHost) where
  abbrev Form : Bytes → Bytes → Bytes → Type 0
  Form buf encoded stored =
      ((length encoded < length buf) × (stored ≡ encoded))
      ⊎ ((length buf ≤ length encoded) × (stored ≡ buf))

  choose-Form :
      (c : Compression) (buf encoded : Bytes)
      → compress h c buf ≡ ok encoded
      → Form buf encoded (choose h c buf encoded).0
  unfolding choose compress
  choose-Form noop buf encoded e =
      let same : buf ≡ encoded = ok-injective e in inr (omega (arith, ap length same), sym same)
  choose-Form zstd buf encoded e = elim (Bool-cases (leb (length buf) (length encoded))) [
    | inl long ↦ rw long (inr (ground arith, refl))
    | inr short ↦ rw short (inl (ground arith, refl))
  ]

  -- The fs-verity digest of the compressed form is that of the form that is chosen, exactly if this is
  -- the compressed form or the two forms have one fs-verity digest.
  choose-verity :
      (c : Compression) (buf encoded : Bytes) (v : Hash)
      → h.fs_verity_digest encoded ≡ ok v
      → (h.fs_verity_digest (choose h c buf encoded).0 ≡ ok v) ↔ (
          (c ≡ noop)
          ⊎ ((length encoded < length buf) ⊎ (h.fs_verity_digest encoded ≡ h.fs_verity_digest buf)))
  unfolding choose
  choose-verity noop buf encoded v measured = (λ e. inl refl, λ kind. measured)
  choose-verity zstd buf encoded v measured =
      elim (Bool-cases (leb (length buf) (length encoded))) [
        | inl long ↦ rw long (
          λ e. inr (inr (measured ∙ sym e)),
          λ kind. elim kind [
            | inl plain ↦ absurd (cc plain)
            | inr (inl short) ↦ absurd (ground arith)
            | inr (inr same) ↦ sym same ∙ measured
          ],
        )
        | inr short ↦ rw short (λ e. inr (inl (ground arith)), λ kind. measured)
      ]

  -- The blob that is under the digest after `put_blob` is the data, compressed with zstd if asked for
  -- and if this made it shorter, and as it was otherwise. The fs-verity digest that `put_blob` returns
  -- is that of this blob exactly if there is no compression, or zstd made the data shorter, or both
  -- forms have one fs-verity digest.
  -- SHA-256 has no collisions.
  pub put_blob-verity :
      (c : Compression) (buf : Bytes) (m : MediaType) (image : Image) (p : Put) (encoded : Bytes)
      → NoCollisions h
      → put_blob h c buf m image ≡ ok p
      → compress h c buf ≡ ok encoded
      → (stored : Bytes) × (blob p.descriptor.digest p.image.blobs ≡ some stored)
        × (((length encoded < length buf) × (stored ≡ encoded))
            ⊎ ((length buf ≤ length encoded) × (stored ≡ buf)))
        × ((h.fs_verity_digest stored ≡ ok p.fs_verity_digest) ↔ (
            (c ≡ noop)
            ⊎ ((length encoded < length buf)
                ⊎ (h.fs_verity_digest encoded ≡ h.fs_verity_digest buf))))
  put_blob-verity c buf m image p encoded unique done e =
      let did = put_blob-Did h c buf m image p done in
      let same : did.encoded ≡ encoded = ok-injective (sym did.encodes ∙ e) in
      let (content, there, hashes, kept) =
        store_blob-Keeps h (choose h c buf did.encoded).0 image.blobs p.image.blobs did.stored in
      let is : (choose h c buf encoded).0 ≡ content =
        ap (λ x. (choose h c buf x).0) (sym same) ∙ unique _ _ (sym hashes) in
      (
        content,
        rw did.digest there,
        subst (Form buf encoded) is (choose-Form c buf encoded e),
        subst
            (λ (x : Bytes). (h.fs_verity_digest x ≡ ok p.fs_verity_digest) ↔ (
              (c ≡ noop)
              ⊎ ((length encoded < length buf)
                  ⊎ (h.fs_verity_digest encoded ≡ h.fs_verity_digest buf))))
            is (choose-verity c buf encoded p.fs_verity_digest (rw same at did.measured)),
      )

-- ===== src/Builder/Chunks/Works.antt =====
-- puzzlefs-lib/src/oci.rs, `put_blob`: it returns, where the host does what it is asked for.
use puzzlefs.Prelude.{
  ◌≡◌, refl, ap, sym, ◌∙◌, Bytes, bytes_eq, bytes_eq_iff, none, some, List, ◌∷◌, length, Bool-cases,
  Option-cases, inl, inr, if◌then◌else◌, min,
}
use puzzlefs.Errors.{ok}
use puzzlefs.Format.{Hash}
use puzzlefs.Oci.Put.{
  BlobHost, Compression, noop, zstd, MediaType, Image, Put, blob, compress, choose, store_blob,
  put_blob, add_layer, append_extension, name, is_rootfs, Descriptor,
}
use puzzlefs.Oci.Put.Correct.{IsAddressed}

some-injective {ℓ} : {A : Type ℓ} {x y : A} → some x ≡ some y → x ≡ y
some-injective e = cc

module _ (h : BlobHost) where
  -- The compressor and the file system do what they are asked for.
  abbrev pub Works : Type 0
  Works =
      ((b : Bytes) → (e : Bytes) × (h.zstd_encode b ≡ ok e))
      × ((b : Bytes) → (v : Hash) × (h.fs_verity_digest b ≡ ok v))
      × ((d : Hash) → h.may_open d ≡ ok tt)
      × ((d : Hash) → h.may_write d ≡ ok tt)

  compresses : (c : Compression) (b : Bytes) → Works → (e : Bytes) × (compress h c b ≡ ok e)
  unfolding compress
  compresses noop b works = (b, refl)
  compresses zstd b works = works.0 b

  IsAddressed-new :
      (data' : Bytes) (bs : List (Hash × Bytes))
      → IsAddressed h bs
      → IsAddressed h ((h.sha256 data', data') ∷ bs)
  unfolding blob
  IsAddressed-new data' bs addressed d content there =
      elim (Bool-cases (bytes_eq d (h.sha256 data'))) [
        | inl same ↦
            let found : data' ≡ content = some-injective (rw (same, blob) at there) in
            ap h.sha256 (sym found) ∙ sym ((bytes_eq_iff d (h.sha256 data')).0 same)
        | inr other ↦ addressed d content (rw (other, blob) at there)
      ]

  stores :
      (data' : Bytes) (bs : List (Hash × Bytes))
      → Works
      → IsAddressed h bs
      → (bs' : List (Hash × Bytes)) × (store_blob h (h.sha256 data') data' bs ≡ ok bs')
        × IsAddressed h bs'
  unfolding store_blob
  stores data' bs (_, _, opens, writes) addressed = elim (Option-cases (blob (h.sha256 data') bs)) [
    | inl fresh ↦ (
      (h.sha256 data', data') ∷ bs,
      rw (store_blob, fresh, writes (h.sha256 data')),
      IsAddressed-new data' bs addressed,
    )
    | inr (old, there) ↦ (
      bs,
      rw (store_blob, there, opens (h.sha256 data'), (bytes_eq_iff _ _).1 (addressed _ old there)),
      addressed,
    )
  ]

  abbrev descriptor_of : Compression → Bytes → MediaType → Bytes → Hash → Descriptor
  descriptor_of c buf m encoded v = record {
    media_type = append_extension h c (name m);
    size = min (length encoded) (length buf);
    digest = h.sha256 (choose h c buf encoded).0;
    annotation = if is_rootfs m then some v else none;
  }

  pub put_blob-returns :
      (c : Compression) (buf : Bytes) (m : MediaType) (image : Image)
      → Works
      → IsAddressed h image.blobs
      → (p : Put) × (put_blob h c buf m image ≡ ok p) × IsAddressed h p.image.blobs
  unfolding put_blob
  put_blob-returns c buf m image works addressed =
      let (encoded, e) = compresses c buf works in
      let (v, measured) = works.1 encoded in
      let (bs, stored, addressed') =
        stores (choose h c buf encoded).0 image.blobs works addressed in
      let p : Put = record {
        image = record {
          blobs = bs;
          layers = add_layer h m (descriptor_of c buf m encoded v) image.layers;
        };
        descriptor = descriptor_of c buf m encoded v;
        fs_verity_digest = v;
        compressed = (choose h c buf encoded).1;
      } in
      (p, rw (e, measured, stored), addressed')

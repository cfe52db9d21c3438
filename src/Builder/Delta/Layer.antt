-- ===== src/Builder/Delta/Layer.antt =====
-- puzzlefs-lib/src/builder.rs, `build_delta`: the inodes of an image that is built from scratch form
-- a layer as the reader wants it.
use puzzlefs.Prelude.{
  ◌+◌, ◌≤◌, ◌<◌, ◌≡◌, sym, ap, subst, none, List, arith, u32_mod, u64_mod, get_elem?-some,
  IsSortedBy, count, length,
}
use puzzlefs.Prelude.Sort.Ascending.{ascending}
use puzzlefs.Errors.{ok, >>=-eq-ok, ok-injective}
use puzzlefs.Format.{Ino, Inode, VerityData}
use puzzlefs.Format.Stack.Layers.{IsLayer, number, number_at}
use puzzlefs.Oci.Put.{BlobHost, Compression, Image}
use puzzlefs.Builder.Chunks.{process_chunks}
use puzzlefs.Builder.Chunks.Numbers.{process_chunks-bares}
use puzzlefs.Builder.Tree.{HostTree}
use puzzlefs.Builder.Delta.{scan, inodes, Built, build_delta}
use puzzlefs.Builder.Delta.Numbers.{file_ino}
use puzzlefs.Builder.Delta.Scan.{entries_in, scan-Numbered}
use puzzlefs.Builder.Delta.Render.{
  Reorders, count-bares, inodes-Rendered, count-inodes, inodes-IsSortedBy, inodes-nonempty,
}

-- A sorted list where no number stands twice is a layer.
layer_of :
    (is : List Inode)
    → 0 < length is
    → length is < u32_mod
    → IsSortedBy number is
    → ((k : Ino) → count number k is ≤ 1)
    → IsLayer is
layer_of is some_inode few sorted once = record {
  nonempty = some_inode;
  small = few;
  ascending = λ p q lt fits.
      let (x, at_p) = get_elem?-some is p (omega arith) in
      let (y, at_q) = get_elem?-some is q fits in
      let less = ascending number is p q x y sorted once lt at_p at_q in
      omega (arith, number_at is p x at_p, number_at is q y at_q, less);
}

-- Where an image is built without an image to start from and `build_delta` returns, its inodes form
-- a layer in which the reader's binary search is right: there is at least one inode, and the inode
-- numbers ascend, no two being equal. The tree has fewer entries than a `u64` counts, less 2, the
-- layer fewer inodes than a `u32` counts, and a `HashMap` gives its values in some order.
pub build_delta-IsLayer :
    (h : HostTree) (blobs : BlobHost) (c : Compression) (verity : VerityData) (image : Image)
    (b : Built)
    → Reorders h
    → entries_in h h.walk + 2 < u64_mod
    → length b.inodes < u32_mod
    → build_delta h blobs c none verity image ≡ ok b
    → IsLayer b.inodes
unfolding build_delta
build_delta-IsLayer h blobs c verity image b reorders small few built =
    let (st, scanned, built1) = >>=-eq-ok (scan h none) _ built in
    let (r, chunked, built2) =
      >>=-eq-ok (process_chunks blobs c (h.stream_cdc st.fs_stream) st.files verity image) _
        built1 in
    let (is, rendered, built3) = >>=-eq-ok (inodes h st r.files) _ built2 in
    let numbered = scan-Numbered h st small scanned in
    let parts = inodes-Rendered h st r.files is rendered in
    let same : is ≡ b.inodes = ap (λ (x : Built). x.inodes) (ok-injective built3) in
    let same_files = process_chunks-bares blobs c _ st.files verity image r chunked in
    let once : (k : Ino) → count number k is ≤ 1 = λ k. omega (
      arith,
      count-inodes h k st r.files is reorders parts,
      count-bares k r.files,
      count-bares k st.files,
      ap (count file_ino k) same_files,
      ap (count number k) numbered.no_whiteouts,
      numbered.once k,
    ) in
    let some_inode = inodes-nonempty h st r.files is reorders numbered.some_dir parts in
    subst IsLayer same (
      layer_of is some_inode (subst (λ l. length l < u32_mod) (sym same) few)
        (inodes-IsSortedBy h st r.files is parts) once)

-- ===== src/Builder/Delta/Resolves.antt =====
-- puzzlefs-lib/src/builder.rs, `build_delta`: each directory entry of an image that is built from
-- scratch names an inode of the image.
use puzzlefs.Prelude.{
  ℕ, ◌+◌, ◌<◌, ◌≡◌, sym, ap, subst, Option, none, some, List, [], ◌∷◌, ◌++◌, arith, u64_mod, All,
  All-append, All-sort, All-weaken, map_values, get_elem?, by_key, count,
}
use puzzlefs.Prelude.Sort.Ascending.{count-here, All-perm}
use puzzlefs.Errors.{
  Result, ok, >>=-eq-ok, ok-injective, traverse, traverse-eq-ok_cons, traverse-eq-ok_nil,
}
use puzzlefs.Format.{Ino, DirEnt, Inode, InodeMode, InodeAdditional, VerityData}
use puzzlefs.Format.Inodes.{Metadata, new_inode, new_dir, new_file, new_other, other_mode}
use puzzlefs.Format.Stack.Layers.{number}
use puzzlefs.Oci.Put.{BlobHost, Compression, Image}
use puzzlefs.Builder.Chunks.{BuildFile, process_chunks}
use puzzlefs.Builder.Chunks.Numbers.{process_chunks-bares}
use puzzlefs.Builder.Tree.{Dir, Other, HostTree}
use puzzlefs.Builder.Delta.{Delta, entries_of, scan, inodes, Built, build_delta}
use puzzlefs.Builder.Delta.Numbers.{file_ino}
use puzzlefs.Builder.Delta.Scan.{entries_in, scan-Numbered}
use puzzlefs.Builder.Delta.Render.{
  Reorders, Rendered, count-bares, inodes-Rendered, count-inodes, only_dir, only_file,
}
use puzzlefs.Builder.Delta.Closed.{Names, Given}
use puzzlefs.Builder.Delta.Closed.Steps.{RootApart, scan-Closed}

-- The entries of the inode, if it is a directory, have such numbers.
abbrev EntriesName : (Ino → Type 0) → Inode → Type 0
EntriesName G i = All (λ (e : DirEnt). G e.ino) (entries_of (some i))

All-traverse {ℓ κ} :
    {A : Type ℓ} {B : Type κ} (P : A → Type 0) (Q : B → Type 0) (f : A → Result B)
    → ((a : A) (b : B) → P a → f a ≡ ok b → Q b)
    → (xs : List A) (ys : List B) → All P xs
    → traverse f xs ≡ ok ys
    → All Q ys
All-traverse P Q f each [] ys h done = subst (All Q) (sym (traverse-eq-ok_nil f ys done)) tt
All-traverse P Q f each (x ∷ xs) ys h done =
    let (y, rest, first, others, made) = traverse-eq-ok_cons f x xs ys done in
    subst (All Q) (sym made) (each x y h.0 first, All-traverse P Q f each xs rest h.1 others)

All-true {ℓ} : {A : Type ℓ} (xs : List A) → All (λ (x : A). Unit {0}) xs
All-true [] = tt
All-true (x ∷ xs) = (tt, All-true xs)

module _ (G : Ino → Type 0) where
  new_dir-EntriesName :
      (d : Dir) (i : Inode)
      → Names G d
      → new_dir d.ino d.md d.dir_list d.additional ≡ ok i
      → EntriesName G i
  unfolding new_dir new_inode entries_of
  new_dir-EntriesName d i names made =
      subst (EntriesName G)
        (only_dir d.md.file_type (new_inode d.ino d.md (InodeMode.dir d.dir_list) d.additional) i
          made)
        names

  new_file-EntriesName :
      (f : BuildFile) (i : Inode)
      → new_file f.ino f.md f.chunks f.additional ≡ ok i
      → EntriesName G i
  unfolding new_file new_inode entries_of
  new_file-EntriesName f i made =
      subst (EntriesName G)
        (only_file f.md.file_type (new_inode f.ino f.md (InodeMode.file f.chunks) f.additional) i
          made)
        tt

  no_entries :
      (md : Metadata) (mode : InodeMode) (ino : Ino) (additional : Option InodeAdditional)
      → other_mode md ≡ ok mode
      → EntriesName G (new_inode ino md mode additional)
  unfolding other_mode new_inode entries_of
  no_entries md (InodeMode.dir dir_list) ino additional e = absurd (ground arith)
  no_entries md (InodeMode.file cs) ino additional e = tt
  no_entries md (InodeMode.chr a b) ino additional e = tt
  no_entries md (InodeMode.blk a b) ino additional e = tt
  no_entries md InodeMode.unknown ino additional e = tt
  no_entries md InodeMode.fifo ino additional e = tt
  no_entries md InodeMode.lnk ino additional e = tt
  no_entries md InodeMode.sock ino additional e = tt
  no_entries md InodeMode.wht ino additional e = tt

  new_other-EntriesName :
      (o : Other) (i : Inode) → new_other o.ino o.md o.additional ≡ ok i → EntriesName G i
  unfolding new_other
  new_other-EntriesName o i made =
      let (mode, known, made1) = >>=-eq-ok (other_mode o.md) _ made in
      subst (EntriesName G) (ok-injective made1) (no_entries o.md mode o.ino o.additional known)

  inodes-EntriesName :
      (h : HostTree) (st : Delta h) (files : List BuildFile) (is : List Inode)
      → Reorders h
      → st.pfs_inodes ≡ []
      → All (Names G) (map_values st.dirs)
      → Rendered h st files is
      → All (EntriesName G) is
  inodes-EntriesName h st files is reorders no_whiteouts names r =
      let ds =
        All-traverse (Names G) (EntriesName G) _ new_dir-EntriesName _ r.ds
          (All-perm (Names G) (reorders (map_values st.dirs)) names) r.dirs_are in
      let fs =
        All-traverse (λ (f : BuildFile). Unit {0}) (EntriesName G) _
          (λ f i _ made. new_file-EntriesName f i made) files r.fs (All-true files) r.files_are in
      let os =
        All-traverse (λ (o : Other). Unit {0}) (EntriesName G) _
          (λ o i _ made. new_other-EntriesName o i made) st.others r.os (All-true st.others)
          r.others_are in
      let whole =
        All-append (EntriesName G) ((st.pfs_inodes ++ r.ds) ++ r.fs) r.os
          (All-append (EntriesName G) (st.pfs_inodes ++ r.ds) r.fs
            (All-append (EntriesName G) st.pfs_inodes r.ds
              (subst (All (EntriesName G)) (sym no_whiteouts) tt) ds)
            fs)
          os in
      subst (All (EntriesName G)) r.sorted (All-sort (by_key number) (EntriesName G) _ whole)

-- An inode of the layer has the number.
abbrev pub IsThere : List Inode → Ino → Type 0
IsThere is ino = (q : ℕ) × (i : Inode) × (get_elem? is q ≡ some i) × (i.ino ≡ ino)

-- Where an image is built without an image to start from and `build_delta` returns, no directory
-- entry dangles: the number of each entry of each directory is that of an inode of the layer, also
-- where the entries are hard links. No entry has the root's inode number on the host, the tree has
-- fewer entries than a `u64` counts, less 2, and a `HashMap` gives its values in some order.
pub build_delta-Resolves :
    (h : HostTree) (root : ℕ) (blobs : BlobHost) (c : Compression) (verity : VerityData)
    (image : Image) (b : Built)
    → Reorders h
    → RootApart h root
    → entries_in h h.walk + 2 < u64_mod
    → build_delta h blobs c none verity image ≡ ok b
    → All
        (λ (i : Inode). All (λ (e : DirEnt). IsThere b.inodes e.ino) (entries_of (some i)))
        b.inodes
unfolding build_delta
build_delta-Resolves h root blobs c verity image b reorders apart small built =
    let (st, scanned, built1) = >>=-eq-ok (scan h none) _ built in
    let (r, chunked, built2) =
      >>=-eq-ok (process_chunks blobs c (h.stream_cdc st.fs_stream) st.files verity image) _
        built1 in
    let (is, rendered, built3) = >>=-eq-ok (inodes h st r.files) _ built2 in
    let closed = scan-Closed h root st apart small scanned in
    let numbered = scan-Numbered h st small scanned in
    let parts = inodes-Rendered h st r.files is rendered in
    let same_files = process_chunks-bares blobs c _ st.files verity image r chunked in
    let there : (k : Ino) → Given h root st k → IsThere is k = λ k given. count-here number k is (
      omega (
        arith,
        given,
        count-inodes h k st r.files is reorders parts,
        count-bares k r.files,
        count-bares k st.files,
        ap (count file_ino k) same_files,
      )) in
    let names =
      inodes-EntriesName (Given h root st) h st r.files is reorders numbered.no_whiteouts
        closed.names parts in
    let same : is ≡ b.inodes = ap (λ (x : Built). x.inodes) (ok-injective built3) in
    subst
      (λ (l : List Inode).
        All (λ (i : Inode). All (λ (e : DirEnt). IsThere l e.ino) (entries_of (some i))) l)
      same
      (All-weaken (EntriesName (Given h root st)) (EntriesName (IsThere is))
        (λ i n.
          All-weaken (λ (e : DirEnt). Given h root st e.ino) (λ (e : DirEnt). IsThere is e.ino)
            (λ e g. there e.ino g) (entries_of (some i)) n)
        is names)

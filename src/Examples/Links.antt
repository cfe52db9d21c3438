-- ===== src/Examples/Links.antt =====
-- A tree with a directory and a hard link: its root's inode number is that of no entry.
use puzzlefs.Prelude.{ℕ, ◌≡◌, ◌≢◌, ap, ◌∙◌, sym, subst, some, List, [], ◌∷◌, Bytes, arith, All}
use mathlib.Core.List.Permᴰ
use puzzlefs.Errors.{Result, ok, ok-injective}
use puzzlefs.Format.{DirEnt, Inode}
use puzzlefs.Format.Inodes.{Metadata, FileType, is_dir, is_file}
use puzzlefs.Oci.Put.{noop}
use puzzlefs.Builder.Tree.{HostPath, HostEntry}
use puzzlefs.Builder.Delta.{entries_of}
use puzzlefs.Builder.Delta.Closed.Steps.{EntryApart, RootApart}
use puzzlefs.Builder.Delta.Resolves.{IsThere, build_delta-Resolves}
use puzzlefs.Examples.Oci.{blob_host}
use puzzlefs.Examples.Trees.{metadata_of, entry, first_tree, built, built-done}

-- The number of the metadata that is read.
host_ino-metadata_of :
    (type : FileType) (n : ℕ) (md : Metadata) → ok (metadata_of type n) ≡ ok md → md.host_ino ≡ n
host_ino-metadata_of type n md known = sym (ap (λ (m : Metadata). m.host_ino) (ok-injective known))

entry-EntryApart :
    (name : Bytes) (type : FileType) (n : ℕ)
    → n ≢ 100
    → EntryApart first_tree 100 (entry name type n)
entry-EntryApart name type n apart md known same =
    apart (sym (host_ino-metadata_of type n md known) ∙ same)

entries-EntryApart :
    (d : HostPath) (es : List (Result HostEntry))
    → first_tree.read_dir d ≡ ok es
    → All (EntryApart first_tree 100) es
entries-EntryApart [] es reads = subst (All (EntryApart first_tree 100)) (ok-injective reads) (
  entry-EntryApart (97 ∷ []) is_dir 101 (omega arith),
  (
    entry-EntryApart (103 ∷ []) is_file 102 (omega arith),
    (entry-EntryApart (102 ∷ []) is_file 102 (omega arith), tt),
  ),
)
entries-EntryApart (d ∷ ds) es reads =
    subst (All (EntryApart first_tree 100)) (ok-injective reads) tt

first_tree-RootApart : RootApart first_tree 100
first_tree-RootApart = (host_ino-metadata_of is_dir 100, entries-EntryApart)

build_delta-Resolves_example :
    All
      (λ (i : Inode). All (λ (e : DirEnt). IsThere built.inodes e.ino) (entries_of (some i)))
      built.inodes
build_delta-Resolves_example =
    build_delta-Resolves first_tree 100 blob_host noop [] (record { blobs = []; layers = [] }) built
      (λ ds. Permᴰ.refl ds) first_tree-RootApart (omega arith) built-done

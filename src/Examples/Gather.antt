-- ===== src/Examples/Gather.antt =====
-- A tree whose files are read, and what the files of the image hold.
use puzzlefs.Prelude.{
  ℕ, ◌≡◌, refl, ap, ◌∙◌, false, Bytes, none, some, List, [], ◌∷◌, length, ◌<◌, arith, map,
  append-nil, subst, All,
}
use puzzlefs.Errors.{Result, ok, ok-injective}
use puzzlefs.Format.{Hash}
use puzzlefs.Format.Inodes.{Metadata, is_dir, is_file}
use puzzlefs.Reader.File.Correct.{concat}
use puzzlefs.Oci.Put.{zstd}
use puzzlefs.Builder.Stream.{ReaderLink}
use puzzlefs.Builder.Chunks.{BuildFile, process_chunks}
use puzzlefs.Builder.Chunks.Correct.{Chunks, read_chunks, AllHeld, BlobOf}
use puzzlefs.Builder.Tree.{HostEntry, HostTree}
use puzzlefs.Builder.Delta.{Delta, scan}
use puzzlefs.Builder.Delta.Contents.{EntryFits, Sizes, unread_link}
use puzzlefs.Builder.Delta.Gathered.{Cuts, scan-FilesHold}
use puzzlefs.Examples.Oci.{blob_host, empty_image}
use puzzlefs.Examples.Builder.{works, addressed}
use puzzlefs.Examples.Trees.{metadata_of, tree_of}

-- Each byte is a chunk.
abbrev ones : Bytes → List Bytes
ones [] = []
ones (b ∷ bs) = (b ∷ []) ∷ ones bs

ones-Chunks : (bs : Bytes) → Chunks (ones bs)
ones-Chunks [] = tt
ones-Chunks (b ∷ bs) = (omega arith, omega arith, ones-Chunks bs)

concat-ones : (bs : Bytes) → concat (ones bs) ≡ bs
concat-ones [] = refl
concat-ones (b ∷ bs) = ap (λ l. b ∷ l) (concat-ones bs)

abbrev entry_of : Bytes → ℕ → HostEntry
entry_of name host_ino = record {
  file_name = name;
  metadata = ok (record (metadata_of is_file host_ino) { size = length name });
}

abbrev entries : List (Result HostEntry)
entries = ok (entry_of (2 ∷ 3 ∷ []) 102) ∷ ok (entry_of (1 ∷ []) 101) ∷ []

-- A file's content is its name; the stream is cut after each byte.
abbrev pub tree : HostTree
tree = record (tree_of (ok [] ∷ []) entries) {
  full_path = λ p. concat p;
  stream_cdc =
      λ stream. read_chunks (ones (concat (map (λ (l : ReaderLink). l.file) stream.reader_chain)));
}

links-paths :
    (paths : List Bytes)
    → map (λ (l : ReaderLink). l.file) (map unread_link paths) ≡ map (λ (p : Bytes). p) paths
links-paths [] = refl
links-paths (p ∷ ps) = ap (λ l. p ∷ l) (links-paths ps)

pub cuts : Cuts tree (λ b. b)
cuts paths = (
  ones (concat (map (λ p. p) paths)),
  ones-Chunks (concat (map (λ p. p) paths)),
  concat-ones (concat (map (λ p. p) paths)),
  ap (λ (l : List Bytes). read_chunks (ones (concat l))) (links-paths paths),
)

fits :
    (name : Bytes) (host_ino : ℕ)
    → length name < 100
    → EntryFits tree (λ b. b) (BlobOf blob_host) [] (ok (entry_of name host_ino))
fits name host_ino short md known file =
    let size : length name ≡ md.size = ap (λ (m : Metadata). m.size) (ok-injective known) in
    (ap length (append-nil name) ∙ size, omega (arith, size))

pub sizes : Sizes tree (λ b. b) (BlobOf blob_host)
sizes [] es reads =
    subst (All (EntryFits tree (λ b. b) (BlobOf blob_host) [])) (ok-injective reads)
      (fits (2 ∷ 3 ∷ []) 102 (omega arith), (fits (1 ∷ []) 101 (omega arith), tt))
sizes (d ∷ ds) es reads =
    subst (All (EntryFits tree (λ b. b) (BlobOf blob_host) (d ∷ ds))) (ok-injective reads) tt

abbrev file_of : ℕ → Bytes → ℕ → BuildFile
file_of ino name host_ino = record {
  ino = ino;
  chunks = [];
  md = record (metadata_of is_file host_ino) { size = length name };
  additional = none;
}

-- What the walk leaves: the files are sorted by their names.
abbrev pub gathered : Delta tree
gathered = record {
  dirs =
      (
        100,
        record {
          ino = 1;
          dir_list = record {
            look_below = false;
            entries =
                record { ino = 2; name = 1 ∷ [] } ∷ record { ino = 3; name = 2 ∷ 3 ∷ [] } ∷ [];
          };
          md = metadata_of is_dir 100;
          additional = none;
        },
      )
      ∷ [];
  files = file_of 2 (1 ∷ []) 101 ∷ file_of 3 (2 ∷ 3 ∷ []) 102 ∷ [];
  others = [];
  pfs_inodes = [];
  fs_stream = record {
    reader_chain =
        record { file = 1 ∷ []; done = false } ∷ record { file = 2 ∷ 3 ∷ []; done = false } ∷ [];
    current_reader = none;
  };
  host_to_pfs = (101, 2) ∷ (102, 3) ∷ [];
  next_ino = 4;
}

pub gathered-scanned : scan tree none ≡ ok gathered
unfolding scan puzzlefs.Format.Verity.bytes_cmp
gathered-scanned = refl

scan-FilesHold_example : AllHeld blob_host ((1 ∷ []) ∷ (2 ∷ 3 ∷ []) ∷ []) (
    process_chunks blob_host zstd
      (some (1 ∷ []) ∷ some (2 ∷ []) ∷ some (3 ∷ []) ∷ [])
      gathered.files
      []
      empty_image)
scan-FilesHold_example =
    scan-FilesHold tree (λ b. b) blob_host zstd none gathered [] empty_image sizes cuts works
      addressed gathered-scanned

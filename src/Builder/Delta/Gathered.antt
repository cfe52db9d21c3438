-- ===== src/Builder/Delta/Gathered.antt =====
-- puzzlefs-lib/src/builder.rs, `build_delta`: the files that the walk gathers, and the chunks that
-- they get.
use puzzlefs.Prelude.{
  ◌≡◌, refl, sym, ap, ◌∙◌, subst, Bool, Bytes, Option, none, some, List, [], ◌∷◌, ◌++◌, map, All,
  All-sort, sort, map_get,
}
use puzzlefs.Errors.{
  traverse-All, Result, ok, err, panic, >>=-eq-ok, ok-injective, ok_or, from_errno, Errno, traverse,
}
use puzzlefs.Format.{Hash, DirEnt, Inode, VerityData}
use puzzlefs.Format.Additional.{new_additional}
use puzzlefs.Oci.Put.{BlobHost, Compression, Image}
use puzzlefs.Oci.Put.Correct.{IsAddressed}
use puzzlefs.Reader.Lookup.{PuzzleFs}
use puzzlefs.Reader.File.Correct.{concat}
use puzzlefs.Builder.Stream as Stream
use puzzlefs.Builder.Stream.{FilesystemStream, ReaderLink}
use puzzlefs.Builder.Chunks.{process_chunks}
use puzzlefs.Builder.Chunks.Correct.{Chunks, read_chunks, BlobOf, AllHeld, process_chunks-FilesHold}
use puzzlefs.Builder.Chunks.Works.{Works}
use puzzlefs.Builder.Tree.{HostPath, HostEntry, HostTree, by_name, rootfs_relative}
use puzzlefs.Builder.Delta.{
  Delta, first_ino, lookup_existing, entries_of, initial, whiteouts, cur_ino, add_dirent,
  add_dirents, add_dir, add_dirs, scan,
}
use puzzlefs.Builder.Delta.Contents.{EntryFits, Sizes, unread_link, Streamed, place_dirent-Streamed}

module _ (h : HostTree) (content : Bytes → Bytes) (P : Hash → Bool → Bytes → Type 0)
    (existing : Option PuzzleFs) where
  cur_ino-Streamed :
      (ex : Option Inode) (st : Delta h)
      → Streamed h content P st
      → Streamed h content P (cur_ino h ex st).1
  unfolding cur_ino
  cur_ino-Streamed none st streamed = streamed
  cur_ino-Streamed (some i) st streamed = streamed

  add_dirents-Streamed :
      (d : HostPath) (es : List HostEntry) (st st' : Delta h)
      → All (λ e. EntryFits h content P d (ok e)) es
      → Streamed h content P st
      → add_dirents h existing d es st ≡ ok st'
      → Streamed h content P st'
  unfolding add_dirents add_dirent
  add_dirents-Streamed d [] st st' fit streamed added =
      subst (Streamed h content P) (ok-injective added) streamed
  add_dirents-Streamed d (e ∷ es) st st' fit streamed added =
      let (st1, first, rest) = >>=-eq-ok (add_dirent h existing d e st) _ added in
      let (md, known, first1) = >>=-eq-ok e.metadata _ first in
      let (ex, _, placed) =
        >>=-eq-ok (lookup_existing existing (rootfs_relative (d ++ e.file_name ∷ []))) _ first1 in
      let streamed1 =
        place_dirent-Streamed h content P d e fit.0 md known (cur_ino h ex st).0 (cur_ino h ex st).1
          st1 (cur_ino-Streamed ex st streamed) placed in
      add_dirents-Streamed d es st1 st' fit.1 streamed1 rest

  whiteouts-Streamed :
      (d : HostPath) (es : List DirEnt) (news : List HostEntry) (st st' : Delta h)
      → Streamed h content P st
      → whiteouts h d es news st ≡ ok st'
      → Streamed h content P st'
  unfolding whiteouts
  whiteouts-Streamed d es news st st' streamed done =
      let (md, _, done1) = >>=-eq-ok (h.symlink_metadata d) _ done in
      let (dir, found, done2) =
        >>=-eq-ok (ok_or (map_get md.host_ino st.dirs) (from_errno Errno.enoent)) _ done1 in
      subst (Streamed h content P) (ok-injective done2) streamed

  add_dir-Streamed :
      (d : HostPath) (st st' : Delta h)
      → Sizes h content P
      → Streamed h content P st
      → add_dir h existing d st ≡ ok st'
      → Streamed h content P st'
  unfolding add_dir
  add_dir-Streamed d st st' sizes streamed added =
      let (ex, _, added0) = >>=-eq-ok (lookup_existing existing (rootfs_relative d)) _ added in
      let (found, reads, added1) = >>=-eq-ok (h.read_dir d) _ added0 in
      let (new_dirents, all, added2) = >>=-eq-ok (traverse (λ e. e) found) _ added1 in
      let news = sort by_name new_dirents in
      let (st1, whites, added3) = >>=-eq-ok (whiteouts h d (entries_of ex) news st) _ added2 in
      let fit =
        traverse-All (EntryFits h content P d) found new_dirents (sizes d found reads) all in
      add_dirents-Streamed d news st1 st' (All-sort by_name _ new_dirents fit)
        (whiteouts-Streamed d (entries_of ex) news st st1 streamed whites) added3

  add_dirs-Streamed :
      (ds : List (Result HostPath)) (st st' : Delta h)
      → Sizes h content P
      → Streamed h content P st
      → add_dirs h existing ds st ≡ ok st'
      → Streamed h content P st'
  unfolding add_dirs
  add_dirs-Streamed [] st st' sizes streamed added =
      subst (Streamed h content P) (ok-injective added) streamed
  add_dirs-Streamed (panic ∷ ds) st st' sizes streamed added = cc
  add_dirs-Streamed (err e ∷ ds) st st' sizes streamed added = cc
  add_dirs-Streamed (ok d ∷ ds) st st' sizes streamed added =
      let (st1, first, rest) = >>=-eq-ok (add_dir h existing d st) _ added in
      add_dirs-Streamed ds st1 st' sizes (add_dir-Streamed d st st1 sizes streamed first) rest

  pub scan-Streamed :
      (st : Delta h) → Sizes h content P → scan h existing ≡ ok st → Streamed h content P st
  unfolding scan initial Stream.new
  scan-Streamed st sizes scanned =
      let (next, _, scanned1) = >>=-eq-ok (first_ino existing) _ scanned in
      let (st0, started, rest) = >>=-eq-ok (initial h next) _ scanned1 in
      let (md, _, made1) = >>=-eq-ok (h.symlink_metadata []) _ started in
      let (additional, _, made2) =
        >>=-eq-ok (new_additional h.attributes (h.full_path []) md) _ made1 in
      add_dirs-Streamed h.walk st0 st sizes
        (subst (Streamed h content P) (ok-injective made2) ([], refl, refl, tt)) rest

-- What the code relies on of the chunker: of a stream of files that are not read yet it gives their
-- bytes, in order, in chunks that have data.
abbrev pub Cuts : (h : HostTree) → (Bytes → Bytes) → Type 0
Cuts h content =
    (paths : List Bytes)
    → (chunks : List Bytes) × (Chunks chunks)
      × (concat chunks ≡ concat (map content paths))
      × (h.stream_cdc (record { reader_chain = map unread_link paths; current_reader = none })
          ≡ read_chunks chunks)

pub content-links :
    (content : Bytes → Bytes) (paths : List Bytes)
    → map (λ (l : ReaderLink). content l.file) (map unread_link paths) ≡ map content paths
content-links content [] = refl
content-links content (p ∷ ps) = ap (λ l. content p ∷ l) (content-links content ps)

-- Where a tree is read without error, over an image or from scratch, its regular files have the
-- sizes that their metadata says, the chunker gives the bytes of the files in chunks, and the
-- compressor and the file system do what they are asked for, `process_chunks` returns on the files
-- that were gathered: each has the chunks that name, in blobs, the parts that make up the content of
-- the file that stands at the same place in the stream. The blob of every chunk is in the image, and
-- every blob of the image is stored under the digest of its content.
pub scan-FilesHold :
    (h : HostTree) (content : Bytes → Bytes) (blobs : BlobHost) (c : Compression)
    (existing : Option PuzzleFs) (st : Delta h) (verity : VerityData) (image : Image)
    → Sizes h content (BlobOf blobs)
    → Cuts h content
    → Works blobs
    → IsAddressed blobs image.blobs
    → scan h existing ≡ ok st
    → AllHeld blobs
        (map (λ l. content l.file) st.fs_stream.reader_chain)
        (process_chunks blobs c (h.stream_cdc st.fs_stream) st.files verity image)
scan-FilesHold h content blobs c existing st verity image sizes cuts works addressed scanned =
    let (paths, links, reader, fresh) =
      scan-Streamed h content (BlobOf blobs) existing st sizes scanned in
    let (chunks, fit, whole, cut) = cuts paths in
    let stream : st.fs_stream
        ≡ record { reader_chain = map unread_link paths; current_reader = none } =
      ap
        (λ (l : List ReaderLink). record {
          reader_chain = l;
          current_reader = st.fs_stream.current_reader;
        })
        links
      ∙ ap
          (λ (r : Option h.file_system.File). record {
            reader_chain = map unread_link paths;
            current_reader = r;
          })
          reader in
    let contents : map (λ (l : ReaderLink). content l.file) st.fs_stream.reader_chain
        ≡ map content paths =
      ap (map (λ (l : ReaderLink). content l.file)) links ∙ content-links content paths in
    subst
      (λ (s : List (Option Bytes)).
        AllHeld blobs (map (λ (l : ReaderLink). content l.file) st.fs_stream.reader_chain)
          (process_chunks blobs c s st.files verity image))
      (sym (ap h.stream_cdc stream ∙ cut))
      (subst
        (λ (bs : List Bytes).
          AllHeld blobs bs (process_chunks blobs c (read_chunks chunks) st.files verity image))
        (sym contents)
        (process_chunks-FilesHold blobs c chunks st.files (map content paths) verity image works
          addressed fit fresh whole))

-- ===== src/Builder/Delta.antt =====
-- puzzlefs-lib/src/builder.rs, `build_delta`: the inodes of a directory tree, as a layer over the
-- image that is there.
pub mod Parts
pub mod Numbers
pub mod Scan
pub mod Render
pub mod Layer
pub mod Contents
pub mod Gathered
pub mod ReadBack
pub mod Closed
pub mod Resolves
use puzzlefs.Prelude.{
  ℕ, ◌==◌, not, Bool, true, false, Bytes, bytes_eq, Option, none, some, List, [], ◌∷◌, ◌++◌, map,
  if◌then◌else◌, add64, map_get, map_insert, map_modify, map_values, sort, by_key,
}
use puzzlefs.Errors.{
  Result, ok, err, panic, ◌>>=◌, ◌>>◌, ok_or, from_errno, Errno, io_error, traverse,
}
use puzzlefs.Format.{Ino, DirEnt, DirList, Inode, InodeMode, InodeAdditional, VerityData}
use puzzlefs.Format.Inodes.{
  FileType, is_dir, is_file, Metadata, new_dir, new_file, new_other, new_whiteout,
}
use puzzlefs.Format.Additional.{new_additional}
use puzzlefs.Oci.Put.{BlobHost, Compression, Image}
use puzzlefs.Reader.Lookup.{PuzzleFs, Component, lookup}
use puzzlefs.Builder.Stream as Stream
use puzzlefs.Builder.Stream.{FilesystemStream}
use puzzlefs.Builder.Chunks.{BuildFile, Chunked, process_chunks}
use puzzlefs.Builder.Tree.{
  HostPath, HostEntry, Dir, Other, HostTree, add_entry, rootfs_relative, by_name,
}

abbrev pub empty_dir_list : DirList
empty_dir_list = record { look_below = false; entries = [] }

-- `existing.map(|pfs| pfs.max_inode().map(|i| i + 1)).unwrap_or_else(|| Ok(2))`
unfoldable pub first_ino : Option PuzzleFs → Result Ino
unfolding add64
first_ino none = ok 2
first_ino (some pfs) = do i ← pfs.max_inode; ok (add64 i 1)

unfoldable pub lookup_existing : Option PuzzleFs → List Component → Result (Option Inode)
unfolding lookup
lookup_existing none p = ok none
lookup_existing (some pfs) p = lookup pfs p

-- The entries that a directory of the image has; none for a file or a missing path.
unfoldable pub entries_of : Option Inode → List DirEnt
entries_of none = []
entries_of (some ex) = elim ex.mode [ InodeMode.dir dir_list ↦ dir_list.entries | _ ↦ [] ]

-- `new_dirents.iter().any(..)`
unfoldable pub is_there : Bytes → List HostEntry → Bool
unfolding bytes_eq
is_there name [] = false
is_there name (new ∷ news) =
    let rest = is_there name news in if bytes_eq new.file_name name then true else rest

module _ (h : HostTree) where
  -- The variables of `build_delta` that its loops change.
  pub record Delta : Type 0 where
    pub dirs : List (ℕ × Dir)
    pub files : List BuildFile
    pub others : List Other
    pub pfs_inodes : List Inode
    pub fs_stream : FilesystemStream h.file_system
    pub host_to_pfs : List (ℕ × Ino)
    pub next_ino : Ino

  -- Before the loop over the directories: the root has the number 1.
  unfoldable pub initial : Ino → Result Delta
  unfolding map_insert new_additional Stream.new
  initial next = do
    root_metadata ← h.symlink_metadata []
    root_additional ← new_additional h.attributes (h.full_path []) root_metadata
    ok (record {
      dirs =
          map_insert root_metadata.host_ino
            (record {
              ino = 1;
              dir_list = empty_dir_list;
              md = root_metadata;
              additional = root_additional;
            })
            [];
      files = [];
      others = [];
      pfs_inodes = [];
      fs_stream = Stream.new h.file_system;
      host_to_pfs = [];
      next_ino = next;
    })

  -- `this_dir.add_entry` and `pfs_inodes.push`, for each entry of the image that is gone.
  unfoldable pub add_whiteouts : List DirEnt → List HostEntry → Dir × List Inode → Dir × List Inode
  unfolding is_there add_entry new_whiteout
  add_whiteouts [] news acc = acc
  add_whiteouts (e ∷ es) news (this_dir, inodes) =
      if is_there e.name news
      then add_whiteouts es news (this_dir, inodes)
      else add_whiteouts es news
          (add_entry e.name e.ino this_dir, inodes ++ new_whiteout e.ino ∷ [])

  -- The whiteouts of one directory.
  unfoldable pub whiteouts : HostPath → List DirEnt → List HostEntry → Delta → Result Delta
  unfolding add_whiteouts map_get map_insert from_errno
  whiteouts d existing_dirents news st = do
    this_metadata ← h.symlink_metadata d
    this_dir ← ok_or (map_get this_metadata.host_ino st.dirs) (from_errno Errno.enoent)
    let (this_dir', inodes) = add_whiteouts existing_dirents news (this_dir, st.pfs_inodes)
    ok (record st {
      dirs = map_insert this_metadata.host_ino this_dir' st.dirs;
      pfs_inodes = inodes;
    })

  -- The number of an entry: that of the inode in the image, or the next one.
  unfoldable pub cur_ino : Option Inode → Delta → Ino × Delta
  unfolding add64
  cur_ino (some ex) st = (ex.ino, st)
  cur_ino none st = (st.next_ino, record st { next_ino = add64 st.next_ino 1 })

  -- `if md.is_dir() { .. } else if md.is_file() { .. } else { .. }`
  unfoldable pub gather :
      HostPath → HostEntry → Metadata → Ino → Option InodeAdditional → FileType → Delta → Delta
  unfolding map_insert Stream.push
  gather d e md ino additional is_dir st =
      let new : Dir = record {
        ino = ino;
        dir_list = empty_dir_list;
        md = md;
        additional = additional;
      } in
      record st { dirs = map_insert md.host_ino new st.dirs }
  gather d e md ino additional is_file st =
      let new : BuildFile = record { ino = ino; chunks = []; md = md; additional = additional } in
      record st {
        fs_stream = Stream.push h.file_system (h.full_path (d ++ e.file_name ∷ [])) st.fs_stream;
        files = st.files ++ new ∷ [];
      }
  gather d e md ino additional _ st =
      let new : Other = record { ino = ino; md = md; additional = additional } in
      record st { others = st.others ++ new ∷ [] }

  -- The inode, as much of it as is known, for an entry that is not rendered yet.
  unfoldable pub render : HostPath → HostEntry → Metadata → Ino → Delta → Result Delta
  unfolding map_insert new_additional gather
  render d e md ino st = do
    additional ← new_additional h.attributes (h.full_path (d ++ e.file_name ∷ [])) md
    ok (
        gather d e md ino additional md.file_type
          (record st { host_to_pfs = map_insert md.host_ino ino st.host_to_pfs }))

  -- The entry is put in its directory, under the number that a hard link to it has already.
  unfoldable pub add_to_parent : HostPath → HostEntry → Metadata → Ino → Delta → Result Delta
  unfolding map_get map_modify add_entry
  add_to_parent d e md ino st = do
    let the_ino : Ino = elim (map_get md.host_ino st.host_to_pfs) [
      | none ↦ ino
      | some rendered ↦ rendered
    ]
    parent_md ← h.symlink_metadata d
    dirs ←
        ok_or (map_modify parent_md.host_ino (add_entry e.file_name the_ino) st.dirs)
          (io_error none)
    ok (record st { dirs = dirs })

  -- `if host_to_pfs.contains_key(&md.ino()) { continue; }`
  unfoldable pub unless_rendered : HostPath → HostEntry → Metadata → Ino → Delta → Result Delta
  unfolding render map_get
  unless_rendered d e md ino st = elim (map_get md.host_ino st.host_to_pfs) [
    | some rendered ↦ ok st
    | none ↦ render d e md ino st
  ]

  -- `if cur_ino != 1 { .. }` and what follows it.
  unfoldable pub place_dirent : HostPath → HostEntry → Metadata → Ino → Delta → Result Delta
  unfolding render add_to_parent unless_rendered
  place_dirent d e md ino st = elim (ino == 1) [
    | true ↦ render d e md ino st
    | false ↦ do st' ← add_to_parent d e md ino st; unless_rendered d e md ino st'
  ]

  -- One entry of a directory.
  unfoldable pub add_dirent : Option PuzzleFs → HostPath → HostEntry → Delta → Result Delta
  unfolding lookup_existing rootfs_relative cur_ino place_dirent
  add_dirent existing d e st = do
    md ← e.metadata
    existing_inode ← lookup_existing existing (rootfs_relative (d ++ e.file_name ∷ []))
    let (ino, st') = cur_ino existing_inode st
    place_dirent d e md ino st'

  unfoldable pub add_dirents : Option PuzzleFs → HostPath → List HostEntry → Delta → Result Delta
  unfolding add_dirent
  add_dirents existing d [] st = ok st
  add_dirents existing d (e ∷ es) st = do
    st' ← add_dirent existing d e st
    add_dirents existing d es st'

  -- One directory of the walk.
  unfoldable pub add_dir : Option PuzzleFs → HostPath → Delta → Result Delta
  unfolding lookup_existing rootfs_relative entries_of traverse sort whiteouts add_dirents
  add_dir existing d st = do
    ex ← lookup_existing existing (rootfs_relative d)
    listed ← h.read_dir d
    new_dirents ← traverse (λ e. e) listed
    let news = sort by_name new_dirents
    st1 ← whiteouts d (entries_of ex) news st
    add_dirents existing d news st1

  unfoldable pub add_dirs : Option PuzzleFs → List (Result HostPath) → Delta → Result Delta
  unfolding add_dir
  add_dirs existing [] st = ok st
  add_dirs existing (dir ∷ ds) st = do
    d ← dir
    st' ← add_dir existing d st
    add_dirs existing ds st'

  -- `build_delta` up to the chunks: the directory tree is read.
  unfoldable pub scan : Option PuzzleFs → Result Delta
  unfolding first_ino initial add_dirs
  scan existing = do next ← first_ino existing; st ← initial next; add_dirs existing h.walk st

  -- The inodes, by their numbers.
  unfoldable pub inodes : Delta → List BuildFile → Result (List Inode)
  unfolding new_dir new_file new_other traverse sort
  inodes st files = do
    dirs ←
        traverse (λ (d : Dir). new_dir d.ino d.md d.dir_list d.additional)
          (h.into_values (map_values st.dirs))
    fs ← traverse (λ (f : BuildFile). new_file f.ino f.md f.chunks f.additional) files
    os ← traverse (λ (o : Other). new_other o.ino o.md o.additional) st.others
    ok (sort (by_key (λ (i : Inode). i.ino)) (((st.pfs_inodes ++ dirs) ++ fs) ++ os))

-- What `build_delta` returns, and the verity data and the image that it changes.
pub record Built : Type 0 where
  pub inodes : List Inode
  pub verity_data : VerityData
  pub image : Image

unfoldable pub build_delta :
    (h : HostTree) → BlobHost → Compression → Option PuzzleFs → VerityData → Image → Result Built
unfolding scan inodes process_chunks
build_delta h blobs c existing verity_data image = do
  st ← scan h existing
  r ← process_chunks blobs c (h.stream_cdc st.fs_stream) st.files verity_data image
  is ← inodes h st r.files
  ok (record { inodes = is; verity_data = r.verity_data; image = r.image })

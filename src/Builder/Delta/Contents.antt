-- ===== src/Builder/Delta/Contents.antt =====
-- puzzlefs-lib/src/builder.rs, `build_delta`: the stream that is cut into chunks is that of the files
-- that were gathered, in their order.
use puzzlefs.Prelude.{
  ◌<◌, ◌≡◌, refl, sym, ap, ◌∙◌, subst, ◌==◌, Bool, false, Bytes, Bool-cases, Option-cases, inl, inr,
  Option, none, List, [], ◌∷◌, ◌++◌, map, All, length, u64_mod, map_get, map_insert,
}
use puzzlefs.Errors.{Result, ok, ◌>>=◌, >>=-eq-ok, ok-injective}
use puzzlefs.Format.{Hash, Ino, InodeAdditional}
use puzzlefs.Format.Inodes.{FileType, is_dir, is_file, Metadata}
use puzzlefs.Builder.Stream as Stream
use puzzlefs.Builder.Stream.{ReaderLink}
use puzzlefs.Builder.Chunks.{BuildFile}
use puzzlefs.Builder.Chunks.Holds.{Fresh}
use puzzlefs.Builder.Tree.{HostPath, HostEntry, HostTree}
use puzzlefs.Builder.Delta.{Delta, gather, render, add_to_parent, unless_rendered, place_dirent}
use puzzlefs.Builder.Delta.Parts.{render-gather, add_to_parent-eq-ok}

-- As `push` adds it.
abbrev pub unread_link : Bytes → ReaderLink
unread_link path = record { file = path; done = false }

module _ (h : HostTree) (content : Bytes → Bytes) (P : Hash → Bool → Bytes → Type 0) where
  -- A regular file has as many bytes as its metadata says, and they can be counted.
  abbrev pub EntryFits : HostPath → Result HostEntry → Type 0
  EntryFits d (ok e) =
      (md : Metadata)
      → e.metadata ≡ ok md
      → md.file_type ≡ is_file
      → (length (content (h.full_path (d ++ e.file_name ∷ []))) ≡ md.size) × (md.size < u64_mod)
  EntryFits d _ = Unit

  abbrev pub Sizes : Type 0
  Sizes =
      (d : HostPath) (es : List (Result HostEntry)) → h.read_dir d ≡ ok es → All (EntryFits d) es

  -- The files are those of the stream, in order, and have no chunks yet.
  abbrev pub Streamed : Delta h → Type 0
  Streamed st =
      (paths : List Bytes) × (st.fs_stream.reader_chain ≡ map unread_link paths)
      × (st.fs_stream.current_reader ≡ none)
      × Fresh P st.files (map content paths)

  Fresh-append :
      (fs : List BuildFile) (f : BuildFile) (bs : List Bytes) (b : Bytes)
      → Fresh P fs bs
      → length b ≡ f.md.size
      → f.md.size < u64_mod
      → f.chunks ≡ []
      → Fresh P (fs ++ f ∷ []) (bs ++ b ∷ [])
  Fresh-append [] f [] b fresh size small empty = (size, small, empty, tt)
  Fresh-append [] f (c ∷ bs) b fresh size small empty = absurd fresh
  Fresh-append (g ∷ fs) f [] b fresh size small empty = absurd fresh
  Fresh-append (g ∷ fs) f (c ∷ bs) b fresh size small empty =
      (fresh.0, fresh.1, fresh.2, Fresh-append fs f bs b fresh.3 size small empty)

  map_append_one {ℓ κ} :
      {A : Type ℓ} {B : Type κ} (f : A → B) (xs : List A) (x : A)
      → map f (xs ++ x ∷ []) ≡ map f xs ++ f x ∷ []
  map_append_one f [] x = refl
  map_append_one f (y ∷ xs) x = ap (λ l. f y ∷ l) (map_append_one f xs x)

  gather-Streamed :
      (d : HostPath) (e : HostEntry) (md : Metadata) (ino : Ino)
      (additional : Option InodeAdditional) (type : FileType) (st : Delta h)
      → (type ≡ is_file
          → (length (content (h.full_path (d ++ e.file_name ∷ []))) ≡ md.size)
            × (md.size < u64_mod))
      → Streamed st
      → Streamed (gather h d e md ino additional type st)
  unfolding gather Stream.push
  gather-Streamed d e md ino additional is_dir st fits streamed = streamed
  gather-Streamed d e md ino additional is_file st fits (paths, links, reader, fresh) =
      let path = h.full_path (d ++ e.file_name ∷ []) in
      let (size, small) = fits refl in
      let new : BuildFile = record { ino = ino; chunks = []; md = md; additional = additional } in
      (
        paths ++ path ∷ [],
        ap (λ l. l ++ unread_link path ∷ []) links ∙ sym (map_append_one unread_link paths path),
        reader,
        subst (Fresh P (st.files ++ new ∷ [])) (sym (map_append_one content paths path))
            (Fresh-append st.files new (map content paths) (content path) fresh size small refl),
      )
  gather-Streamed d e md ino additional _ st fits streamed = streamed

  module _ (d : HostPath) (e : HostEntry) (fits : EntryFits d (ok e)) (md : Metadata)
      (known : e.metadata ≡ ok md) (ino : Ino) where
    render-Streamed :
        (st st' : Delta h) → Streamed st → render h d e md ino st ≡ ok st' → Streamed st'
    render-Streamed st st' streamed rendered =
        let (additional, made) = render-gather h d e md ino st st' rendered in
        subst Streamed made (
          gather-Streamed d e md ino additional md.file_type
            (record st { host_to_pfs = map_insert md.host_ino ino st.host_to_pfs }) (fits md known)
            streamed)

    unless_rendered-Streamed :
        (st st' : Delta h) → Streamed st → unless_rendered h d e md ino st ≡ ok st' → Streamed st'
    unfolding unless_rendered
    unless_rendered-Streamed st st' streamed placed =
        elim (Option-cases (map_get md.host_ino st.host_to_pfs)) [
          | inl fresh ↦
              let rendered : render h d e md ino st ≡ ok st' =
                rw (unless_rendered, fresh) at placed in
              render-Streamed st st' streamed rendered
          | inr (ino', there) ↦
              let same : ok st ≡ ok st' = rw (unless_rendered, there) at placed in
              subst Streamed (ok-injective same) streamed
        ]

    pub place_dirent-Streamed :
        (st st' : Delta h) → Streamed st → place_dirent h d e md ino st ≡ ok st' → Streamed st'
    unfolding place_dirent
    place_dirent-Streamed st st' streamed placed = elim (Bool-cases (ino == 1)) [
      | inl root ↦
          let rendered : render h d e md ino st ≡ ok st' = rw (place_dirent, root) at placed in
          render-Streamed st st' streamed rendered
      | inr other ↦
          let placed' : (add_to_parent h d e md ino st >>= λ s. unless_rendered h d e md ino s)
              ≡ ok st' =
            rw (place_dirent, other) at placed in
          let (st1, parent, rest) = >>=-eq-ok (add_to_parent h d e md ino st) _ placed' in
          let (j, dirs', _, made) = add_to_parent-eq-ok h d e md ino st st1 parent in
          unless_rendered-Streamed st1 st' (subst Streamed made streamed) rest
    ]

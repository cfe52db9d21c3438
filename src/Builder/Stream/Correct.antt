-- ===== src/Builder/Stream/Correct.antt =====
-- puzzlefs-lib/src/builder/filesystem.rs: reading the stream gives the files' bytes in order.
use puzzlefs.Prelude.{
  ℕ, zero, suc, ◌<◌, ◌≤◌, ◌≡◌, refl, sym, ap, subst, ◌∙◌, true, false, Bytes, Option, none, some,
  List, [], ◌∷◌, ◌++◌, length, length-append, append-nil, append_assoc, arith, map, Bool-cases, inl,
  inr, ◌==◌,
}
use puzzlefs.Errors.{Result, ok}
use puzzlefs.Reader.File.Correct.{concat}
use puzzlefs.Builder.Stream.{
  ReaderLink, FileSystem, FilesystemStream, new, push, current, Outcome, after_read, read_links,
  read_stream, and_then, read_to_end,
}

module _ (fs : FileSystem) (content : Bytes → Bytes) (unread : fs.File → Bytes) where
  -- What the code relies on of the operating system: a file opens at its start; a read gives some
  -- of the bytes that are left, no more than fit the buffer, and none only at the end of the file or
  -- into an empty buffer.
  abbrev pub Reads : Type 0
  Reads =
      ((path : Bytes) → (f : fs.File) × (fs.open_file path ≡ ok f) × (unread f ≡ content path))
      × ((f : fs.File) (buf : ℕ)
          → (f' : fs.File) × (out : Bytes) × (fs.read f buf ≡ ok (f', out))
            × (unread f ≡ out ++ unread f')
            × (length out ≤ buf)
            × (out ≡ [] → 0 < buf → unread f ≡ []))

  -- The bytes that the stream has still to give.
  abbrev pub left : List ReaderLink → Option fs.File → Bytes
  left [] reader = []
  left (link ∷ links) reader = elim link.done [
    | true ↦ left links reader
    | false ↦ (elim reader [ none ↦ content link.file | some f ↦ unread f ]) ++ left links none
  ]

  abbrev pub remaining : FilesystemStream fs → Bytes
  remaining stream = left stream.reader_chain stream.current_reader

  -- A read gave a part of what was left, which is empty only if nothing was.
  abbrev pub Served : ℕ → Bytes → Outcome fs → Type 0
  Served buf before outcome =
      (out : Bytes) × (outcome.1 ≡ ok out)
      × (before ≡ out ++ remaining outcome.0)
      × (length out ≤ buf)
      × (out ≡ [] → before ≡ [])

  current-opened :
      (reader : Option fs.File) (path : Bytes)
      → Reads
      → (f : fs.File) × (current fs reader path ≡ ok f)
        × ((elim reader [ none ↦ content path | some g ↦ unread g ]) ≡ unread f)
  unfolding current
  current-opened none path reads = let (f, opened, whole) = reads.0 path in (f, opened, sym whole)
  current-opened (some f) path reads = (f, refl, refl)

  -- A read of an open file serves, when the links after it do.
  after_read-Served :
      (buf : ℕ) (path : Bytes) (links : List ReaderLink) (before : Bytes) (f' : fs.File)
      (out : Bytes) (next : Outcome fs)
      → 0 < buf
      → before ≡ out ++ unread f'
      → length out ≤ buf
      → (out ≡ [] → before ≡ [])
      → Served buf (left links none) next
      → Served buf
          (before ++ left links none)
          (after_read fs (record { file = path; done = false }) links buf f' out next)
  after_read-Served buf path links before f' [] next room split fits ended served =
      let (out, result, split', fits', ended') = served in
      let full : (buf == 0) ≡ false = ground arith in
      let empty : before ≡ [] = ended refl in
      rw (after_read, full, empty) (out, result, split', fits', ended')
  after_read-Served buf path links before f' (b ∷ bs) next room split fits ended served =
      let some_out : (length (b ∷ bs) == 0) ≡ false = ground arith in
      let parts = append_assoc (b ∷ bs) (unread f') (left links none) in
      rw (after_read, some_out) (b ∷ bs, refl, rw split parts, fits, λ none_read. cc)

  fresh_link-Served :
      (buf : ℕ) (path : Bytes) (links : List ReaderLink) (reader : Option fs.File)
      → Reads
      → 0 < buf
      → Served buf (left links none) (read_links fs buf links none)
      → Served buf
          (left (record { file = path; done = false } ∷ links) reader)
          (read_links fs buf (record { file = path; done = false } ∷ links) reader)
  unfolding read_links
  fresh_link-Served buf path links reader reads room next =
      let (f, opened, whole) = current-opened reader path reads in
      let (f', out, gave, split, fits, ended) = reads.1 f buf in
      let served =
        after_read-Served buf path links (unread f) f' out (read_links fs buf links none) room split
          fits (λ e. ended e room) next in
      rw (read_links, opened, gave, whole) served

  read_links-Served :
      (buf : ℕ) (links : List ReaderLink) (reader : Option fs.File)
      → Reads
      → 0 < buf
      → Served buf (left links reader) (read_links fs buf links reader)
  unfolding read_links
  read_links-Served buf [] reader reads room = ([], refl, refl, omega arith, λ _. refl)
  read_links-Served buf (link ∷ links) reader reads room = elim (Bool-cases link.done) [
    | inl done ↦
        let (out, result, split, fits, ended) = read_links-Served buf links reader reads room in
        (out, rw (done, result), rw (done, split), fits, rw done ended)
    | inr fresh ↦
        let same : link ≡ record { file = link.file; done = false } =
          ap (λ d. record { file = link.file; done = d }) fresh in
        let next = read_links-Served buf links none reads room in
        subst (λ l. Served buf (left (l ∷ links) reader) (read_links fs buf (l ∷ links) reader))
          (sym same) (fresh_link-Served buf link.file links reader reads room next)
  ]

  -- Into a buffer that is not empty, a call of `read` on the stream gives the next bytes of what is
  -- left of the files, at most as many as the buffer holds, and leaves the others; it gives none
  -- only if nothing is left. Every file can be opened and read.
  pub read_stream-Served :
      (buf : ℕ) (stream : FilesystemStream fs)
      → Reads
      → 0 < buf
      → (out : Bytes) × ((read_stream fs buf stream).1 ≡ ok out)
        × (remaining stream ≡ out ++ remaining (read_stream fs buf stream).0)
        × (length out ≤ buf)
        × (out ≡ [] → remaining stream ≡ [])
  unfolding read_stream
  read_stream-Served buf stream reads room =
      read_links-Served buf stream.reader_chain stream.current_reader reads room

  to_end_step :
      (before out after : Bytes) (rest : Option (Result Bytes))
      → before ≡ out ++ after
      → (out ≡ [] → before ≡ [])
      → (0 < length out → rest ≡ some (ok after))
      → ◌≡◌ {A = Option (Result Bytes)}
          (elim out [ [] ↦ some (ok []) | b ∷ bs ↦ and_then fs (b ∷ bs) rest ])
          (some (ok before))
  to_end_step before [] after rest split ended more = rw (ended refl)
  to_end_step before (b ∷ bs) after rest split ended more = rw (more (omega arith), split)

  read_to_end-remaining :
      (fuel buf : ℕ) (stream : FilesystemStream fs)
      → Reads
      → 0 < buf
      → length (remaining stream) < fuel
      → read_to_end fs fuel buf stream ≡ some (ok (remaining stream))
  unfolding read_to_end
  read_to_end-remaining zero buf stream reads room enough = absurd (omega arith)
  read_to_end-remaining (suc fuel) buf stream reads room enough =
      let (out, result, split, fits, ended) = read_stream-Served buf stream reads room in
      let stream' = (read_stream fs buf stream).0 in
      let lengths = ap length split ∙ length-append out (remaining stream') in
      rw (read_to_end, result)
        (to_end_step (remaining stream) out (remaining stream') (read_to_end fs fuel buf stream')
          split ended (λ some_out. read_to_end-remaining fuel buf stream' reads room (omega arith)))

  -- `FilesystemStream::new` and a `push` of each path.
  abbrev pub pushed : List Bytes → FilesystemStream fs → FilesystemStream fs
  pushed [] stream = stream
  pushed (path ∷ paths) stream = pushed paths (push fs path stream)

  left-pushed :
      (links : List ReaderLink) (paths : List Bytes)
      → left (links ++ map (λ path. record { file = path; done = false }) paths) none
        ≡ left links none ++ concat (map content paths)
  left-pushed [] [] = refl
  left-pushed [] (path ∷ paths) = rw (left-pushed [] paths)
  left-pushed (link ∷ links) paths = elim (Bool-cases link.done) [
    | inl done ↦ rw done (left-pushed links paths)
    | inr fresh ↦
        rw (fresh, left-pushed links paths)
          (sym (append_assoc (content link.file) (left links none) (concat (map content paths))))
  ]

  pushed-links :
      (paths : List Bytes) (stream : FilesystemStream fs)
      → ((pushed paths stream).current_reader ≡ stream.current_reader)
        × ((pushed paths stream).reader_chain
            ≡ stream.reader_chain ++ map (λ path. record { file = path; done = false }) paths)
  unfolding push
  pushed-links [] stream = (refl, sym (append-nil stream.reader_chain))
  pushed-links (path ∷ paths) stream =
      let (reader, links) = pushed-links paths (push fs path stream) in
      (reader, links ∙ append_assoc stream.reader_chain _ _)

  -- A stream to which the paths of some files were pushed gives, to a reader that calls `read` with
  -- a buffer that is not empty until it gets no byte, the contents of the files in the order of the
  -- paths, and the reader ends: it needs at most one call for each byte and a last one. Every file
  -- can be opened and read.
  pub read_to_end-concat :
      (paths : List Bytes) (fuel buf : ℕ)
      → Reads
      → 0 < buf
      → length (concat (map content paths)) < fuel
      → read_to_end fs fuel buf (pushed paths (new fs)) ≡ some (ok (concat (map content paths)))
  unfolding new
  read_to_end-concat paths fuel buf reads room enough =
      let (reader, links) = pushed-links paths (new fs) in
      let whole : remaining (pushed paths (new fs)) ≡ concat (map content paths) =
        rw (reader, links) (left-pushed [] paths) in
      let enough' : length (remaining (pushed paths (new fs))) < fuel = rw whole enough in
      read_to_end-remaining fuel buf (pushed paths (new fs)) reads room enough' ∙ rw whole

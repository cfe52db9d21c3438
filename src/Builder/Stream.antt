-- ===== src/Builder/Stream.antt =====
-- puzzlefs-lib/src/builder/filesystem.rs: the files of the image, read one after the other as one
-- stream.
pub mod Correct
use puzzlefs.Prelude.{
  ℕ, zero, suc, ◌==◌, ◌&&◌, not, Bool, true, false, Bytes, Option, none, some, List, [], ◌∷◌, ◌++◌,
  length,
}
use puzzlefs.Errors.{Result, ok, err, panic, ◌>>=◌}

pub record ReaderLink : Type 0 where
  pub file : Bytes
  pub done : Bool

-- `std::fs::File`: opening a path, and reading into a buffer of so many bytes. The path holds the
-- same file for as long as the stream is read.
pub record FileSystem : Type 1 where
  pub File : Type 0
  pub open_file : Bytes → Result File
  pub read : File → ℕ → Result (File × Bytes)

module _ (fs : FileSystem) where
  pub record FilesystemStream : Type 0 where
    pub reader_chain : List ReaderLink
    pub current_reader : Option fs.File

  unfoldable pub new : FilesystemStream
  new = record { reader_chain = []; current_reader = none }

  unfoldable pub push : Bytes → FilesystemStream → FilesystemStream
  push path stream = record stream {
    reader_chain = stream.reader_chain ++ record { file = path; done = false } ∷ [];
  }

  -- `Some(reader) => reader, None => self.current_reader.insert(File::open(&link.file)?)`
  unfoldable pub current : Option fs.File → Bytes → Result fs.File
  current (some reader) path = ok reader
  current none path = fs.open_file path

  -- What the call leaves behind, and what it returns.
  abbrev pub Outcome : Type 0
  Outcome = FilesystemStream × Result Bytes

  abbrev pub behind : ReaderLink → Outcome → Outcome
  behind link (stream, result) =
      (record stream { reader_chain = link ∷ stream.reader_chain }, result)

  -- After `current_reader.read(buf)`: an empty read closes the file, unless the buffer is empty.
  abbrev pub after_read : ReaderLink → List ReaderLink → ℕ → fs.File → Bytes → Outcome → Outcome
  after_read link links buf reader out next = elim (length out == 0 && not (buf == 0)) [
    | true ↦ behind (record link { done = true }) next
    | false ↦ (record { reader_chain = link ∷ links; current_reader = some reader }, ok out)
  ]

  -- The `for` loop over the links.
  unfoldable pub read_links : ℕ → List ReaderLink → Option fs.File → Outcome
  unfolding current
  read_links buf [] reader = (record { reader_chain = []; current_reader = reader }, ok [])
  read_links buf (link ∷ links) reader = elim link.done [
    | true ↦ behind link (read_links buf links reader)
    | false ↦ elim (current reader link.file) [
      | panic ↦ (record { reader_chain = link ∷ links; current_reader = reader }, panic)
      | err e ↦ (record { reader_chain = link ∷ links; current_reader = reader }, err e)
      | ok opened ↦ elim (fs.read opened buf) [
        | panic ↦ (record { reader_chain = link ∷ links; current_reader = some opened }, panic)
        | err e ↦ (record { reader_chain = link ∷ links; current_reader = some opened }, err e)
        | ok (opened', out) ↦ after_read link links buf opened' out (read_links buf links none)
      ]
    ]
  ]

  -- `Read::read` into a buffer of `buf` bytes: the bytes read, none at the end of the last file.
  unfoldable pub read_stream : ℕ → FilesystemStream → Outcome
  unfolding read_links
  read_stream buf stream = read_links buf stream.reader_chain stream.current_reader

  -- A reader that calls `read` until it returns no byte, on fuel.
  abbrev pub and_then : Bytes → Option (Result Bytes) → Option (Result Bytes)
  and_then out none = none
  and_then out (some rest) = some (do more ← rest; ok (out ++ more))

  unfoldable pub read_to_end : ℕ → ℕ → FilesystemStream → Option (Result Bytes)
  unfolding read_stream
  read_to_end zero buf stream = none
  read_to_end (suc fuel) buf stream =
      let (stream', result) = read_stream buf stream in
      let rest = read_to_end fuel buf stream' in
      elim result [
        | panic ↦ some panic
        | err e ↦ some (err e)
        | ok out ↦ elim out [ [] ↦ some (ok []) | b ∷ bs ↦ and_then (b ∷ bs) rest ]
      ]

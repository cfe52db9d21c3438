-- ===== src/Builder/Chunks.antt =====
-- puzzlefs-lib/src/builder.rs, `process_chunks`: the chunks of the concatenated files are stored, and
-- each file is given the parts of the chunks that hold its data.
pub mod Works
pub mod Holds
pub mod Kept
pub mod Present
pub mod ReadBack
pub mod Numbers
pub mod Spread
pub mod Correct
use puzzlefs.Prelude.{
  ℕ, zero, suc, ◌+◌, Bool, true, false, Bytes, Option, none, some, List, [], ◌∷◌, ◌++◌, length, ltb,
  min, ◌==◌, add64, sub64, if◌then◌else◌,
}
use puzzlefs.Errors.{Result, ok, panic, ◌>>=◌}
use puzzlefs.Format.{Ino, Hash, FileChunk, InodeAdditional, VerityData}
use puzzlefs.Format.Inodes.{Metadata}
use puzzlefs.Format.Verity.{insert}
use puzzlefs.Format.Stack.{finished}
use puzzlefs.Oci.Put.{BlobHost, Compression, chunk, Image, put_blob}

-- The struct `File` of the builder.
pub record BuildFile : Type 0 where
  pub ino : Ino
  pub chunks : List FileChunk
  pub md : Metadata
  pub additional : Option InodeAdditional

-- The iterator over the files: those that it has passed, the one that is being filled (`file`),
-- and those to come.
pub record Cursor : Type 0 where
  pub done : List BuildFile
  pub file : Option BuildFile
  pub rest : List BuildFile
  pub file_used : ℕ

-- `for f in file_iter.by_ref() { if f.md.size() > 0 { file = Some(f); break; } }`
unfoldable pub next_file : List BuildFile → List BuildFile → Cursor
next_file done [] = record { done = done; file = none; rest = []; file_used = 0 }
next_file done (f ∷ fs) = elim (ltb 0 f.md.size) [
  | true ↦ record { done = done; file = some f; rest = fs; file_used = 0 }
  | false ↦ next_file (done ++ f ∷ []) fs
]

-- All the files, in order.
unfoldable pub files_of : Cursor → List BuildFile
files_of cur = cur.done ++ (elim cur.file [ none ↦ [] | some f ↦ f ∷ [] ]) ++ cur.rest

-- `file.chunk_list.chunks.push(FileChunk { blob, len })`
abbrev pub push_chunk : BuildFile → FileChunk → BuildFile
push_chunk f c = record f { chunks = f.chunks ++ c ∷ [] }

-- `match next_file { Some(f) => .., None => break 'outer }`
unfoldable pub unless_ended :
    Cursor → Option (Result (Cursor × Bool)) → Option (Result (Cursor × Bool))
unless_ended cur rest = elim cur.file [ none ↦ some (ok (cur, true)) | some _ ↦ rest ]

module _ (digest : Hash) (compressed : Bool) (len : ℕ) where
  -- The part of the chunk from `chunk_used` on that goes to a file.
  abbrev pub part : ℕ → ℕ → FileChunk
  part chunk_used room = record {
    blob = record { digest = digest; offset = chunk_used; compressed = compressed };
    len = room;
  }

  -- The `while` loop over one chunk, on fuel. The flag says that no file is left (`break 'outer`).
  unfoldable pub spread : ℕ → ℕ → Cursor → Option (Result (Cursor × Bool))
  unfolding next_file add64 sub64
  spread zero chunk_used cur = none
  spread (suc fuel) chunk_used cur = elim (ltb chunk_used len) [
    | false ↦ some (ok (cur, false))
    | true ↦ elim cur.file [
      | none ↦ some panic
      | some f ↦
          let room = min (sub64 f.md.size cur.file_used) (sub64 len chunk_used) in
          let f' = push_chunk f (part chunk_used room) in
          let used' = add64 chunk_used room in
          let file_used' = add64 cur.file_used room in
          elim (file_used' == f.md.size) [
            | false ↦ spread fuel used' (record cur { file = some f'; file_used = file_used' })
            | true ↦
                let cur' = next_file (cur.done ++ f' ∷ []) cur.rest in
                unless_ended cur' (spread fuel used' cur')
          ]
    ]
  ]

-- What `process_chunks` changes.
pub record Chunked : Type 0 where
  pub files : List BuildFile
  pub verity_data : VerityData
  pub image : Image

module _ (h : BlobHost) (c : Compression) where
  -- The loop over the chunks; a chunk that could not be read is none. At the end of the files no
  -- chunk may be left.
  unfoldable pub process_loop : List (Option Bytes) → Cursor → VerityData → Image → Result Chunked
  unfolding spread files_of insert put_blob
  process_loop [] cur verity_data image =
      ok (record { files = files_of cur; verity_data = verity_data; image = image })
  process_loop (none ∷ chunks) cur verity_data image = panic
  process_loop (some bytes ∷ chunks) cur verity_data image = do
    p ← put_blob h c bytes chunk image
    let verity_data' = insert p.descriptor.digest p.fs_verity_digest verity_data
    (cur', ended) ←
        finished (spread p.descriptor.digest p.compressed (length bytes) (length bytes + 1) 0 cur)
    elim ended [
      | false ↦ process_loop chunks cur' verity_data' p.image
      | true ↦ elim chunks [
        | [] ↦ ok (record { files = files_of cur'; verity_data = verity_data'; image = p.image })
        | _ ∷ _ ↦ panic
      ]
    ]

  unfoldable pub process_chunks :
      List (Option Bytes) → List BuildFile → VerityData → Image → Result Chunked
  unfolding process_loop next_file
  process_chunks chunker files verity_data image =
      process_loop chunker (next_file [] files) verity_data image

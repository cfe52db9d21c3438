-- ===== src/Lib.antt =====
-- PuzzleFS: container images whose metadata is a stack of layers in a Cap'n Proto message, and whose
-- file data is cut into chunks that are stored as blobs under their digests.
--
-- The parts, and the files that model them (paths are below puzzlefs-lib/src):
-- Errors models format/error.rs. A `Result` is a value, an error, or a panic: what the code unwraps
-- or indexes out of range is a panic, never a value.
-- Format models format/types.rs and format/metadata.capnp: the types and the inode operations (Inodes),
-- the fields of the messages (Wire), `from_capnp` and `fill_capnp` (Capnp, RootfsCapnp), the map of
-- the verity digests (Verity), the binary search in a layer, `InodeVector` (Search), and the search in
-- the stack of layers, `RootfsReader` (Stack).
-- Compression models compression/: the decompressors, with their position, and the compressors
-- (Compressor).
-- Oci models oci.rs and fsverity_helpers.rs: `fill_from_chunk` and what it opens (Blob), `put_blob`
-- (Put), and the way from a tag to the metadata with its verification (Rootfs).
-- Reader models reader/: `file_read` (File), `PuzzleFS::lookup` and `FileReader` (Lookup), the FUSE
-- requests of fuse.rs (Fuse), `WalkPuzzleFS` of walk.rs (Walk), and mounting, with the start and the
-- end of a `Fuse` (Mount). The clients of an image take its operations as the record `PuzzleFs`, which
-- `image_fs` fills.
-- Builder models builder.rs and builder/filesystem.rs: the stream of the files (Stream), `process_chunks`
-- (Chunks), the scan of a directory tree and its inodes, `build_delta` (Tree, Delta), storing an image
-- from scratch or as a delta (Build), and `enable_fs_verity` (Verity). Extractor models extractor.rs:
-- `safe_path` (SafePath) and the extraction of the entries of a walk (Extract), as the actions on the
-- host in their order; which of them follow symbolic links is said in Extract/Actions.
-- Cli models the commands of exe/src/main.rs, over the library as a record; the mount command (Mount)
-- has the two processes of a mount in the background and the pipe between them (Background).
-- Prelude has the tests, list functions and words that the parts share: numbers are natural numbers,
-- and arithmetic on `u32` and `u64` wraps around where it is written `add32`, `sub64` and so on.
-- Examples has runs on a small image.
--
-- What is not code of the repository is a parameter with the laws that the code relies on: `Capnp`
-- (pointer fields of a message), `Host` (files, measurements, seekable zstd streams), `Encoder`
-- (streams that compress), `BlobHost` (digests, the zstd encoder, the blob directory), `Oci` (manifests
-- by tag), `OciDir` (storing a manifest), `HostTree` (the directories, files and chunks of a tree),
-- `Kernel` (enabling fs-verity), `Hex` (hex digits), `PipeHost` and `Fuser` (pipes, and the sessions of
-- the fuser crate), `Library`, `MountHost` and `MountLibrary` (what the commands call), `OpenFlags` (the
-- numbers of the open flags) and `ExtractHost` (the file system that is extracted to).
--
-- Fuel: the binary search has the layer's length and one; the spreading of a chunk has its length and
-- one, since each round uses a byte of it; a copy has the file's length and one; writing to
-- a compressor has the length of the data, and ending it as many rounds as it still gives output. That
-- this is enough is part of what is proved of them. The loop over a whole walk takes its fuel as an
-- argument.
--
-- Not modelled: the parsing of options by clap, the setting up of the logging crates, how long a mount
-- in the foreground lasts, `Image::new` and `Image::open` (calls of ocidir), and messages and backtraces
-- of errors.
mod Prelude
mod Errors
pub mod Format
pub mod Compression
pub mod Oci
pub mod Reader
pub mod Builder
pub mod Cli
pub mod Extractor
mod Examples

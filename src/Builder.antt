-- ===== src/Builder.antt =====
-- puzzlefs-lib/src/builder.rs: building an image from a directory tree. Chunks spreads the chunks of
-- the file stream over the files.
pub mod Chunks
pub mod Stream
pub mod Tree
pub mod Delta
pub mod Build
pub mod Verity

-- ===== src/Reader.antt =====
-- puzzlefs-lib/src/reader: files (File), paths and the image that is read (Lookup), the FUSE
-- file system over it (Fuse), and a walk over all of it (Walk).
pub mod File
pub mod Lookup
pub mod Fuse
pub mod Walk
pub mod Mount

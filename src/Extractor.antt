-- ===== src/Extractor.antt =====
-- puzzlefs-lib/src/extractor.rs: where an entry of an image is written (SafePath), and how the image
-- is extracted (Extract).
pub mod SafePath
pub mod Extract

-- ===== src/Oci.antt =====
-- puzzlefs-lib/src/oci.rs and fsverity_helpers.rs: an OCI image directory. The children are reading
-- blobs (Blob), storing them (Put), and finding the root file system of a tag (Rootfs).
pub mod Blob
pub mod Put
pub mod Rootfs

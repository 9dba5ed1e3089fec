-- ===== src/Metadata.antt =====
-- Side metadata: src/util/metadata/side_metadata.
pub mod Ranges
pub mod Spec
pub mod Bytes
pub mod Access
pub mod Bulk

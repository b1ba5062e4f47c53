-- ===== src/Storage.antt =====
-- crates/toradb-storage
pub mod Cache
pub mod Manifest
pub mod Wal
pub mod Compaction

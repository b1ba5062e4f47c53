-- ===== src/Storage/Cache.antt =====
-- crates/toradb-storage/src/cache.rs
pub mod Stats
pub mod Lru
pub mod Agree
pub mod ByteQueue
pub mod Segment
pub mod Blob
pub mod Bm25
pub mod Reads

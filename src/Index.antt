-- ===== src/Index.antt =====
-- crates/toradb-index/src/: the index files.
pub mod Bytes
pub mod Lexicon
pub mod Vectors
pub mod Tbm3

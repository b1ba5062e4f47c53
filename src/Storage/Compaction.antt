-- ===== src/Storage/Compaction.antt =====
-- crates/toradb-storage/src/compaction.rs: when segments are merged, which, and how. The sizes of
-- files are what the disk answers.
pub mod Policy
pub mod Scores
pub mod Names
pub mod Pick
pub mod Merge
pub mod Table

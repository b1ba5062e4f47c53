-- ===== src/Core.antt =====
-- crates/toradb-core/src/.
pub mod Schema
pub mod Candidate
pub mod TypedCompare

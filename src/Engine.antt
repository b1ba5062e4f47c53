-- ===== src/Engine.antt =====
-- crates/toradb-engine/src/: the filters of a query.
pub mod Like
pub mod Fusion

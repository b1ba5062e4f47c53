-- ===== src/Pipe.antt =====
-- crates/toradb-pipe/src/: the runs of the import pipelines.
pub mod Model
pub mod Store
pub mod Scheduler
pub mod Run

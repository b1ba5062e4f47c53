-- ===== src/Index/Tbm3.antt =====
-- crates/toradb-index/src/sparse/bm25_tbm3.rs: the file of the posting lists of a segment.
pub mod Varbyte
pub mod Bitpack
pub mod Postings
pub mod Segment
pub mod TopK
pub mod Cursor

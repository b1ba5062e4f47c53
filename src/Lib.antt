-- ===== src/Lib.antt =====
-- A verification library for ToraDB, a retrieval database for text and vector search.
--
-- The storage crate keeps the documents of a table in segment files. A manifest lists the segments
-- with their id ranges, caches keep decoded segments and mapped index files in memory, and the core
-- crate has the types that the others share.
--
-- The files and what they model (paths from the repository's root):
--   Core/Schema: column types and their names, crates/toradb-core/src/schema.rs
--   Core/TypedCompare: values compared by column type, crates/toradb-core/src/typed_compare.rs
--   Storage/Cache: the caches of crates/toradb-storage/src/cache.rs. `Segment` is `SegmentCache`,
--     `Blob` is `IndexBlobCache`, `Bm25` is `SegmentBm25Cache`, `ByteQueue` the eviction loop of the
--     last two, `Reads` is `StorageCaches` with the cached reads, and `Lru` is the specification.
--   Storage/Manifest: `TableManifestFile` of crates/toradb-storage/src/columnar/manifest.rs
--   Storage/Wal: the flush log, the compaction log and the checkpoint of
--     crates/toradb-storage/src/wal.rs
--   Storage/Compaction: crates/toradb-storage/src/compaction.rs. `Policy`, `Scores` and `Names` are
--     its small functions, `Pick` the choice of groups, `Merge` the merge of segments by id, and
--     `Table` the compaction of a table. The turns of the merge are fuel; one more than there are
--     rows is enough where no id is twice.
--   Core/Candidate: `CandidateSet` of crates/toradb-core/src/candidate.rs
--   Index/Lexicon: the term files of crates/toradb-index/src/sparse/bm25_lexicon.rs, with numbers in
--     bytes in Index/Bytes
--   Index/Tbm3: the posting lists of crates/toradb-index/src/sparse/bm25_tbm3.rs. `Varbyte` and
--     `Bitpack` are its codes, `Postings` the blocks of a term, `Segment` the file, `TopK` the heap of
--     the best documents, `Cursor` the search for a single term. Four more turns suffice for the
--     seven-bit groups of a 32-bit number, and a loop over bits has no more turns than bits.
--   Index/Vectors: `VectorSnapshot` of crates/toradb-index/src/dense/vector_codec.rs
--   Engine/Like: `like_matches` of crates/toradb-engine/src/metadata_filter.rs. Its fuel is `turns`,
--     which grows with the pattern times the square of the text: a `%` is passed once, and behind
--     one the text is started anew at most once for each of its characters.
--   Engine/Fusion: `rrf_merge` of crates/toradb-engine/src/fusion.rs
--   Pipe: the import pipelines of crates/toradb-pipe/src/: `Model` is model.rs, `Store` is store.rs
--     with its files as an interface with laws, `Scheduler` is scheduler.rs, `Run`
--     is pipeline.rs with the rows of source/mod.rs. The turns of a run are fuel; one more than there
--     are rows is enough.
--   Prelude, Collections: shared helpers; texts are lists of bytes, hash maps association lists.
--
-- State is passed explicitly: a method returns the new record. Machine integers are natural numbers
-- with the wrap-around written out where the code can overflow. What the file system, the clock,
-- JSON and Parquet answer are parameters of the operations that use them.
--
-- Not modelled: the search for several terms and in vectors, the SQL
-- front end, the query execution, the servers and clients, threads and locks, floating point
-- arithmetic, and the calls of third-party code.
pub mod Prelude
pub mod Collections
pub mod Core
pub mod Engine
pub mod Index
pub mod Pipe
pub mod Storage

-- ===== src/Storage/Cache/Reads.antt =====
-- `StorageCaches`, `read_segment_cached` and `get_or_mmap` of crates/toradb-storage/src/cache.rs.
-- What the disk answers at a path, a segment's documents or a mapped file, is a parameter.
pub mod Coherence
mod Tests
use toradb.Prelude.{Eq, ℕ, ◌+◌, ◌%◌, ◌^◌, Option, none, some, List, Result, ok, err, ◌>>=◌}
use toradb.Storage.Cache.Stats.{CacheHierarchy}
use toradb.Storage.Cache.Segment as Segment
use toradb.Storage.Cache.Segment.{SegmentCache}
use toradb.Storage.Cache.Blob as Blob
use toradb.Storage.Cache.Blob.{IndexBlobCache}
use toradb.Storage.Cache.Bm25 as Bm25
use toradb.Storage.Cache.Bm25.{SegmentBm25Cache}

-- `D` are the documents of a segment, `M` a mapped file, `B` a parsed BM25 sidecar.
pub record StorageCaches (K D M B : Type 0) : Type 0 where
  pub segments : SegmentCache K D
  pub index_blobs : IndexBlobCache K M
  pub segment_bm25 : SegmentBm25Cache K B

pub record CacheConfig : Type 0 where
  pub segment_entries : ℕ
  pub index_bytes : ℕ

module _ {K D M B : Type 0} ⦃e : Eq K⦄ where
  pub new : CacheConfig → StorageCaches K D M B
  new config = record {
    segments = Segment.new config.segment_entries;
    index_blobs = Blob.new config.index_bytes;
    segment_bm25 = Bm25.new config.index_bytes;
  }

  pub combined_stats : StorageCaches K D M B → CacheHierarchy
  combined_stats c = record {
    hits =
        ((c.segments.stats.hits + c.index_blobs.stats.hits) % 2 ^ 64 + c.segment_bm25.stats.hits)
        % 2 ^ 64;
    misses =
        ((c.segments.stats.misses + c.index_blobs.stats.misses) % 2 ^ 64
          + c.segment_bm25.stats.misses)
        % 2 ^ 64;
  }

  pub invalidate_segment : K → StorageCaches K D M B → StorageCaches K D M B
  invalidate_segment path c = record c { segments = Segment.invalidate path c.segments }

  -- Without caches the segment is read; a read that fails leaves the miss counted.
  pub read_segment_cached :
      (K → Result D)
      → K
      → Option (StorageCaches K D M B)
      → Option (StorageCaches K D M B) × Result D
  read_segment_cached disk path none = (none, disk path)
  read_segment_cached disk path (some caches) =
      let (segments, hit) = Segment.get path caches.segments in
      elim hit [
        | some docs ↦ (some (record caches { segments = segments }), ok docs)
        | none ↦ elim (disk path) [
          | err message ↦ (some (record caches { segments = segments }), err message)
          | ok docs ↦
              (some (record caches { segments = Segment.insert path docs segments }), ok docs)
        ]
      ]

  pub get_or_mmap :
      (M → ℕ)
      → (K → Result M)
      → K
      → Option (StorageCaches K D M B)
      → Option (StorageCaches K D M B) × Result M
  get_or_mmap len disk path none = (none, disk path)
  get_or_mmap len disk path (some caches) =
      let (index_blobs, hit) = Blob.get path caches.index_blobs in
      elim hit [
        | some mmap ↦ (some (record caches { index_blobs = index_blobs }), ok mmap)
        | none ↦ elim (disk path) [
          | err message ↦ (some (record caches { index_blobs = index_blobs }), err message)
          | ok mmap ↦ (
            some (record caches { index_blobs = Blob.insert len path mmap index_blobs }),
            ok mmap,
          )
        ]
      ]

-- ===== src/Storage/Cache/Bm25.antt =====
-- `SegmentBm25Cache` of crates/toradb-storage/src/cache.rs: parsed BM25 sidecars by path, bounded by
-- the sizes of the files. `entry_bytes` is the size that the file system reports for a path at the
-- time of the call (64 MiB where it reports none).
pub mod Budget
mod Tests
use toradb.Prelude.{
  Eq, ℕ, ◌+◌, ◌%◌, ◌^◌, Option, none, some, List, [], ◌∷◌, ◌++◌, if◌then◌else◌, max, Result, ok,
  err,
}
use toradb.Collections.Keys.{without}
use toradb.Collections.Dict.{Dict, lookup, contains_key, insert as put, remove}
use toradb.Storage.Cache.ByteQueue.{release, evict}
use toradb.Storage.Cache.Stats.{CacheHierarchy, no_accesses, count_hit, count_miss}

pub record SegmentBm25Cache (K V : Type 0) : Type 0 where
  pub byte_budget : ℕ
  pub bytes_used : ℕ
  pub order : List K
  pub map : Dict K V
  pub stats : CacheHierarchy

module _ {K V : Type 0} ⦃e : Eq K⦄ where
  pub new : ℕ → SegmentBm25Cache K V
  new byte_budget = record {
    byte_budget = max byte_budget 1024;
    bytes_used = 0;
    order = [];
    map = [];
    stats = no_accesses;
  }

  -- A shared lookup counts no access and moves nothing.
  pub get : K → SegmentBm25Cache K V → Option V
  get path c = lookup path c.map

  pub touch : K → SegmentBm25Cache K V → SegmentBm25Cache K V
  touch key c = record c { order = without key c.order ++ key ∷ [] }

  module _ (entry_bytes : K → ℕ) where
    abbrev file_weight : K → V → ℕ
    file_weight key _ = entry_bytes key

    drop_stale : K → SegmentBm25Cache K V → SegmentBm25Cache K V
    drop_stale key c =
        if contains_key key c.map
        then record c {
          bytes_used = release file_weight key c.map c.bytes_used;
          map = remove key c.map;
          order = without key c.order;
        }
        else c

    -- The part after a successful load.
    pub admit : K → V → SegmentBm25Cache K V → SegmentBm25Cache K V
    unfolding drop_stale
    admit key entry c =
        let size = entry_bytes key in
        let c' = drop_stale key c in
        let (order, m, used) =
          evict file_weight c'.byte_budget size c'.order c'.map c'.bytes_used in
        record c' {
          bytes_used = (used + size) % 2 ^ 64;
          order = order ++ key ∷ [];
          map = put key entry m;
        }

    -- `load` is what the closure answers, which is called on a miss alone.
    pub get_or_insert : K → Result V → SegmentBm25Cache K V → SegmentBm25Cache K V × Result V
    unfolding touch admit
    get_or_insert path load c = elim (lookup path c.map) [
      | some hit ↦ (touch path (record c { stats = count_hit c.stats }), ok hit)
      | none ↦
          let c' = record c { stats = count_miss c.stats } in
          elim load [ err message ↦ (c', err message) | ok entry ↦ (admit path entry c', ok entry) ]
    ]

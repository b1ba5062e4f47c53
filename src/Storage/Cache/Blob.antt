-- ===== src/Storage/Cache/Blob.antt =====
-- `IndexBlobCache` of crates/toradb-storage/src/cache.rs: mapped index files by path, bounded by
-- the sum of their lengths. `len` is the length of a mapped file.
pub mod Budget
mod Tests
use toradb.Prelude.{
  Eq, ℕ, ◌+◌, ◌-◌, ◌%◌, ◌^◌, Option, none, some, List, [], ◌∷◌, ◌++◌, ltb, if◌then◌else◌, max,
}
use toradb.Collections.Keys.{without}
use toradb.Collections.Dict.{Dict, lookup, contains_key, insert as put, remove}
use toradb.Storage.Cache.ByteQueue.{release, evict}
use toradb.Storage.Cache.Stats.{CacheHierarchy, no_accesses, count_hit, count_miss}

pub record IndexBlobCache (K V : Type 0) : Type 0 where
  pub byte_budget : ℕ
  pub bytes_used : ℕ
  pub order : List K
  pub map : Dict K V
  pub stats : CacheHierarchy

module _ {K V : Type 0} ⦃e : Eq K⦄ where
  pub new : ℕ → IndexBlobCache K V
  new byte_budget = record {
    byte_budget = max byte_budget 1024;
    bytes_used = 0;
    order = [];
    map = [];
    stats = no_accesses;
  }

  pub touch : K → IndexBlobCache K V → IndexBlobCache K V
  touch key c = record c { order = without key c.order ++ key ∷ [] }

  pub get : K → IndexBlobCache K V → IndexBlobCache K V × Option V
  unfolding touch
  get path c =
      if contains_key path c.map
      then (touch path (record c { stats = count_hit c.stats }), lookup path c.map)
      else (record c { stats = count_miss c.stats }, none)

module _ {K V : Type 0} ⦃e : Eq K⦄ (len : V → ℕ) where
  abbrev length_weight : K → V → ℕ
  length_weight _ mmap = len mmap

  -- An entry under the path that is to be written goes first.
  pub drop_stale : K → IndexBlobCache K V → IndexBlobCache K V
  drop_stale path c =
      if contains_key path c.map
      then record c {
        bytes_used = release length_weight path c.map c.bytes_used;
        map = remove path c.map;
        order = without path c.order;
      }
      else c

  pub insert : K → V → IndexBlobCache K V → IndexBlobCache K V
  unfolding drop_stale
  insert path mmap c =
      let size = len mmap in
      let c' = drop_stale path c in
      let (order, m, used) =
        evict length_weight c'.byte_budget size c'.order c'.map c'.bytes_used in
      record c' {
        bytes_used = (used + size) % 2 ^ 64;
        order = order ++ path ∷ [];
        map = put path mmap m;
      }

  pub invalidate : K → IndexBlobCache K V → IndexBlobCache K V
  invalidate path c =
      if contains_key path c.map
      then record c {
        bytes_used = release length_weight path c.map c.bytes_used;
        map = remove path c.map;
        order = without path c.order;
      }
      else c

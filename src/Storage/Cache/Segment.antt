-- ===== src/Storage/Cache/Segment.antt =====
-- `SegmentCache` of crates/toradb-storage/src/cache.rs: decoded segments by path, bounded by their
-- number. The map is a `Dict`, the queue `order` runs from the least to the most recently used path.
-- Paths and documents are type parameters; an `Arc` is the value that it shares.
pub mod Validity
pub mod Refinement
pub mod History
pub mod Contents
mod Tests
use toradb.Prelude.{Eq, ℕ, Bool, Option, none, List, [], ◌∷◌, ◌++◌, leb, length, if◌then◌else◌, max}
use toradb.Collections.Keys.{without}
use toradb.Collections.Dict.{Dict, lookup, contains_key, insert as put, remove}
use toradb.Storage.Cache.Stats.{CacheHierarchy, no_accesses, count_hit, count_miss}

pub record SegmentCache (K V : Type 0) : Type 0 where
  pub capacity : ℕ
  pub order : List K
  pub map : Dict K V
  pub stats : CacheHierarchy

module _ {K V : Type 0} ⦃e : Eq K⦄ where
  pub new : ℕ → SegmentCache K V
  new capacity = record { capacity = max capacity 1; order = []; map = []; stats = no_accesses }

  pub touch : K → SegmentCache K V → SegmentCache K V
  touch key c = record c { order = without key c.order ++ key ∷ [] }

  pub get : K → SegmentCache K V → SegmentCache K V × Option V
  unfolding touch
  get path c =
      if contains_key path c.map
      then (touch path (record c { stats = count_hit c.stats }), lookup path c.map)
      else (record c { stats = count_miss c.stats }, none)

  -- `while self.map.len() >= self.capacity { pop_front, or break }`
  pub evict : ℕ → List K → Dict K V → List K × Dict K V
  evict capacity [] m = ([], m)
  evict capacity (old ∷ order) m =
      let rest = evict capacity order (remove old m) in
      if leb capacity (length m) then rest else (old ∷ order, m)

  pub insert : K → V → SegmentCache K V → SegmentCache K V
  unfolding touch
  insert path docs c =
      if contains_key path c.map
      then touch path (record c { map = put path docs c.map })
      else (let (order, m) = evict c.capacity c.order c.map in
          record c { order = order ++ path ∷ []; map = put path docs m })

  pub invalidate : K → SegmentCache K V → SegmentCache K V
  invalidate path c =
      if contains_key path c.map
      then record c { map = remove path c.map; order = without path c.order }
      else c

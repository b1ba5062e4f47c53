-- ===== src/Storage/Cache/Stats.antt =====
-- The hit and miss counters (`CacheHierarchy`) that every cache carries.
use toradb.Prelude.{ℕ, ◌+◌, ◌%◌, ◌^◌}

pub record CacheHierarchy : Type 0 where
  pub hits : ℕ
  pub misses : ℕ

abbrev pub no_accesses : CacheHierarchy
no_accesses = record { hits = 0; misses = 0 }

-- The counters are `u64` and wrap in a release build.
abbrev pub count_hit : CacheHierarchy → CacheHierarchy
count_hit s = record s { hits = (s.hits + 1) % 2 ^ 64 }

abbrev pub count_miss : CacheHierarchy → CacheHierarchy
count_miss s = record s { misses = (s.misses + 1) % 2 ^ 64 }

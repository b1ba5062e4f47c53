-- ===== src/Storage/Cache/Reads/Tests.antt =====
-- A cached read at a concrete input; documents are numbers.
use toradb.Prelude.{
  ℕ, ◌≡◌, String, some, Option, string_eq, Result, ok, err, text, if◌then◌else◌, ◌=?◌,
}
use toradb.Storage.Cache.Segment.Contents.{Holds-new}
use toradb.Storage.Cache.Reads.{StorageCaches, CacheConfig, new, read_segment_cached}
use toradb.Storage.Cache.Reads.Coherence.{IsCoherent, read_segment_cached-IsCoherent}

abbrev disk : String → Result ℕ
disk path = if path =? "/a" then ok 3 else err (text "missing")

abbrev config : CacheConfig
config = record { segment_entries = 2; index_bytes = 4096 }

abbrev caches : Option (StorageCaches String ℕ ℕ ℕ)
caches = some (new config)

read_segment_cached-IsCoherent_example :
    ((read_segment_cached disk "/a" caches).1 ≡ disk "/a")
    × IsCoherent disk (read_segment_cached disk "/a" caches).0
unfolding new
read_segment_cached-IsCoherent_example =
    read_segment_cached-IsCoherent disk "/a" caches (Holds-new (λ path docs. disk path ≡ ok docs) 2)

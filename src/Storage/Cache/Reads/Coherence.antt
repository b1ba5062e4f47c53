-- ===== src/Storage/Cache/Reads/Coherence.antt =====
-- While every cached segment is what the disk holds, a cached read answers what the disk answers,
-- and keeps that.
use toradb.Prelude.{
  ◌≡◌, Eq, refl, inl, inr, Option, none, some, Result, ok, Option-cases, Result-cases, sym,
}
use toradb.Storage.Cache.Segment as Segment
use toradb.Storage.Cache.Segment.Contents.{Holds, get-Holds, get_holds, insert-Holds}
use toradb.Storage.Cache.Reads.{StorageCaches, read_segment_cached}

module _ {K D M B : Type 0} ⦃e : Eq K⦄ (disk : K → Result D) where
  -- Every cached segment is the one on disk.
  abbrev pub IsCoherent : Option (StorageCaches K D M B) → Type 0
  IsCoherent none = Unit
  IsCoherent (some c) = Holds (λ path docs. disk path ≡ ok docs) c.segments.map

  -- While every cached segment is what the disk holds, a read through the caches answers what the
  -- disk answers, on a hit, a miss or an error and without caches too, and keeps the caches so.
  pub read_segment_cached-IsCoherent :
      (path : K) (caches : Option (StorageCaches K D M B))
      → IsCoherent caches
      → ((read_segment_cached disk path caches).1 ≡ disk path)
        × IsCoherent (read_segment_cached disk path caches).0
  unfolding read_segment_cached
  read_segment_cached-IsCoherent path none h = (refl, h)
  read_segment_cached-IsCoherent path (some c) h =
      elim (Option-cases (Segment.get path c.segments).1) [
        | inr (docs, hit) ↦
            rw (hit, read_segment_cached)
              (sym (get_holds _ path docs c.segments h hit), get-Holds _ path c.segments h)
        | inl miss ↦ elim (Result-cases (disk path)) [
          | inr (message, failed) ↦
              rw (miss, failed, read_segment_cached) (refl, get-Holds _ path c.segments h)
          | inl (docs, loaded) ↦
              rw (miss, loaded, read_segment_cached)
                (
                  refl,
                  insert-Holds _ path docs (Segment.get path c.segments).0 loaded
                      (get-Holds _ path c.segments h),
                )
        ]
      ]

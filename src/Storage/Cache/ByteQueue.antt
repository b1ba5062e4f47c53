-- ===== src/Storage/Cache/ByteQueue.antt =====
-- The queue of a cache of cache.rs that is bounded by bytes: `IndexBlobCache` weighs an entry by the
-- length of its mapped file, `SegmentBm25Cache` by the size of the file at its path.
pub mod Room
use toradb.Prelude.{Eq, ℕ, ◌+◌, ◌-◌, ◌%◌, ◌^◌, none, some, List, [], ◌∷◌, ltb, if◌then◌else◌}
use toradb.Collections.Dict.{Dict, lookup, remove}

module _ {K V : Type 0} ⦃e : Eq K⦄ (weight : K → V → ℕ) where
  -- `bytes_used` after `map.remove(key)`: what a removed entry weighs is given back.
  pub release : K → Dict K V → ℕ → ℕ
  release key m used = elim (lookup key m) [ none ↦ used | some old ↦ used - weight key old ]

  -- `while bytes_used + size > byte_budget && !order.is_empty() { pop_front … }`, over the queue,
  -- the map and `bytes_used`
  pub evict : ℕ → ℕ → List K → Dict K V → ℕ → List K × Dict K V × ℕ
  unfolding release
  evict budget size [] m used = ([], m, used)
  evict budget size (old ∷ order) m used =
      let rest = evict budget size order (remove old m) (release old m used) in
      if ltb budget ((used + size) % 2 ^ 64) then rest else (old ∷ order, m, used)

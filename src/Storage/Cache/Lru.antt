-- ===== src/Storage/Cache/Lru.antt =====
-- What a least-recently-used cache promises: a list of entries, oldest first, cut at the front.
-- A cache of cache.rs, a map beside a queue, is compared with it through `entries`.
pub mod Entries
use toradb.Prelude.{Eq, ℕ, Option, none, some, List, [], ◌∷◌, ◌++◌, leb, length, if◌then◌else◌}
use toradb.Collections.Dict.{Dict, lookup, contains_key, remove}

module _ {K V : Type 0} ⦃e : Eq K⦄ where
  -- The entry under a key, moved to the back.
  unfoldable pub refresh : K → Dict K V → Dict K V
  refresh k l = elim (lookup k l) [ none ↦ l | some v ↦ remove k l ++ (k, v) ∷ [] ]

  unfoldable pub drop_oldest : Dict K V → Dict K V
  drop_oldest [] = []
  drop_oldest (p ∷ l) = l

  -- A new key takes the place of the oldest one when the cache is full.
  unfoldable pub store : ℕ → K → V → Dict K V → Dict K V
  unfolding drop_oldest
  store capacity k v l =
      if contains_key k l
      then remove k l ++ (k, v) ∷ []
      else (if leb capacity (length l) then drop_oldest l else l) ++ (k, v) ∷ []

  -- The entries of a map in the order of a queue.
  unfoldable pub entries : List K → Dict K V → Dict K V
  entries [] m = []
  entries (k ∷ ks) m = elim (lookup k m) [ none ↦ entries ks m | some v ↦ (k, v) ∷ entries ks m ]

-- ===== src/Storage/Cache/ByteQueue/Room.antt =====
-- The eviction loop of the byte-bounded caches keeps the queue, the map and the counter in step.
use toradb.Prelude.{
  Eq, ℕ, ◌+◌, ◌%◌, ◌^◌, ◌≤◌, ◌<◌, ◌≡◌, refl, ◌⊎◌, inl, inr, List, [], ◌∷◌, Option, none, some,
  arith, false, Bool-cases, ltb,
}
use toradb.Collections.Keys.{count}
use toradb.Collections.Dict.{
  Dict, lookup, contains_key, remove, keys, insert as put, count-keys-remove,
}
use toradb.Storage.Cache.Agree.{Agree, Agree-pop}
use toradb.Storage.Cache.ByteQueue.{release, evict}

abbrev pub held : {V : Type 0} → (V → ℕ) → Option V → ℕ
held size none = 0
held size (some v) = size v

module _ {K V : Type 0} ⦃e : Eq K⦄ (weight : K → V → ℕ) where
  -- The weight of all entries of a map.
  unfoldable pub total : Dict K V → ℕ
  total [] = 0
  total ((k, v) ∷ m) = weight k v + total m

  total-remove_absent : (k : K) (m : Dict K V) → count k (keys m) ≡ 0 → total (remove k m) ≡ total m
  unfolding total remove keys count
  total-remove_absent k [] h = refl
  total-remove_absent k ((i, v) ∷ m) h = ground (arith, total-remove_absent k m)

  pub total-remove :
      (k : K) (m : Dict K V)
      → count k (keys m) ≤ 1
      → total (remove k m) + held (weight k) (lookup k m) ≡ total m
  unfolding total remove keys count lookup
  total-remove k [] h = refl
  total-remove k ((i, v) ∷ m) h =
      ground (arith, total-remove k m, total-remove_absent k m, e.beq_iff i k)

  -- Removing a path releases exactly its bytes.
  pub release-total :
      (k : K) (m : Dict K V)
      → count k (keys m) ≤ 1
      → release weight k m (total m) ≡ total (remove k m)
  unfolding release
  release-total k m h = ground (arith, total-remove k m h)

  pub total-put_absent :
      (k : K) (v : V) (m : Dict K V)
      → contains_key k m ≡ false
      → total (put k v m) ≡ total m + weight k v
  unfolding total put contains_key
  total-put_absent k v [] h = omega arith
  total-put_absent k v ((i, w) ∷ m) h = ground (arith, total-put_absent k v m)

  -- What the eviction loop leaves: queue, map and counter in step, and room for the new file or an
  -- empty queue.
  pub record Evicted (budget size : ℕ) (r : List K × Dict K V × ℕ) : Type 0 where
    pub agree : Agree r.0 r.1
    pub counted : r.2 ≡ total r.1
    pub room : (r.2 + size ≤ budget) ⊎ (r.0 ≡ [])
    pub fits : r.2 + size < 2 ^ 64

  pub evict-Evicted :
      (budget size : ℕ) (order : List K) (m : Dict K V)
      → Agree order m
      → total m + size < 2 ^ 64
      → Evicted budget size (evict weight budget size order m (total m))
  unfolding evict
  evict-Evicted budget size [] m h small = record {
    agree = h;
    counted = refl;
    room = inr refl;
    fits = small;
  }
  evict-Evicted budget size (old ∷ order) m h small =
      elim (Bool-cases (ltb budget ((total m + size) % 2 ^ 64))) [
        | inr stop ↦
            rw stop (record { agree = h; counted = refl; room = inl (ground arith); fits = small })
        | inl more ↦
            let single : count old (keys m) ≤ 1 = omega (arith, h.same old, h.once old) in
            rw (more, release-total old m single)
              (evict-Evicted budget size order (remove old m) (Agree-pop old order m h)
                (omega (arith, total-remove old m single)))
      ]

  pub count-evict-le :
      (k : K) (budget size : ℕ) (order : List K) (m : Dict K V) (used : ℕ)
      → count k (keys (evict weight budget size order m used).1) ≤ count k (keys m)
  unfolding evict
  count-evict-le k budget size [] m used = omega arith
  count-evict-le k budget size (old ∷ order) m used = ground (
    arith,
    count-evict-le k budget size order (remove old m) (release weight old m used),
    count-keys-remove old k m,
  )

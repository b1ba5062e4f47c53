-- ===== src/Storage/Cache/Segment/Validity.antt =====
-- The map and the queue of a `SegmentCache` always hold the same paths, each once, and never more
-- of them than the capacity.
use toradb.Prelude.{
  Eq, ℕ, ◌≤◌, ◌<◌, ◌≡◌, refl, inl, inr, List, [], ◌∷◌, arith, false, Bool-cases, length,
}
use toradb.Collections.Keys.{count}
use toradb.Collections.Dict.{
  Dict, contains_key, remove, keys, count-keys-remove, length-remove, contains_key-false,
  contains_key-eq_of_count, length-insert,
}
use toradb.Storage.Cache.Agree.{Agree, Agree-remove, Agree-pop, Agree-push, Agree-touch, Agree-put}
use toradb.Storage.Cache.Segment.{SegmentCache, new, get, evict, insert, invalidate}

module _ {K V : Type 0} ⦃e : Eq K⦄ where
  pub record IsValid (c : SegmentCache K V) : Type 0 where
    pub agree : Agree c.order c.map
    pub bounded : length c.map ≤ c.capacity
    pub positive : 0 < c.capacity

  -- After the eviction loop the two sides agree, and there is room for one more entry.
  pub evict-Agree :
      (cap : ℕ) (order : List K) (m : Dict K V)
      → 0 < cap
      → Agree order m
      → Agree (evict cap order m).0 (evict cap order m).1 × (length (evict cap order m).1 < cap)
  unfolding evict
  evict-Agree cap [] m pos h = (h, omega (arith, h.sizes))
  evict-Agree cap (old ∷ order) m pos h =
      ground (arith, h.sizes, Agree-pop old order m h, evict-Agree cap order (remove old m) pos)

  -- The loop removes entries and adds none.
  pub count-evict-le :
      (k : K) (cap : ℕ) (order : List K) (m : Dict K V)
      → count k (keys (evict cap order m).1) ≤ count k (keys m)
  unfolding evict
  count-evict-le k cap [] m = omega arith
  count-evict-le k cap (old ∷ order) m =
      ground (arith, count-evict-le k cap order (remove old m), count-keys-remove old k m)

  pub evict-absent :
      (k : K) (cap : ℕ) (order : List K) (m : Dict K V)
      → contains_key k m ≡ false
      → contains_key k (evict cap order m).1 ≡ false
  evict-absent k cap order m h =
      contains_key-eq_of_count k (evict cap order m).1
        (omega (arith, count-evict-le k cap order m, contains_key-false k m h))

  pub IsValid-new : (n : ℕ) → IsValid (new {V = V} n)
  unfolding new count keys
  IsValid-new n = record {
    agree = record { same = λ k. refl; once = λ k. omega arith; sizes = refl };
    bounded = omega arith;
    positive = omega arith;
  }

  pub get-IsValid : (k : K) (c : SegmentCache K V) → IsValid c → IsValid (get k c).0
  unfolding get
  get-IsValid k c h = elim (Bool-cases (contains_key k c.map)) [
    | inl present ↦ rw present (record {
      agree = Agree-touch k c.order c.map present h.agree;
      bounded = h.bounded;
      positive = h.positive;
    })
    | inr absent ↦
        rw absent (record { agree = h.agree; bounded = h.bounded; positive = h.positive })
  ]

  pub insert-IsValid : (k : K) (v : V) (c : SegmentCache K V) → IsValid c → IsValid (insert k v c)
  unfolding insert
  insert-IsValid k v c h = elim (Bool-cases (contains_key k c.map)) [
    | inl present ↦ rw present (record {
      agree = Agree-put k v _ c.map present (Agree-touch k c.order c.map present h.agree);
      bounded = rw (length-insert, present) h.bounded;
      positive = h.positive;
    })
    | inr absent ↦
        let room = evict-Agree c.capacity c.order c.map h.positive h.agree in
        let gone = evict-absent k c.capacity c.order c.map absent in
        rw absent (record {
          agree = Agree-push k v _ _ gone room.0;
          bounded = rw (length-insert, gone) room.1;
          positive = h.positive;
        })
  ]

  pub invalidate-IsValid : (k : K) (c : SegmentCache K V) → IsValid c → IsValid (invalidate k c)
  unfolding invalidate
  invalidate-IsValid k c h = elim (Bool-cases (contains_key k c.map)) [
    | inl present ↦ rw present (record {
      agree = Agree-remove k c.order c.map h.agree;
      bounded = omega (arith, h.bounded, length-remove k c.map);
      positive = h.positive;
    })
    | inr absent ↦ rw absent h
  ]

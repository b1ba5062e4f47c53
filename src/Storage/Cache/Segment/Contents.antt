-- ===== src/Storage/Cache/Segment/Contents.antt =====
-- A `SegmentCache` only ever answers what was put under the path.
use toradb.Prelude.{Eq, ◌=?◌, ℕ, ◌≡◌, inl, inr, List, [], ◌∷◌, some, arith, Bool-cases}
use toradb.Collections.Dict.{
  Dict, lookup, contains_key, remove, lookup-insert, lookup-remove, insert as put,
}
use toradb.Storage.Cache.Segment.{SegmentCache, new, get, evict, insert}

module _ {K V : Type 0} ⦃e : Eq K⦄ (Q : K → V → Type 0) where
  -- `Q` holds of every entry that the map answers.
  pub record Holds (m : Dict K V) : Type 0 where
    pub at : (k : K) (v : V) → lookup k m ≡ some v → Q k v

  Holds-remove : (k : K) (m : Dict K V) → Holds m → Holds (remove k m)
  Holds-remove k m h = record { at = λ j v p. h.at j v (ground (arith, lookup-remove k j m)) }

  Holds-put : (k : K) (v : V) (m : Dict K V) → Q k v → Holds m → Holds (put k v m)
  Holds-put k v m q h = record {
    at = λ j w p. elim (Bool-cases (k =? j)) [
      | inl same ↦
          let keys_eq : k ≡ j = (e.beq_iff k j).0 same in
          let values_eq : v ≡ w = ground (arith, lookup-insert k j v m) in
          rw (← keys_eq, ← values_eq) q
      | inr other ↦ h.at j w (ground (arith, lookup-insert k j v m))
    ];
  }

  evict-Holds : (cap : ℕ) (order : List K) (m : Dict K V) → Holds m → Holds (evict cap order m).1
  unfolding evict
  evict-Holds cap [] m h = h
  evict-Holds cap (x ∷ xs) m h =
      ground (arith, h, evict-Holds cap xs (remove x m) (Holds-remove x m h))

  pub get-Holds : (k : K) (c : SegmentCache K V) → Holds c.map → Holds (get k c).0.map
  unfolding get
  get-Holds k c h = elim (Bool-cases (contains_key k c.map)) [
    | inl present ↦ rw present h
    | inr absent ↦ rw absent h
  ]

  pub get_holds :
      (k : K) (v : V) (c : SegmentCache K V) → Holds c.map → (get k c).1 ≡ some v → Q k v
  unfolding get
  get_holds k v c h found = h.at k v (ground arith)

  pub insert-Holds :
      (k : K) (v : V) (c : SegmentCache K V) → Q k v → Holds c.map → Holds (insert k v c).map
  unfolding insert
  insert-Holds k v c q h = elim (Bool-cases (contains_key k c.map)) [
    | inl present ↦ rw present (Holds-put k v c.map q h)
    | inr absent ↦ rw absent (Holds-put k v _ q (evict-Holds c.capacity c.order c.map h))
  ]

  pub Holds-new : (n : ℕ) → Holds (new n).map
  unfolding new lookup
  Holds-new n = record { at = λ k v p. cc }

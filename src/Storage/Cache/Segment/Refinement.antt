-- ===== src/Storage/Cache/Segment/Refinement.antt =====
-- Every operation of a valid `SegmentCache` is the operation of the least-recently-used list.
use toradb.Prelude.{
  Eq, ℕ, ◌≤◌, ◌<◌, ◌≡◌, refl, inl, inr, List, [], ◌∷◌, arith, true, none, some, Option-cases,
  Bool-cases, length, if◌then◌else◌, leb, ◌∙◌, sym,
}
use toradb.Collections.Keys.{count, without, beq_refl, count-without}
use toradb.Collections.Dict.{
  Dict, lookup, contains_key, remove, keys, contains_key-lookup, contains_key-eq,
  contains_key-false, contains_key-eq_of_pos, length-remove,
}
use toradb.Storage.Cache.Lru.{entries, refresh, store, drop_oldest}
use toradb.Storage.Cache.Lru.Entries.{
  entries-append, entries-without, entries-remove, remove-entries_absent, lookup-entries,
  lookup-entries-none, length-entries, entries_single, entries_push, refresh_found, refresh_missing,
}
use toradb.Storage.Cache.Segment.{SegmentCache, get, evict, insert, invalidate}
use toradb.Storage.Cache.Segment.Validity.{IsValid}
use toradb.Storage.Cache.Agree.{Agree}

module _ {K V : Type 0} ⦃e : Eq K⦄ where
  -- What a cache holds, oldest first.
  abbrev pub view : SegmentCache K V → Dict K V
  view c = entries c.order c.map

  pub lookup-view : (k : K) (c : SegmentCache K V) → IsValid c → lookup k (view c) ≡ lookup k c.map
  lookup-view k c h = elim (Bool-cases (contains_key k c.map)) [
    | inl present ↦
        lookup-entries k c.order c.map
          (omega (arith, h.agree.same k, contains_key-eq k c.map present))
    | inr absent ↦
        let e : lookup k c.map ≡ none = ground (arith, contains_key-lookup k c.map) in
        rw e (lookup-entries-none k c.order c.map e)
  ]

  pub length-view : (c : SegmentCache K V) → IsValid c → length (view c) ≡ length c.map
  length-view c h =
      length-entries c.order c.map
        (λ k p. contains_key-eq_of_pos k c.map (omega (arith, h.agree.same k)))
      ∙ h.agree.sizes

  -- A loop that starts below the capacity does nothing.
  pub evict-eq_of_lt :
      (cap : ℕ) (order : List K) (m : Dict K V) → length m < cap → evict cap order m ≡ (order, m)
  unfolding evict
  evict-eq_of_lt cap [] m h = refl
  evict-eq_of_lt cap (x ∷ xs) m h = ground arith

  count-evict_order-le :
      (k : K) (cap : ℕ) (order : List K) (m : Dict K V)
      → count k (evict cap order m).0 ≤ count k order
  unfolding evict count
  count-evict_order-le k cap [] m = omega arith
  count-evict_order-le k cap (x ∷ xs) m = ground (arith, count-evict_order-le k cap xs (remove x m))

  -- A full cache gives up exactly the entry at the front.
  evict_full :
      (cap : ℕ) (order : List K) (m : Dict K V)
      → Agree order m
      → length m ≤ cap
      → 0 < cap
      → entries (evict cap order m).0 (evict cap order m).1
        ≡ (if leb cap (length m) then drop_oldest (entries order m) else entries order m)
  unfolding evict drop_oldest entries count
  evict_full cap [] m h fits pos = ground (arith, h.sizes)
  evict_full cap (x ∷ xs) m h fits pos = elim (Bool-cases (leb cap (length m))) [
    | inr room ↦ rw room
    | inl full ↦
        let one : count x (keys m) ≡ 1 = ground (arith, h.same x, h.once x, beq_refl x) in
        let gone : count x xs ≡ 0 = ground (arith, h.once x, beq_refl x) in
        let there : contains_key x m ≡ true = contains_key-eq_of_pos x m (omega (arith, one)) in
        let left : evict cap xs (remove x m) ≡ (xs, remove x m) =
          evict-eq_of_lt cap xs (remove x m) (omega (arith, length-remove x m, one)) in
        rw (full, left)
          (rw entries-remove (
            rw (remove-entries_absent x xs m gone)
              (ground (arith, contains_key-lookup x m, there))))
  ]

  contains_key-view :
      (k : K) (c : SegmentCache K V) → IsValid c → contains_key k (view c) ≡ contains_key k c.map
  contains_key-view k c h =
      ground (arith, contains_key-lookup k (view c), contains_key-lookup k c.map, lookup-view k c h)

  -- On a valid segment cache `get` answers what the least-recently-used list holds under the path,
  -- and moves a hit to the back.
  pub get_refines :
      (k : K) (c : SegmentCache K V)
      → IsValid c
      → ((get k c).1 ≡ lookup k (view c)) × (view (get k c).0 ≡ refresh k (view c))
  unfolding get
  get_refines k c h = elim (Bool-cases (contains_key k c.map)) [
    | inl present ↦ elim (Option-cases (lookup k c.map)) [
      | inl missing ↦ cc (contains_key-lookup k c.map, missing, present)
      | inr (v, found) ↦
          let seen : lookup k (view c) ≡ some v = lookup-view k c h ∙ found in
          rw (refresh_found k v (view c) seen, present)
            (
              sym (lookup-view k c h),
              cc (
                entries-append (without k c.order) (k ∷ []) c.map,
                entries-without k c.order c.map,
                entries_single k v c.map found,
              ),
            )
    ]
    | inr absent ↦
        let missing : lookup k c.map ≡ none = ground (arith, contains_key-lookup k c.map) in
        let unseen : lookup k (view c) ≡ none = lookup-view k c h ∙ missing in
        rw (refresh_missing k (view c) unseen, absent) (sym unseen, refl)
  ]

  -- On a valid segment cache `insert` is the insert of the least-recently-used list: it replaces
  -- an entry and moves it to the back, or puts a new one there, and the oldest entry goes when the
  -- cache is full.
  pub insert_refines :
      (k : K) (v : V) (c : SegmentCache K V)
      → IsValid c
      → view (insert k v c) ≡ store c.capacity k v (view c)
  unfolding insert store
  insert_refines k v c h = elim (Bool-cases (contains_key k c.map)) [
    | inl present ↦
        let gone : count k (without k c.order) ≡ 0 =
          ground (arith, count-without k k c.order, beq_refl k) in
        rw (contains_key-view k c h, present)
          (rw (entries_push k v (without k c.order) c.map (omega (arith, gone)))
            (rw entries-without))
    | inr absent ↦
        rw (contains_key-view k c h, absent, length-view c h)
          (entries_push k v _ _ (
              omega (
                arith,
                count-evict_order-le k c.capacity c.order c.map,
                h.agree.same k,
                contains_key-false k c.map absent,
              ))
            ∙ rw (evict_full c.capacity c.order c.map h.agree h.bounded h.positive))
  ]

  pub invalidate_refines :
      (k : K) (c : SegmentCache K V) → IsValid c → view (invalidate k c) ≡ remove k (view c)
  unfolding invalidate
  invalidate_refines k c h = elim (Bool-cases (contains_key k c.map)) [
    | inl present ↦
        let gone : count k (without k c.order) ≡ 0 =
          ground (arith, count-without k k c.order, beq_refl k) in
        rw (present, entries-remove)
          (rw (remove-entries_absent k (without k c.order) c.map gone)
            (entries-without k c.order c.map))
    | inr absent ↦ rw absent (
        sym (
          remove-entries_absent k c.order c.map
            (omega (arith, h.agree.same k, contains_key-false k c.map absent))))
  ]

-- ===== src/Storage/Cache/Blob/Budget.antt =====
-- The bytes that an `IndexBlobCache` counts are the bytes that it holds, and they fit the budget
-- unless one file alone is larger.
use toradb.Prelude.{
  Eq, ℕ, ◌+◌, ◌^◌, ◌≤◌, ◌<◌, ◌≡◌, refl, ◌⊎◌, inl, inr, [], ◌∷◌, some, arith, false, Bool-cases,
}
use toradb.Collections.Keys.{count, beq_refl}
use toradb.Collections.Dict.{
  Dict, lookup, contains_key, remove, keys, contains_key-false, contains_key-eq_of_count,
  count-keys-remove, lookup-insert,
}
use toradb.Storage.Cache.Agree.{Agree, Agree-remove, Agree-push, Agree-touch}
use toradb.Storage.Cache.ByteQueue.{release, evict}
use toradb.Storage.Cache.ByteQueue.Room.{
  total, total-remove, release-total, total-put_absent, Evicted, evict-Evicted, count-evict-le,
}
use toradb.Storage.Cache.Blob.{IndexBlobCache, new, get, drop_stale, insert, invalidate}

module _ {K V : Type 0} ⦃e : Eq K⦄ (len : V → ℕ) where
  abbrev length_weight : K → V → ℕ
  length_weight _ mmap = len mmap

  -- The bytes of the files in a map.
  abbrev pub bytes : Dict K V → ℕ
  bytes = total length_weight

  pub record IsValid (c : IndexBlobCache K V) : Type 0 where
    pub agree : Agree c.order c.map
    pub counted : c.bytes_used ≡ bytes c.map

  pub release-agree :
      (k : K) (c : IndexBlobCache K V)
      → IsValid c
      → release length_weight k c.map c.bytes_used ≡ bytes (remove k c.map)
  release-agree k c h =
      rw h.counted
        (release-total length_weight k c.map (omega (arith, h.agree.same k, h.agree.once k)))

  drop_stale-IsValid : (k : K) (c : IndexBlobCache K V) → IsValid c → IsValid (drop_stale len k c)
  unfolding drop_stale
  drop_stale-IsValid k c h = elim (Bool-cases (contains_key k c.map)) [
    | inl present ↦
        rw present
          (record { agree = Agree-remove k c.order c.map h.agree; counted = release-agree k c h })
    | inr absent ↦ rw absent h
  ]

  -- After it the path is in neither, no bytes were added, and the budget is the old one.
  drop_stale_lem :
      (k : K) (c : IndexBlobCache K V)
      → IsValid c
      → (contains_key k (drop_stale len k c).map ≡ false)
        × (bytes (drop_stale len k c).map ≤ bytes c.map)
        × ((drop_stale len k c).byte_budget ≡ c.byte_budget)
  unfolding drop_stale
  drop_stale_lem k c h = elim (Bool-cases (contains_key k c.map)) [
    | inl present ↦ rw present (
      contains_key-eq_of_count k (remove k c.map)
          (ground (arith, count-keys-remove k k c.map, beq_refl k)),
      omega (
        arith,
        total-remove length_weight k c.map (omega (arith, h.agree.same k, h.agree.once k)),
      ),
      refl,
    )
    | inr absent ↦ rw absent (absent, omega arith, refl)
  ]

  -- After an insert of a file whose length and the bytes held together fit 64 bits, the map and
  -- the queue of a valid index cache agree, `bytes_used` is the sum of the lengths of the files
  -- held, the new file is found under its path, and the sum fits the budget unless that file is
  -- the only one.
  pub insert_budget :
      (k : K) (v : V) (c : IndexBlobCache K V)
      → IsValid c
      → bytes c.map + len v < 2 ^ 64
      → IsValid (insert len k v c)
        × (lookup k (insert len k v c).map ≡ some v)
        × (((insert len k v c).bytes_used ≤ c.byte_budget) ⊎ ((insert len k v c).order ≡ k ∷ []))
  unfolding insert
  insert_budget k v c h small =
      let c' = drop_stale len k c in
      let h' = drop_stale-IsValid k c h in
      let stale = drop_stale_lem k c h in
      let r : Evicted length_weight c'.byte_budget (len v)
          (evict length_weight c'.byte_budget (len v) c'.order c'.map c'.bytes_used) =
        rw h'.counted (
          evict-Evicted length_weight c'.byte_budget (len v) c'.order c'.map h'.agree
            (omega (arith, stale.1))) in
      let gone =
        contains_key-eq_of_count k
          (evict length_weight c'.byte_budget (len v) c'.order c'.map c'.bytes_used).1
          (omega (
            arith,
            count-evict-le length_weight k c'.byte_budget (len v) c'.order c'.map c'.bytes_used,
            contains_key-false k c'.map stale.0,
          )) in
      (
        record {
          agree = Agree-push k v _ _ gone r.agree;
          counted =
              rw (total-put_absent length_weight k v _ gone) (omega (arith, r.fits, r.counted));
        },
        rw (lookup-insert, beq_refl k),
        elim r.room [
          | inl fits ↦ inl (omega (arith, fits, r.fits, stale.2))
          | inr empty ↦ inr (rw empty)
        ],
      )

  pub get-IsValid : (k : K) (c : IndexBlobCache K V) → IsValid c → IsValid (get k c).0
  unfolding get
  get-IsValid k c h = elim (Bool-cases (contains_key k c.map)) [
    | inl present ↦
        rw present
          (record { agree = Agree-touch k c.order c.map present h.agree; counted = h.counted })
    | inr absent ↦ rw absent (record { agree = h.agree; counted = h.counted })
  ]

  pub invalidate-IsValid :
      (k : K) (c : IndexBlobCache K V) → IsValid c → IsValid (invalidate len k c)
  unfolding invalidate
  invalidate-IsValid k c h = elim (Bool-cases (contains_key k c.map)) [
    | inl present ↦
        rw present
          (record { agree = Agree-remove k c.order c.map h.agree; counted = release-agree k c h })
    | inr absent ↦ rw absent h
  ]

  pub IsValid-new : (n : ℕ) → IsValid (new n)
  unfolding new total count keys
  IsValid-new n = record {
    agree = record { same = λ k. refl; once = λ k. omega arith; sizes = refl };
    counted = refl;
  }

-- ===== src/Storage/Cache/Bm25/Budget.antt =====
-- The byte count of a `SegmentBm25Cache` while the files keep the sizes that were counted, and what
-- becomes of it when a file's size changes.
use toradb.Prelude.{
  Eq, ℕ, ◌+◌, ◌^◌, ◌≤◌, ◌<◌, ◌≡◌, refl, ◌⊎◌, inl, inr, [], ◌∷◌, some, arith, false, Option-cases,
  Result, ok, err, Text,
}
use toradb.Collections.Keys.{count, beq_refl}
use toradb.Collections.Dict.{
  Dict, lookup, contains_key, keys, lookup-insert, contains_key-lookup, contains_key-false,
  contains_key-eq_of_count,
}
use toradb.Storage.Cache.Agree.{Agree, Agree-push, Agree-touch}
use toradb.Storage.Cache.ByteQueue.{evict}
use toradb.Storage.Cache.ByteQueue.Room.{
  total, total-put_absent, Evicted, evict-Evicted, count-evict-le,
}
use toradb.Storage.Cache.Stats.{count_hit, count_miss}
use toradb.Storage.Cache.Bm25.{
  SegmentBm25Cache, new, file_weight, touch, drop_stale, admit, get_or_insert,
}

module _ {K V : Type 0} ⦃e : Eq K⦄ (entry_bytes : K → ℕ) where
  abbrev pub bytes : Dict K V → ℕ
  bytes = total (file_weight entry_bytes)

  pub record IsValid (c : SegmentBm25Cache K V) : Type 0 where
    pub agree : Agree c.order c.map
    pub counted : c.bytes_used ≡ bytes c.map

  drop_stale_absent :
      (k : K) (c : SegmentBm25Cache K V)
      → contains_key k c.map ≡ false
      → drop_stale entry_bytes k c ≡ c
  unfolding drop_stale
  drop_stale_absent k c h = rw h

  -- A new entry: counted, found again, and within the budget unless it is alone.
  admit_budget :
      (k : K) (v : V) (c : SegmentBm25Cache K V)
      → IsValid c
      → contains_key k c.map ≡ false
      → bytes c.map + entry_bytes k < 2 ^ 64
      → IsValid (admit entry_bytes k v c)
        × (lookup k (admit entry_bytes k v c).map ≡ some v)
        × (((admit entry_bytes k v c).bytes_used ≤ c.byte_budget)
            ⊎ ((admit entry_bytes k v c).order ≡ k ∷ []))
  unfolding admit
  admit_budget k v c h absent small =
      let weight : K → V → ℕ = file_weight entry_bytes in
      let r : Evicted weight c.byte_budget (entry_bytes k)
          (evict weight c.byte_budget (entry_bytes k) c.order c.map c.bytes_used) =
        rw h.counted
          (evict-Evicted weight c.byte_budget (entry_bytes k) c.order c.map h.agree small) in
      let gone =
        contains_key-eq_of_count k
          (evict weight c.byte_budget (entry_bytes k) c.order c.map c.bytes_used).1
          (omega (
            arith,
            count-evict-le weight k c.byte_budget (entry_bytes k) c.order c.map c.bytes_used,
            contains_key-false k c.map absent,
          )) in
      rw (drop_stale_absent k c absent) (
        record {
          agree = Agree-push k v _ _ gone r.agree;
          counted = rw (total-put_absent weight k v _ gone) (omega (arith, r.fits, r.counted));
        },
        rw (lookup-insert, beq_refl k),
        elim r.room [ inl fits ↦ inl (omega (arith, fits, r.fits)) | inr empty ↦ inr (rw empty) ],
      )

  abbrev counted_miss : SegmentBm25Cache K V → SegmentBm25Cache K V
  counted_miss c = record c { stats = count_miss c.stats }

  hit_IsValid :
      (k : K) (v : V) (c : SegmentBm25Cache K V)
      → lookup k c.map ≡ some v
      → IsValid c
      → IsValid (touch k (record c { stats = count_hit c.stats }))
  unfolding touch
  hit_IsValid k v c there h = record {
    agree = Agree-touch k c.order c.map (ground (arith, contains_key-lookup k c.map)) h.agree;
    counted = h.counted;
  }

  -- `get_or_insert` while every file has the size that was counted for it: the cache stays valid, an
  -- answer is in the map under its path, an error has changed the miss counter alone, and the bytes
  -- fit the budget, or stand as before the call, or the path is alone.
  pub record Answered (k : K) (c : SegmentBm25Cache K V) (r : SegmentBm25Cache K V × Result V)
      : Type 0 where
    pub valid : IsValid r.0
    pub found : (v : V) → r.1 ≡ ok v → lookup k r.0.map ≡ some v
    pub kept :
        (message : Text)
        → r.1 ≡ err message
        → (r.0.map ≡ c.map) × (r.0.order ≡ c.order) × (r.0.bytes_used ≡ c.bytes_used)
    pub room :
        (r.0.bytes_used ≤ c.byte_budget) ⊎ ((r.0.bytes_used ≡ c.bytes_used) ⊎ (r.0.order ≡ k ∷ []))

  Answered-hit :
      (k : K) (v : V) (c : SegmentBm25Cache K V)
      → lookup k c.map ≡ some v
      → IsValid c
      → Answered k c (touch k (record c { stats = count_hit c.stats }), ok v)
  unfolding touch
  Answered-hit k v c there h = record {
    valid = hit_IsValid k v c there h;
    found = λ w same. cc (there);
    kept = λ message wrong. cc;
    room = inr (inl refl);
  }

  Answered-failed :
      (k : K) (message : Text) (c : SegmentBm25Cache K V)
      → IsValid c
      → Answered k c (counted_miss c, err message)
  Answered-failed k message c h = record {
    valid = record { agree = h.agree; counted = h.counted };
    found = λ v wrong. cc;
    kept = λ m same. (refl, refl, refl);
    room = inr (inl refl);
  }

  Answered-loaded :
      (k : K) (v : V) (c : SegmentBm25Cache K V)
      → IsValid c
      → contains_key k c.map ≡ false
      → bytes c.map + entry_bytes k < 2 ^ 64
      → Answered k c (admit entry_bytes k v (counted_miss c), ok v)
  Answered-loaded k v c h absent small =
      let done =
        admit_budget k v (counted_miss c) (record { agree = h.agree; counted = h.counted }) absent
          small in
      record {
        valid = done.0;
        found = λ w same. cc (done.1);
        kept = λ m wrong. cc;
        room = elim done.2 [ inl fits ↦ inl fits | inr alone ↦ inr (inr alone) ];
      }

  -- While every file has the size that was counted for it, `get_or_insert` on a valid BM25 cache
  -- keeps it valid, an answer stands in the map under its path, an error leaves map, queue and
  -- bytes as they were, and the bytes fit the budget, or stand as before the call, or the path is
  -- alone.
  pub get_or_insert_budget :
      (k : K) (load : Result V) (c : SegmentBm25Cache K V)
      → IsValid c
      → bytes c.map + entry_bytes k < 2 ^ 64
      → Answered k c (get_or_insert entry_bytes k load c)
  unfolding get_or_insert
  get_or_insert_budget k (err message) c h small = elim (Option-cases (lookup k c.map)) [
    | inr (hit, there) ↦ rw (there, get_or_insert) (Answered-hit k hit c there h)
    | inl missing ↦ rw (missing, get_or_insert) (Answered-failed k message c h)
  ]
  get_or_insert_budget k (ok v) c h small = elim (Option-cases (lookup k c.map)) [
    | inr (hit, there) ↦ rw (there, get_or_insert) (Answered-hit k hit c there h)
    | inl missing ↦
        rw (missing, get_or_insert)
          (Answered-loaded k v c h (ground (arith, contains_key-lookup k c.map)) small)
  ]

  pub IsValid-new : (n : ℕ) → IsValid (new n)
  unfolding new total count keys
  IsValid-new n = record {
    agree = record { same = λ k. refl; once = λ k. omega arith; sizes = refl };
    counted = refl;
  }

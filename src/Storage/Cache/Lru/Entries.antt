-- ===== src/Storage/Cache/Lru/Entries.antt =====
-- How the entries of a map, read in the order of a queue, follow changes of the map and the queue.
use toradb.Prelude.{Eq, ◌<◌, ◌≡◌, refl, List, [], ◌∷◌, ◌++◌, arith, true, none, some, length}
use toradb.Collections.Keys.{count, without, beq_refl}
use toradb.Collections.Dict.{
  Dict, lookup, contains_key, remove, insert as put, lookup-insert, lookup-remove,
  contains_key-lookup,
}
use toradb.Storage.Cache.Lru.{entries, refresh}

module _ {K V : Type 0} ⦃e : Eq K⦄ where
  pub entries-append :
      (xs ys : List K) (m : Dict K V) → entries (xs ++ ys) m ≡ entries xs m ++ entries ys m
  unfolding entries
  entries-append [] ys m = refl
  entries-append (x ∷ xs) ys m = ground (arith, entries-append xs ys m)

  pub entries-without :
      (k : K) (order : List K) (m : Dict K V)
      → entries (without k order) m ≡ remove k (entries order m)
  unfolding entries without remove
  entries-without k [] m = refl
  entries-without k (x ∷ xs) m = ground (arith, entries-without k xs m, e.beq_iff x k)

  pub entries-remove :
      (k : K) (order : List K) (m : Dict K V)
      → entries order (remove k m) ≡ remove k (entries order m)
  unfolding entries remove
  entries-remove k [] m = refl
  entries-remove k (x ∷ xs) m =
      ground (arith, entries-remove k xs m, lookup-remove k x m, e.beq_iff x k, e.beq_iff k x)

  pub remove-entries_absent :
      (k : K) (order : List K) (m : Dict K V)
      → count k order ≡ 0
      → remove k (entries order m) ≡ entries order m
  unfolding entries remove count
  remove-entries_absent k [] m h = refl
  remove-entries_absent k (x ∷ xs) m h = ground (arith, remove-entries_absent k xs m)

  pub entries-put_absent :
      (k : K) (v : V) (order : List K) (m : Dict K V)
      → count k order ≡ 0
      → entries order (put k v m) ≡ entries order m
  unfolding entries count
  entries-put_absent k v [] m h = refl
  entries-put_absent k v (x ∷ xs) m h =
      ground
        (arith, entries-put_absent k v xs m, lookup-insert k x v m, e.beq_iff x k, e.beq_iff k x)

  -- A path outside the map has no entry.
  pub lookup-entries-none :
      (k : K) (order : List K) (m : Dict K V)
      → lookup k m ≡ none
      → lookup k (entries order m) ≡ none
  unfolding entries lookup
  lookup-entries-none k [] m h = refl
  lookup-entries-none k (x ∷ xs) m h = ground (arith, lookup-entries-none k xs m, e.beq_iff x k)

  -- A path of the queue has the entry that the map holds.
  pub lookup-entries :
      (k : K) (order : List K) (m : Dict K V)
      → 0 < count k order
      → lookup k (entries order m) ≡ lookup k m
  unfolding entries lookup count
  lookup-entries k [] m h = absurd (omega arith)
  lookup-entries k (x ∷ xs) m h =
      ground (arith, lookup-entries k xs m, lookup-entries-none k xs m, e.beq_iff x k)

  -- With every path of the queue in the map, no entry is lost.
  pub length-entries :
      (order : List K) (m : Dict K V)
      → ((k : K) → 0 < count k order → contains_key k m ≡ true)
      → length (entries order m) ≡ length order
  unfolding entries count
  length-entries [] m h = refl
  length-entries (x ∷ xs) m h = ground (
    arith,
    contains_key-lookup x m,
    h x,
    beq_refl x,
    length-entries xs m (λ k p. h k (ground arith)),
  )

  pub entries_single :
      (k : K) (v : V) (m : Dict K V) → lookup k m ≡ some v → entries (k ∷ []) m ≡ (k, v) ∷ []
  unfolding entries
  entries_single k v m h = ground arith

  -- A path put at the back of a queue that does not hold it.
  pub entries_push :
      (k : K) (v : V) (order : List K) (m : Dict K V)
      → count k order ≡ 0
      → entries (order ++ k ∷ []) (put k v m) ≡ entries order m ++ (k, v) ∷ []
  entries_push k v order m h = cc (
    entries-append order (k ∷ []) (put k v m),
    entries-put_absent k v order m h,
    entries_single k v (put k v m) (rw (lookup-insert, beq_refl k)),
  )

  pub refresh_found :
      (k : K) (v : V) (l : Dict K V) → lookup k l ≡ some v → refresh k l ≡ remove k l ++ (k, v) ∷ []
  unfolding refresh
  refresh_found k v l h = ground arith

  pub refresh_missing : (k : K) (l : Dict K V) → lookup k l ≡ none → refresh k l ≡ l
  unfolding refresh
  refresh_missing k l h = ground arith

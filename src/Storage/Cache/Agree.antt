-- ===== src/Storage/Cache/Agree.antt =====
-- The queue and the map of a cache of cache.rs agree: what the operations do to both keeps that.
use toradb.Prelude.{Eq, ◌≤◌, ◌≡◌, List, [], ◌∷◌, ◌++◌, arith, true, false, length, length-append}
use toradb.Collections.Keys.{count, without, beq_refl, count-append, count-without, length-without}
use toradb.Collections.Dict.{
  Dict, contains_key, remove, keys, count-keys-remove, length-remove, contains_key-eq,
  contains_key-false, count-keys-insert, length-insert, insert as put,
}

module _ {K V : Type 0} ⦃e : Eq K⦄ where
  -- The queue and the map agree: each path that occurs does so once, in both.
  pub record Agree (order : List K) (m : Dict K V) : Type 0 where
    pub same : (k : K) → count k order ≡ count k (keys m)
    pub once : (k : K) → count k order ≤ 1
    pub sizes : length order ≡ length m

  -- Dropping one path from both sides.
  pub Agree-remove :
      (k : K) (order : List K) (m : Dict K V) → Agree order m → Agree (without k order) (remove k m)
  Agree-remove k order m h = record {
    same = λ j. ground (arith, count-without k j order, count-keys-remove k j m, h.same j);
    once = λ j. ground (arith, count-without k j order, h.once j);
    sizes = omega (arith, length-without k order, length-remove k m, h.same k, h.sizes);
  }

  pub Agree-pop :
      (k : K) (order : List K) (m : Dict K V) → Agree (k ∷ order) m → Agree order (remove k m)
  unfolding count
  Agree-pop k order m h = record {
    same = λ j.
        ground
          (arith, count-keys-remove k j m, h.same j, h.once j, h.once k, e.beq_iff k j, beq_refl k);
    once = λ j. ground (arith, h.once j);
    sizes = ground (arith, length-remove k m, h.same k, h.once k, h.sizes, beq_refl k);
  }

  pub Agree-push :
      (k : K) (v : V) (order : List K) (m : Dict K V)
      → contains_key k m ≡ false
      → Agree order m
      → Agree (order ++ k ∷ []) (put k v m)
  unfolding count
  Agree-push k v order m absent h = record {
    same = λ j. ground (
      arith,
      count-append j order (k ∷ []),
      count-keys-insert k j v m,
      h.same j,
      contains_key-false k m,
      e.beq_iff k j,
    );
    once = λ j. ground (
      arith,
      count-append j order (k ∷ []),
      h.same j,
      h.once j,
      contains_key-false k m,
      e.beq_iff k j,
    );
    sizes = ground (arith, length-append order (k ∷ []), length-insert k v m, h.sizes);
  }

  -- Moving a present path to the back.
  pub Agree-touch :
      (k : K) (order : List K) (m : Dict K V)
      → contains_key k m ≡ true
      → Agree order m
      → Agree (without k order ++ k ∷ []) m
  unfolding count
  Agree-touch k order m present h = record {
    same = λ j. ground (
      arith,
      count-append j (without k order) (k ∷ []),
      count-without k j order,
      h.same j,
      h.same k,
      h.once k,
      contains_key-eq k m,
      e.beq_iff k j,
    );
    once = λ j.
        ground
          (arith, count-append j (without k order) (k ∷ []), count-without k j order, h.once j);
    sizes = ground (
      arith,
      length-append (without k order) (k ∷ []),
      length-without k order,
      h.same k,
      h.once k,
      h.sizes,
      contains_key-eq k m,
    );
  }

  pub Agree-put :
      (k : K) (v : V) (order : List K) (m : Dict K V)
      → contains_key k m ≡ true
      → Agree order m
      → Agree order (put k v m)
  Agree-put k v order m present h = record {
    same = λ j. ground (arith, count-keys-insert k j v m, h.same j);
    once = h.once;
    sizes = ground (arith, length-insert k v m, h.sizes);
  }

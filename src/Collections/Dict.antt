-- ===== src/Collections/Dict.antt =====
-- A hash map as an association list. An insert under a present key replaces the value in place, so
-- a list that starts empty holds one entry a key; the order of the entries means nothing.
use toradb.Prelude.{
  Eq, ◌=?◌, suc, ◌+◌, ◌<◌, ◌≡◌, refl, Bool, true, false, List, [], ◌∷◌, arith, Option, none, some,
  length, if◌then◌else◌,
}
use toradb.Collections.Keys.{count}

abbrev pub Dict {ℓ κ} : Type ℓ → Type κ → Type (ℓ ⊔ κ)
Dict K V = List (K × V)

module _ {ℓ κ} {K : Type ℓ} {V : Type κ} ⦃e : Eq K⦄ where
  unfoldable pub lookup : K → Dict K V → Option V
  lookup k [] = none
  lookup k ((j, v) ∷ m) = if j =? k then some v else lookup k m

  unfoldable pub contains_key : K → Dict K V → Bool
  contains_key k [] = false
  contains_key k ((j, v) ∷ m) = if j =? k then true else contains_key k m

  unfoldable pub insert : K → V → Dict K V → Dict K V
  insert k v [] = (k, v) ∷ []
  insert k v ((j, w) ∷ m) = if j =? k then (k, v) ∷ m else (j, w) ∷ insert k v m

  unfoldable pub remove : K → Dict K V → Dict K V
  remove k [] = []
  remove k ((j, w) ∷ m) = let rest = remove k m in if j =? k then rest else (j, w) ∷ rest

  unfoldable pub keys : Dict K V → List K
  keys [] = []
  keys ((j, w) ∷ m) = j ∷ keys m

  pub count-keys-remove :
      (k j : K) (m : Dict K V)
      → count j (keys (remove k m)) ≡ (if k =? j then 0 else count j (keys m))
  unfolding count keys remove
  count-keys-remove k j [] = ground arith
  count-keys-remove k j ((i, v) ∷ m) =
      ground (arith, count-keys-remove k j m, e.beq_iff i k, e.beq_iff i j, e.beq_iff k j)

  pub length-remove : (k : K) (m : Dict K V) → length (remove k m) + count k (keys m) ≡ length m
  unfolding count keys remove
  length-remove k [] = omega arith
  length-remove k ((i, v) ∷ m) = ground (arith, length-remove k m)

  pub contains_key-eq : (k : K) (m : Dict K V) → contains_key k m ≡ true → 0 < count k (keys m)
  unfolding count keys contains_key
  contains_key-eq k [] h = absurd (ground arith)
  contains_key-eq k ((i, v) ∷ m) h = ground (arith, contains_key-eq k m)

  pub contains_key-false : (k : K) (m : Dict K V) → contains_key k m ≡ false → count k (keys m) ≡ 0
  unfolding count keys contains_key
  contains_key-false k [] h = refl
  contains_key-false k ((i, v) ∷ m) h = ground (arith, contains_key-false k m)

  pub contains_key-eq_of_count :
      (k : K) (m : Dict K V) → count k (keys m) ≡ 0 → contains_key k m ≡ false
  unfolding count keys contains_key
  contains_key-eq_of_count k [] h = refl
  contains_key-eq_of_count k ((i, v) ∷ m) h = ground (arith, contains_key-eq_of_count k m)

  pub contains_key-eq_of_pos :
      (k : K) (m : Dict K V) → 0 < count k (keys m) → contains_key k m ≡ true
  unfolding count keys contains_key
  contains_key-eq_of_pos k [] h = absurd (omega arith)
  contains_key-eq_of_pos k ((i, v) ∷ m) h = ground (arith, contains_key-eq_of_pos k m)

  pub count-keys-insert :
      (k j : K) (v : V) (m : Dict K V)
      → count j (keys (insert k v m)) ≡ (
          if contains_key k m
          then count j (keys m)
          else count j (keys m) + (if k =? j then 1 else 0))
  unfolding count keys insert contains_key
  count-keys-insert k j v [] = ground arith
  count-keys-insert k j v ((i, w) ∷ m) =
      ground (arith, count-keys-insert k j v m, e.beq_iff i k, e.beq_iff i j, e.beq_iff k j)

  pub length-insert :
      (k : K) (v : V) (m : Dict K V)
      → length (insert k v m) ≡ (if contains_key k m then length m else suc (length m))
  unfolding insert contains_key
  length-insert k v [] = ground arith
  length-insert k v ((i, w) ∷ m) = ground (arith, length-insert k v m)

  pub lookup-insert :
      (k j : K) (v : V) (m : Dict K V)
      → lookup j (insert k v m) ≡ (if k =? j then some v else lookup j m)
  unfolding lookup insert
  lookup-insert k j v [] = refl
  lookup-insert k j v ((i, w) ∷ m) =
      ground (arith, e.beq_iff k j, e.beq_iff i k, e.beq_iff i j, lookup-insert k j v m)

  pub lookup-remove :
      (k j : K) (m : Dict K V) → lookup j (remove k m) ≡ (if k =? j then none else lookup j m)
  unfolding lookup remove
  lookup-remove k j [] = ground arith
  lookup-remove k j ((i, w) ∷ m) =
      ground (arith, e.beq_iff k j, e.beq_iff i k, e.beq_iff i j, lookup-remove k j m)

  pub contains_key-lookup :
      (k : K) (m : Dict K V) → contains_key k m ≡ elim (lookup k m) [ none ↦ false | some _ ↦ true ]
  unfolding lookup contains_key
  contains_key-lookup k [] = refl
  contains_key-lookup k ((i, w) ∷ m) = ground (arith, contains_key-lookup k m)

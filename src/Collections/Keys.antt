-- ===== src/Collections/Keys.antt =====
-- Lists of keys: how often a key occurs, and `retain` by a key.
use toradb.Prelude.{
  Eq, ◌=?◌, ℕ, suc, ◌+◌, ◌<◌, ◌≡◌, refl, Bool, true, false, List, [], ◌∷◌, ◌++◌, arith, length,
  if◌then◌else◌,
}

module _ {ℓ} {K : Type ℓ} ⦃e : Eq K⦄ where
  unfoldable pub count : K → List K → ℕ
  count k [] = 0
  count k (j ∷ js) = if j =? k then suc (count k js) else count k js

  -- `order.retain(|p| p != key)`
  unfoldable pub without : K → List K → List K
  without k [] = []
  without k (j ∷ js) = let rest = without k js in if j =? k then rest else j ∷ rest

  unfoldable pub contains : K → List K → Bool
  contains k [] = false
  contains k (j ∷ js) = if j =? k then true else contains k js

  pub beq_refl : (k : K) → (k =? k) ≡ true
  beq_refl k = (e.beq_iff k k).1 refl

  pub count-append : (k : K) (xs ys : List K) → count k (xs ++ ys) ≡ count k xs + count k ys
  unfolding count
  count-append k [] ys = omega arith
  count-append k (x ∷ xs) ys = ground (arith, count-append k xs ys)

  pub count-without :
      (k j : K) (xs : List K) → count j (without k xs) ≡ (if k =? j then 0 else count j xs)
  unfolding count without
  count-without k j [] = ground arith
  count-without k j (x ∷ xs) =
      ground (arith, count-without k j xs, e.beq_iff x k, e.beq_iff x j, e.beq_iff k j)

  pub length-without : (k : K) (xs : List K) → length (without k xs) + count k xs ≡ length xs
  unfolding count without
  length-without k [] = omega arith
  length-without k (x ∷ xs) = ground (arith, length-without k xs)

  pub without-eq_of_count : (k : K) (xs : List K) → count k xs ≡ 0 → without k xs ≡ xs
  unfolding count without
  without-eq_of_count k [] h = refl
  without-eq_of_count k (x ∷ xs) h = ground (arith, without-eq_of_count k xs)

  pub contains-eq_of_count : (k : K) (xs : List K) → count k xs ≡ 0 → contains k xs ≡ false
  unfolding count contains
  contains-eq_of_count k [] h = refl
  contains-eq_of_count k (x ∷ xs) h = ground (arith, contains-eq_of_count k xs)

  pub contains-eq_of_pos : (k : K) (xs : List K) → 0 < count k xs → contains k xs ≡ true
  unfolding count contains
  contains-eq_of_pos k [] h = absurd (omega arith)
  contains-eq_of_pos k (x ∷ xs) h = ground (arith, contains-eq_of_pos k xs)

  pub contains-append :
      (k : K) (xs ys : List K)
      → contains k (xs ++ ys) ≡ (if contains k xs then true else contains k ys)
  unfolding contains
  contains-append k [] ys = refl
  contains-append k (x ∷ xs) ys = ground (arith, contains-append k xs ys)

  pub contains_single : (k j : K) → contains k (j ∷ []) ≡ (j =? k)
  unfolding contains
  contains_single k j = ground arith

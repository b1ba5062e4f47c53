-- ===== src/Prelude/Sort.antt =====
-- `sort_by` and `sort_by_key`, which are stable, and `chunks`.
use Prim.Native.Nat.{ℕ, zero, suc, ◌+◌, ◌≤◌}
use mathlib.Core.Path.{◌≡◌, refl}
use mathlib.Core.Bool.{Bool}
use mathlib.Core.List.{List, [], ◌∷◌, ◌++◌}
use native.Mathlib.Omega.{arith}
use toradb.Prelude.Tests.{if◌then◌else◌}
use toradb.Prelude.Lists.{length, take, drop}

module _ {ℓ} {A : Type ℓ} (after : A → A → Bool) where
  -- Before the first that it does not come after.
  unfoldable pub put_in_order : A → List A → List A
  put_in_order x [] = x ∷ []
  put_in_order x (y ∷ ys) =
      let rest = put_in_order x ys in if after x y then y ∷ rest else x ∷ y ∷ ys

  unfoldable pub sort : List A → List A
  sort [] = []
  sort (x ∷ xs) = put_in_order x (sort xs)

-- A weight summed over a list.
module _ {ℓ} {A : Type ℓ} (weight : A → ℕ) where
  unfoldable pub sum_of : List A → ℕ
  sum_of [] = 0
  sum_of (x ∷ xs) = weight x + sum_of xs

  sum_of-put_in_order :
      (after : A → A → Bool) (x : A) (xs : List A)
      → sum_of (put_in_order after x xs) ≡ weight x + sum_of xs
  unfolding sum_of put_in_order
  sum_of-put_in_order after x [] = refl
  sum_of-put_in_order after x (y ∷ ys) = ground (arith, sum_of-put_in_order after x ys)

  pub sum_of-sort : (after : A → A → Bool) (xs : List A) → sum_of (sort after xs) ≡ sum_of xs
  unfolding sum_of sort
  sum_of-sort after [] = refl
  sum_of-sort after (x ∷ xs) =
      omega (arith, sum_of-put_in_order after x (sort after xs), sum_of-sort after xs)

  pub sum_of-append : (xs ys : List A) → sum_of (xs ++ ys) ≡ sum_of xs + sum_of ys
  unfolding sum_of
  sum_of-append [] ys = omega arith
  sum_of-append (x ∷ xs) ys = omega (arith, sum_of-append xs ys)

module _ {ℓ} {A : Type ℓ} where
  -- The pieces of `n` elements, the last one shorter; there are no more than the turns given.
  unfoldable pub chunks_within : ℕ → ℕ → List A → List (List A)
  chunks_within zero n xs = []
  chunks_within (suc f) n [] = []
  chunks_within (suc f) n (x ∷ xs) = take n (x ∷ xs) ∷ chunks_within f n (drop n (x ∷ xs))

  -- `xs.chunks(n)`, for `n` above 0.
  unfoldable pub chunks : ℕ → List A → List (List A)
  unfolding chunks_within
  chunks n xs = chunks_within (length xs) n xs

  pub sum_of-take-drop :
      (w : A → ℕ) (n : ℕ) (xs : List A) → sum_of w (take n xs) + sum_of w (drop n xs) ≡ sum_of w xs
  unfolding sum_of
  sum_of-take-drop w zero xs = omega arith
  sum_of-take-drop w (suc n) [] = refl
  sum_of-take-drop w (suc n) (x ∷ xs) = omega (arith, sum_of-take-drop w n xs)

  pub sum_of-chunks_within :
      (w : A → ℕ) (f n : ℕ) (xs : List A) → sum_of (sum_of w) (chunks_within f n xs) ≤ sum_of w xs
  unfolding sum_of chunks_within
  sum_of-chunks_within w zero n xs = omega arith
  sum_of-chunks_within w (suc f) n [] = omega arith
  sum_of-chunks_within w (suc f) n (x ∷ xs) =
      omega (arith, sum_of-chunks_within w f n (drop n (x ∷ xs)), sum_of-take-drop w n (x ∷ xs))

  pub sum_of-chunks :
      (w : A → ℕ) (n : ℕ) (xs : List A) → sum_of (sum_of w) (chunks n xs) ≤ sum_of w xs
  unfolding chunks
  sum_of-chunks w n xs = sum_of-chunks_within w (length xs) n xs

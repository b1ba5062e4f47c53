-- ===== src/Core/Candidate.antt =====
-- crates/toradb-core/src/candidate.rs: a set of candidates, as a list of ids and a list of scores
-- side by side. `none` is a panic of an index out of range. The scores are 32-bit floats, of which
-- only the comparison is used: `partial_cmp`.
pub mod Pairs
mod Order
mod Tests
use toradb.Prelude.{
  ℕ, suc, ◌+◌, ◌-◌, ◌%◌, ◌^◌, min, Bool, true, false, Option, none, some, List, [], ◌∷◌, ◌++◌, map,
  arith, length, get_elem?, take, drop, ltb, leb, if◌then◌else◌, nat_eq,
}
use Prim.Native.Nat.{compare, Ordering}
use toradb.Collections.Keys.{contains}

pub record CandidateSet (S : Type 0) : Type 0 where
  pub ids : List ℕ
  pub scores : List S

-- `a.partial_cmp(&b).unwrap_or(Ordering::Equal)`
unfoldable pub or_equal : Option Ordering → Ordering
or_equal none = Ordering.eq
or_equal (some o) = o

unfoldable pub ordering_then : Ordering → Ordering → Ordering
ordering_then Ordering.eq p = p
ordering_then Ordering.lt p = Ordering.lt
ordering_then Ordering.gt p = Ordering.gt

unfoldable pub is_empty : {A : Type 0} → List A → Bool
is_empty [] = true
is_empty (_ ∷ _) = false

-- `v[a..b]`, which panics unless `a <= b <= v.len()`.
unfoldable pub range : {A : Type 0} → ℕ → ℕ → List A → Option (List A)
range a b xs =
    if leb a b then (if leb b (length xs) then some (take (b - a) (drop a xs)) else none) else none

module _ {S : Type 0} where
  unfoldable pub empty : CandidateSet S
  empty = record { ids = []; scores = [] }

  unfoldable pub len : CandidateSet S → ℕ
  len c = length c.ids

  unfoldable pub push : ℕ → S → CandidateSet S → CandidateSet S
  push id score c = record { ids = c.ids ++ id ∷ []; scores = c.scores ++ score ∷ [] }

  unfoldable pub truncate : ℕ → CandidateSet S → CandidateSet S
  truncate n c = record { ids = take n c.ids; scores = take n c.scores }

  unfoldable pub zip : List ℕ → List S → List (ℕ × S)
  zip [] ss = []
  zip (i ∷ is) [] = []
  zip (i ∷ is) (s ∷ ss) = (i, s) ∷ zip is ss

  -- `slice::sort_by`, the stable sort. The library leaves the result open, and may panic, where the
  -- comparison is no total order, as it is with a score that is not a number.
  unfoldable pub place : (ℕ × S → ℕ × S → Ordering) → ℕ × S → List (ℕ × S) → List (ℕ × S)
  place cmp x [] = x ∷ []
  place cmp x (y ∷ ys) =
      let rest = place cmp x ys in elim (cmp x y) [ Ordering.gt ↦ y ∷ rest | _ ↦ x ∷ y ∷ ys ]

  unfoldable pub sort_by : (ℕ × S → ℕ × S → Ordering) → List (ℕ × S) → List (ℕ × S)
  sort_by cmp [] = []
  sort_by cmp (x ∷ xs) = place cmp x (sort_by cmp xs)

  -- The comparison of the sort: by score, one way or the other, then by id.
  unfoldable pub pair_cmp : (S → S → Option Ordering) → Bool → ℕ × S → ℕ × S → Ordering
  unfolding or_equal ordering_then
  pair_cmp partial_cmp descending a b =
      ordering_then (or_equal (if descending then partial_cmp b.1 a.1 else partial_cmp a.1 b.1))
        (compare a.0 b.0)

  unfoldable pub sort_by_score : (S → S → Option Ordering) → Bool → CandidateSet S → CandidateSet S
  unfolding zip sort_by place pair_cmp
  sort_by_score partial_cmp descending c =
      let pairs = sort_by (pair_cmp partial_cmp descending) (zip c.ids c.scores) in
      record { ids = map (λ (p : ℕ × S). p.0) pairs; scores = map (λ (p : ℕ × S). p.1) pairs }

  -- `v[i]`, put in front of what the rest of the loop collects.
  abbrev pub with_pair : Option ℕ → Option S → Option (CandidateSet S) → Option (CandidateSet S)
  with_pair (some id) (some s) (some c) = some (record { ids = id ∷ c.ids; scores = s ∷ c.scores })
  with_pair _ _ _ = none

  unfoldable pub reorder : List ℕ → CandidateSet S → Option (CandidateSet S)
  unfolding len empty
  reorder [] c = some empty
  reorder (idx ∷ order) c =
      let rest = reorder order c in
      if ltb idx (len c)
      then with_pair (get_elem? c.ids idx) (get_elem? c.scores idx) rest
      else rest

  unfoldable pub retain_indices : List ℕ → CandidateSet S → Option (CandidateSet S)
  unfolding reorder
  retain_indices keep c = reorder keep c

  -- The loop of `remove_ids` from index `i` on.
  unfoldable pub remove_from : List ℕ → ℕ → List ℕ → List S → Option (CandidateSet S)
  unfolding empty
  remove_from deleted i [] scores = some empty
  remove_from deleted i (id ∷ ids) scores =
      let rest = remove_from deleted (suc i) ids scores in
      if contains id deleted then rest else with_pair (some id) (get_elem? scores i) rest

  unfoldable pub remove_ids : List ℕ → CandidateSet S → Option (CandidateSet S)
  unfolding is_empty
  remove_ids deleted c =
      if is_empty deleted
      then some c
      else (if is_empty c.ids then some c else remove_from deleted 0 c.ids c.scores)

  abbrev pub both : Option (List ℕ) → Option (List S) → Option (CandidateSet S)
  both (some ids) (some scores) = some (record { ids = ids; scores = scores })
  both _ _ = none

  -- The sum of the release build, which wraps around at 64 bits.
  unfoldable pub slice_range : ℕ → ℕ → CandidateSet S → Option (CandidateSet S)
  unfolding len empty
  slice_range offset limit c =
      if leb (len c) offset
      then some empty
      else let end = min ((offset + limit) % 2 ^ 64) (len c) in
        both (range offset end c.ids) (range offset end c.scores)

-- ===== src/Storage/Compaction/Merge/Batches.antt =====
-- Rows in the order of their ids, and what a batch of them is cut into.
use toradb.Prelude.{
  ℕ, ◌+◌, ◌≤◌, ◌<◌, ◌≡◌, refl, sym, ap, inl, inr, Bool, true, ◌&&◌, Bool-cases, some, Option-cases,
  List, [], ◌∷◌, ◌++◌, leb, length, take, drop, retain, all, arith, max,
}
use toradb.Storage.Compaction.Merge.{
  Row, contains_id, batch_min_id, batch_max_id, split_pos, is_live, filter_batch_by_deleted,
  unwrap_or,
}

module _ {C : Type 0} where
  -- The ids grow, from `k` on and below `l`.
  unfoldable pub span : ℕ → ℕ → List (Row C) → Bool
  span k l [] = leb k l
  span k l (r ∷ rs) = leb k r.0 && span (r.0 + 1) l rs

  -- The first id that may follow the rows.
  unfoldable pub end_of : ℕ → List (Row C) → ℕ
  end_of k [] = k
  end_of k (r ∷ rs) = end_of (r.0 + 1) rs

  pub span_le : (k l : ℕ) (rs : List (Row C)) → span k l rs ≡ true → k ≤ l
  unfolding span
  span_le k l [] h = ground arith
  span_le k l (r ∷ rs) h = ground (arith, span_le (r.0 + 1) l rs)

  pub span_weaken :
      (j k l m : ℕ) (rs : List (Row C)) → span k l rs ≡ true → j ≤ k → l ≤ m → span j m rs ≡ true
  unfolding span
  span_weaken j k l m [] h a b = ground arith
  span_weaken j k l m (r ∷ rs) h a b = ground (arith, span_weaken (r.0 + 1) (r.0 + 1) l m rs)

  pub span-append :
      (k l m : ℕ) (xs ys : List (Row C))
      → span k l xs ≡ true
      → span l m ys ≡ true
      → span k m (xs ++ ys) ≡ true
  unfolding span
  span-append k l m [] ys h a = span_weaken k l m m ys a (ground arith) (omega arith)
  span-append k l m (x ∷ xs) ys h a = ground (arith, span-append (x.0 + 1) l m xs ys)

  pub span_left :
      (k m : ℕ) (xs ys : List (Row C)) → span k m (xs ++ ys) ≡ true → span k (end_of k xs) xs ≡ true
  unfolding span end_of
  span_left k m [] ys h = ground arith
  span_left k m (x ∷ xs) ys h = ground (arith, span_left (x.0 + 1) m xs ys)

  pub span_right :
      (k m : ℕ) (xs ys : List (Row C)) → span k m (xs ++ ys) ≡ true → span (end_of k xs) m ys ≡ true
  unfolding span end_of
  span_right k m [] ys h = h
  span_right k m (x ∷ xs) ys h = ground (arith, span_right (x.0 + 1) m xs ys)

  pub span-retain :
      (p : Row C → Bool) (k l : ℕ) (rs : List (Row C))
      → span k l rs ≡ true
      → span k l (retain p rs) ≡ true
  unfolding span retain
  span-retain p k l [] h = h
  span-retain p k l (r ∷ rs) h =
      let rest = span-retain p (r.0 + 1) l rs (ground arith) in
      elim (Bool-cases (p r)) [
        | inl e ↦ rw e (ground (arith, rest))
        | inr e ↦ rw e (span_weaken k (r.0 + 1) l l (retain p rs) rest (ground arith) (omega arith))
      ]

  pub batch_max_id-some :
      (r : Row C) (rs : List (Row C)) → (x : ℕ) × (batch_max_id (r ∷ rs) ≡ some x)
  unfolding batch_max_id
  batch_max_id-some r rs = elim (Option-cases (batch_max_id rs)) [
    | inl n ↦ rw n (r.0, refl)
    | inr (m, n) ↦ rw n (max (r.0) m, refl)
  ]

  -- The largest id of rows in order is the last.
  pub max-end :
      (k l x : ℕ) (rs : List (Row C))
      → batch_max_id rs ≡ some x
      → span k l rs ≡ true
      → (end_of k rs ≡ x + 1) × (k ≤ x)
  unfolding span end_of batch_max_id
  max-end k l x [] e h = absurd (ground arith)
  max-end k l x (r ∷ []) e h = ground arith
  max-end k l x (r ∷ q ∷ rs) e h =
      let (y, n) = batch_max_id-some q rs in
      let later = max-end (r.0 + 1) l y (q ∷ rs) n (ground arith) in
      let is : max (r.0) y ≡ x = ground (arith, n) in ground (arith, later)

  pub batch_min_id-first :
      (k l : ℕ) (r : Row C) (rs : List (Row C))
      → span k l (r ∷ rs) ≡ true
      → batch_min_id (r ∷ rs) ≡ some (r.0)
  unfolding span batch_min_id
  batch_min_id-first k l r [] h = refl
  batch_min_id-first k l r (q ∷ rs) h =
      let rest = batch_min_id-first (r.0 + 1) l q rs (ground arith) in
      rw rest (ap (λ (n : ℕ). some n) (ground arith))

  -- What stands before the place of the split, and what from there on.
  pub split_pos_left :
      (k l c : ℕ) (rs ys : List (Row C))
      → span k l (rs ++ ys) ≡ true
      → k ≤ c
      → span k c (take (split_pos rs c) rs) ≡ true
  unfolding span split_pos
  split_pos_left k l c [] ys h a = ground arith
  split_pos_left k l c (r ∷ rs) ys h a = elim (Bool-cases (leb c (r.0))) [
    | inl e ↦ rw (e, span) (ground arith)
    | inr e ↦ rw (e, span) (ground (arith, split_pos_left (r.0 + 1) l c rs ys))
  ]

  pub split_pos_right :
      (k l c : ℕ) (rs ys : List (Row C))
      → span k l (rs ++ ys) ≡ true
      → split_pos rs c < length rs
      → span c l (drop (split_pos rs c) rs ++ ys) ≡ true
  unfolding span split_pos
  split_pos_right k l c [] ys h a = absurd (omega arith)
  split_pos_right k l c (r ∷ rs) ys h a = elim (Bool-cases (leb c (r.0))) [
    | inl e ↦ rw (e, span) (ground arith)
    | inr e ↦ rw (e, span) (split_pos_right (r.0 + 1) l c rs ys (ground arith) (ground arith))
  ]

  -- There is a row from the cutoff on, where the largest id is not below it.
  pub split_pos_found :
      (c x : ℕ) (rs : List (Row C)) → batch_max_id rs ≡ some x → c ≤ x → split_pos rs c < length rs
  unfolding split_pos batch_max_id
  split_pos_found c x [] e h = absurd (ground arith)
  split_pos_found c x (r ∷ []) e h = ground arith
  split_pos_found c x (r ∷ q ∷ rs) e h =
      let (y, n) = batch_max_id-some q rs in ground (arith, split_pos_found c y (q ∷ rs) n, n)

  all-retain : (p : Row C → Bool) (rs : List (Row C)) → all p rs ≡ true → retain p rs ≡ rs
  unfolding all retain
  all-retain p [] h = refl
  all-retain p (r ∷ rs) h = ground (arith, all-retain p rs)

  retain_all :
      (p : Row C → Bool) (rs : List (Row C)) → ((r : Row C) → p r ≡ true) → retain p rs ≡ rs
  unfolding retain
  retain_all p [] h = refl
  retain_all p (r ∷ rs) h = ground (arith, retain_all p rs h, h r)

  pub kept_is_retain :
      (deleted : List ℕ) (rs : List (Row C))
      → unwrap_or rs (filter_batch_by_deleted deleted rs) ≡ retain (is_live deleted) rs
  unfolding filter_batch_by_deleted contains_id
  kept_is_retain [] rs = sym (retain_all (is_live []) rs (λ r. refl))
  kept_is_retain (d ∷ ds) rs = elim (Bool-cases (all (is_live (d ∷ ds)) rs)) [
    | inl e ↦ rw e (sym (all-retain (is_live (d ∷ ds)) rs e))
    | inr e ↦ rw e
  ]

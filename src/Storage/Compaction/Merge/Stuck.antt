-- ===== src/Storage/Compaction/Merge/Stuck.antt =====
-- A merge of segments that share an id.
use toradb.Prelude.{
  ℕ, zero, suc, ◌≤◌, ◌≡◌, refl, ap, true, Option, none, some, Option-cases, List, [], ◌∷◌, leb,
  Text, get_elem?, set, arith, inl, inr, Result,
}
use toradb.Storage.Compaction.Merge.{
  Row, MergeSource, Merged, went_on, Disk, stay, batch_max_id, turn, best, next_min, drain,
  merge_loop,
}

set_same : {A : Type 0} (xs : List A) (i : ℕ) (x : A) → get_elem? xs i ≡ some x → set xs i x ≡ xs
set_same [] i x h = refl
set_same (y ∷ xs) zero x h = ground arith
set_same {A = A} (y ∷ xs) (suc i) x h = ap (λ (r : List A). y ∷ r) (set_same xs i x h)

best_is_there :
    {C : Type 0} (i : ℕ) (s : MergeSource C) (ss : List (MergeSource C))
    → best ss ≡ some (i, s)
    → get_elem? ss i ≡ some s
unfolding best
best_is_there i s [] h = absurd (ground arith)
best_is_there i s (t ∷ ss) h = elim (Option-cases t.peeked) [
  | inl e ↦ elim (Option-cases (best ss)) [
    | inl n ↦ absurd (ground (arith, e, n))
    | inr ((j, u), n) ↦ ground (arith, e, n, best_is_there j u ss n)
  ]
  | inr (b, e) ↦ elim (Option-cases (best ss)) [
    | inl n ↦ ground (arith, e, n)
    | inr ((j, u), n) ↦ ground (arith, e, n, best_is_there j u ss n)
  ]
]

stays : {C : Type 0} (c m : ℕ) (peeked : Option (List (Row C))) → c ≤ m → turn c peeked m ≡ stay
unfolding turn
stays c m none h = refl
stays c m (some b) h = elim (Option-cases (batch_max_id b)) [
  | inl e ↦ rw (e, turn)
  | inr (x, e) ↦ let at : leb c m ≡ true = ground arith in rw (e, at, turn)
]

module _ {C : Type 0} {D : Type 0} (disk : Disk C D) (deleted : List ℕ) where
  drain_stays :
      (c : ℕ) (path : Text) (peeked : Option (List (Row C))) (m : ℕ)
      (rs : List (Result (List (Row C)))) (w : Merged D)
      → c ≤ m
      → drain disk deleted c path peeked m rs w
        ≡ went_on (record { path = path; peeked = peeked; reader = rs; min_id = m }, w)
  unfolding drain
  drain_stays c path peeked m [] w h = rw (stays c m peeked h, drain)
  drain_stays c path peeked m (r ∷ rs) w h = rw (stays c m peeked h, drain)

  -- When the least id of the other sources is not above the smallest id of the best source, the
  -- merge is not done after any number of turns.
  pub merge_loop_stuck :
      (fuel i : ℕ) (ss : List (MergeSource C)) (w : Merged D) (s : MergeSource C)
      → best ss ≡ some (i, s)
      → next_min i ss ≤ s.min_id
      → merge_loop disk deleted fuel ss w ≡ none
  unfolding merge_loop
  merge_loop_stuck zero i ss w s e h = refl
  merge_loop_stuck (suc fuel) i ss w s e h =
      rw
        (
          e,
          drain_stays (next_min i ss) s.path s.peeked s.min_id s.reader w h,
          set_same ss i s (best_is_there i s ss e),
          merge_loop,
        )
        (merge_loop_stuck fuel i ss w s e h)

-- ===== src/Core/Candidate/Tests.antt =====
-- The candidate theorems at concrete sets, with natural numbers as scores.
use toradb.Prelude.{
  ℕ, nat_eq, ◌≡◌, refl, some, Option, [], ◌∷◌, true, arith, filter_map, get_elem?, retain, not,
  take, drop,
}
use Prim.Native.Nat.{compare, Ordering}
use mathlib.Core.List.{Perm}
use toradb.Collections.Keys.{contains}
use toradb.Core.Candidate.{CandidateSet, reorder, remove_ids, slice_range, sort_by_score}
use toradb.Core.Candidate.Pairs.{
  pairs, IsPaired, reorder-pairs, remove_ids-pairs, slice_range-pairs,
}
use toradb.Core.Candidate.Order.{InOrder, sort_by_score-pairs}

abbrev three : CandidateSet ℕ
three = record { ids = 7 ∷ 3 ∷ 5 ∷ []; scores = 10 ∷ 30 ∷ 10 ∷ [] }

abbrev compare_scores : ℕ → ℕ → Option Ordering
compare_scores a b = some (compare a b)

reorder-pairs_example :
    (d : CandidateSet ℕ) × (reorder (2 ∷ 9 ∷ 0 ∷ []) three ≡ some d)
    × (pairs d ≡ filter_map (get_elem? (pairs three)) (2 ∷ 9 ∷ 0 ∷ []))
    × IsPaired d
reorder-pairs_example = reorder-pairs (2 ∷ 9 ∷ 0 ∷ []) three refl

remove_ids-pairs_example :
    (d : CandidateSet ℕ) × (remove_ids (3 ∷ []) three ≡ some d)
    × (pairs d ≡ retain (λ p. not (contains p.0 (3 ∷ []))) (pairs three))
    × IsPaired d
remove_ids-pairs_example = remove_ids-pairs (3 ∷ []) three refl

slice_range-pairs_example :
    (d : CandidateSet ℕ) × (slice_range 1 5 three ≡ some d)
    × (pairs d ≡ take 5 (drop 1 (pairs three)))
    × IsPaired d
slice_range-pairs_example = slice_range-pairs 1 5 three refl (omega arith)

sort_by_score-pairs_example :
    Perm (pairs three) (pairs (sort_by_score compare_scores true three))
    × InOrder (λ (n : ℕ). n) true (pairs (sort_by_score compare_scores true three))
sort_by_score-pairs_example =
    sort_by_score-pairs (λ n. n) compare_scores true three (λ a b i j. refl)

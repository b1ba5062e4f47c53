-- ===== src/Engine/Fusion/Tests.antt =====
-- Two rankings with one id in common, with natural numbers for the scores.
use toradb.Prelude.{ℕ, ◌+◌, ◌/◌, ◌≡◌, some, [], ◌∷◌, min, nat_eq}
use toradb.Collections.Keys.{count}
use toradb.Core.Candidate.{CandidateSet}
use toradb.Core.Candidate.Pairs.{IsPaired}
use toradb.Engine.Fusion.{Float, rrf_merge}
use toradb.Engine.Fusion.Members.{rrf_merge-count}

abbrev thousands : Float ℕ
thousands = record { of_nat = λ n. n; add = λ a b. a + b; div = λ a b. 1000 / b }

abbrev sparse : CandidateSet ℕ
sparse = record { ids = 4 ∷ 9 ∷ []; scores = 8 ∷ 5 ∷ [] }

abbrev dense : CandidateSet ℕ
dense = record { ids = 9 ∷ 2 ∷ []; scores = 7 ∷ 6 ∷ [] }

rrf_merge-count_example :
    (d : CandidateSet ℕ) × (rrf_merge thousands sparse dense 60 ≡ some d)
    × IsPaired d
    × ((x : ℕ) → count x d.ids ≡ min 1 (count x sparse.ids + count x dense.ids))
rrf_merge-count_example = rrf_merge-count thousands sparse dense 60

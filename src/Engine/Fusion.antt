-- ===== src/Engine/Fusion.antt =====
-- crates/toradb-engine/src/fusion.rs: the merge of two rankings. The arithmetic of the scores, on
-- 32-bit floats, is an interface; `none` is a panic of an index out of range.
mod Members
mod Tests
use toradb.Prelude.{
  ℕ, zero, suc, Option, none, some, List, [], ◌∷◌, ◌==◌, get_elem?, set, if◌then◌else◌,
}
use toradb.Core.Candidate.{CandidateSet, empty, push}

pub record Float (S : Type 0) : Type 0 where
  pub of_nat : ℕ → S
  pub add : S → S → S
  pub div : S → S → S

-- `iter().position(|x| x == id)`
pub position : ℕ → List ℕ → Option ℕ
position id [] = none
position id (x ∷ xs) =
    let rest = position id xs in
    if x == id then some 0 else elim rest [ none ↦ none | some n ↦ some (suc n) ]

module _ {S : Type 0} (f : Float S) where
  pub rrf_score : ℕ → ℕ → S
  rrf_score k i = f.div (f.of_nat 1) (f.add (f.add (f.of_nat k) (f.of_nat i)) (f.of_nat 1))

  -- `out.scores[pos] += score`
  pub bump : ℕ → S → CandidateSet S → Option (CandidateSet S)
  bump pos score c = elim (get_elem? c.scores pos) [
    | none ↦ none
    | some old ↦ some (record c { scores = set c.scores pos (f.add old score) })
  ]

  pub add_score : ℕ → S → CandidateSet S → Option (CandidateSet S)
  unfolding position bump push
  add_score id score out = elim (position id out.ids) [
    | none ↦ some (push id score out)
    | some pos ↦ bump pos score out
  ]

  -- The loop over one ranking, from index `i` on.
  pub merge_ranking : ℕ → ℕ → List ℕ → CandidateSet S → Option (CandidateSet S)
  unfolding add_score rrf_score
  merge_ranking k i [] out = some out
  merge_ranking k i (id ∷ ids) out = elim (add_score id (rrf_score k i) out) [
    | none ↦ none
    | some out' ↦ merge_ranking k (suc i) ids out'
  ]

  pub rrf_merge : CandidateSet S → CandidateSet S → ℕ → Option (CandidateSet S)
  unfolding merge_ranking empty
  rrf_merge a b k = elim (merge_ranking k 0 a.ids empty) [
    | none ↦ none
    | some out ↦ merge_ranking k 0 b.ids out
  ]

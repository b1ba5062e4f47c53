-- ===== src/Index/Tbm3/TopK.antt =====
-- The k best documents: a heap whose least element goes first, as the list of its elements from the
-- least up, and the candidates that it leaves.
pub mod Insert
pub mod Best
pub mod Inserted
pub mod Merge
use toradb.Prelude.{
  ℕ, ◌+◌, Bool, true, false, Option, List, [], ◌∷◌, ltb, if◌then◌else◌, length, sort, put_in_order,
}
use Prim.Native.Nat.{compare, Ordering}
use toradb.Core.Candidate.{CandidateSet, or_equal, ordering_then, empty, push}

pub record ScoredDoc (F : Type 0) : Type 0 where
  pub score : F
  pub doc_id : ℕ

-- The heap, for any order: `above a b` when `a` is the greater one.
module _ {A : Type 0} (above : A → A → Bool) where
  unfoldable pub push_topk : ℕ → List A → A → List A
  push_topk k heap item = if ltb (length heap) k then put_in_order above item heap else elim heap [
    | [] ↦ []
    | least ∷ rest ↦ if above item least then put_in_order above item rest else least ∷ rest
  ]

  unfoldable pub push_all : ℕ → List A → List A → List A
  unfolding push_topk
  push_all k heap [] = heap
  push_all k heap (x ∷ xs) = push_all k (push_topk k heap x) xs

  -- `v.sort_by(|a, b| b.cmp(a))`
  unfoldable pub best_first : List A → List A
  best_first xs = sort (λ a b. above b a) xs

module _ {F : Type 0} where
  unfoldable pub push_docs : List (ScoredDoc F) → CandidateSet F → CandidateSet F
  push_docs [] out = out
  push_docs (d ∷ ds) out = push_docs ds (push d.doc_id d.score out)

module _ {F : Type 0} (partial_cmp : F → F → Option Ordering) where
  unfoldable pub cmp : ScoredDoc F → ScoredDoc F → Ordering
  unfolding or_equal ordering_then
  cmp a b = ordering_then (or_equal (partial_cmp a.score b.score)) (compare b.doc_id a.doc_id)

  unfoldable pub above : ScoredDoc F → ScoredDoc F → Bool
  unfolding cmp
  above a b = elim (cmp a b) [ Ordering.gt ↦ true | _ ↦ false ]

  unfoldable pub heap_to_candidates : List (ScoredDoc F) → CandidateSet F
  unfolding best_first above push_docs
  heap_to_candidates heap = push_docs (best_first above heap) empty

-- ===== src/Engine/Fusion/Members.antt =====
-- Who is in a merged ranking.
use toradb.Prelude.{
  ℕ, zero, suc, ◌+◌, ◌<◌, ◌≡◌, refl, sym, ◌∙◌, inl, inr, Option-cases, none, some, List, [], ◌∷◌,
  arith, ◌==◌, length, length-set, get_elem?, set, min, max, if◌then◌else◌, nat_eq,
}
use toradb.Collections.Keys.{count, count-append}
use toradb.Core.Candidate.{CandidateSet, empty, push}
use toradb.Core.Candidate.Pairs.{IsPaired, push-IsPaired}
use toradb.Engine.Fusion.{Float, position, rrf_score, bump, add_score, merge_ranking, rrf_merge}

position-none : (id : ℕ) (xs : List ℕ) → position id xs ≡ none → count id xs ≡ 0
unfolding position count
position-none id [] h = refl
position-none id (x ∷ xs) h = ground (arith, position-none id xs)

position-some :
    (id n : ℕ) (xs : List ℕ) → position id xs ≡ some n → (n < length xs) × (0 < count id xs)
unfolding position count
position-some id n [] h = absurd (ground arith)
position-some id zero (x ∷ xs) h = ground arith
position-some id (suc n) (x ∷ xs) h = ground (arith, position-some id n xs)

get_in_range :
    {S : Type 0} (xs : List S) (n : ℕ) → n < length xs → (s : S) × (get_elem? xs n ≡ some s)
get_in_range [] n h = absurd (omega arith)
get_in_range (x ∷ xs) zero h = (x, refl)
get_in_range (x ∷ xs) (suc n) h = get_in_range xs n (omega arith)

empty-IsPaired : (S : Type 0) → IsPaired (empty {S = S})
unfolding empty
empty-IsPaired S = refl

count-empty : (S : Type 0) (x : ℕ) → count x (empty {S = S}).ids ≡ 0
unfolding empty count
count-empty S x = refl

module _ {S : Type 0} (f : Float S) where
  count-push :
      (id x : ℕ) (s : S) (c : CandidateSet S)
      → count x (push id s c).ids ≡ count x c.ids + (if id == x then 1 else 0)
  unfolding push count
  count-push id x s c = count-append x c.ids (id ∷ [])

  bump-some :
      (n : ℕ) (s old : S) (c : CandidateSet S)
      → get_elem? c.scores n ≡ some old
      → bump f n s c ≡ some (record c { scores = set c.scores n (f.add old s) })
  unfolding bump
  bump-some n s old c g = rw (g, bump) refl

  -- A score that is added: the id is there once more only if it was not there.
  add_score-count :
      (id : ℕ) (s : S) (c : CandidateSet S)
      → IsPaired c
      → (d : CandidateSet S) × (add_score f id s c ≡ some d)
        × IsPaired d
        × ((x : ℕ) → count x d.ids ≡ max (count x c.ids) (if id == x then 1 else 0))
  unfolding add_score
  add_score-count id s c h = elim (Option-cases (position id c.ids)) [
    | inl e ↦ (
      push id s c,
      rw (e, add_score) refl,
      push-IsPaired id s c h,
      λ x. ground (arith, count-push id x s c, position-none id c.ids e),
    )
    | inr (n, e) ↦
        let (b, p) = position-some id n c.ids e in
        let (old, g) = get_in_range c.scores n (omega arith) in
        (
          record c { scores = set c.scores n (f.add old s) },
          rw (e, add_score) (bump-some n s old c g),
          h ∙ sym (length-set c.scores n (f.add old s)),
          λ x. ground (arith, p),
        )
  ]

  merge_ranking-count :
      (k i : ℕ) (ids : List ℕ) (c : CandidateSet S)
      → IsPaired c
      → (d : CandidateSet S) × (merge_ranking f k i ids c ≡ some d)
        × IsPaired d
        × ((x : ℕ) → count x d.ids ≡ max (count x c.ids) (min 1 (count x ids)))
  unfolding merge_ranking count
  merge_ranking-count k i [] c h = (c, refl, h, λ x. omega arith)
  merge_ranking-count k i (id ∷ ids) c h =
      let (d, e, p, q) = add_score-count id (rrf_score f k i) c h in
      let (d', e', p', q') = merge_ranking-count k (suc i) ids d p in
      (d', rw (e, merge_ranking) e', p', λ x. ground (arith, q x, q' x))

  -- The merge does not panic, gives a paired set, and an id is in it once if it is in one of the
  -- rankings or in both, and not at all otherwise.
  pub rrf_merge-count :
      (a b : CandidateSet S) (k : ℕ)
      → (d : CandidateSet S) × (rrf_merge f a b k ≡ some d)
        × IsPaired d
        × ((x : ℕ) → count x d.ids ≡ min 1 (count x a.ids + count x b.ids))
  unfolding rrf_merge
  rrf_merge-count a b k =
      let (d, e, p, q) = merge_ranking-count k 0 a.ids empty (empty-IsPaired S) in
      let (d', e', p', q') = merge_ranking-count k 0 b.ids d p in
      (d', rw (e, rrf_merge) e', p', λ x. ground (arith, q x, q' x, count-empty S x))

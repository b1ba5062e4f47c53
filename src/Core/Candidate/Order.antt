-- ===== src/Core/Candidate/Order.antt =====
-- The order that `sort_by_score` gives.
use toradb.Prelude.{
  ℕ, ◌≡◌, ◌≢◌, refl, sym, ap, ◌∙◌, Bool, true, false, Option, some, List, [], ◌∷◌, map, arith,
  if◌then◌else◌, In, inl, inr, ◌≤◌,
}
use Prim.Native.Nat.{compare, Ordering}
use mathlib.Core.Path.{subst}
use mathlib.Core.List.{Perm}
use mathlib.Core.List.Perm
use toradb.Core.Candidate.{
  CandidateSet, zip, place, sort_by, sort_by_score, pair_cmp, or_equal, ordering_then,
}
use toradb.Core.Candidate.Pairs.{pairs}

lt-ne-gt : Ordering.lt ≢ Ordering.gt
lt-ne-gt e = ground arith

eq-ne-gt : Ordering.eq ≢ Ordering.gt
eq-ne-gt e = ground arith

module _ {S : Type 0} where
  abbrev pub IsSorted : (ℕ × S → ℕ × S → Ordering) → List (ℕ × S) → Type 0
  IsSorted cmp [] = record {}
  IsSorted cmp (x ∷ []) = record {}
  IsSorted cmp (x ∷ y ∷ ys) = (cmp x y ≢ Ordering.gt) × IsSorted cmp (y ∷ ys)

  module _ (cmp : ℕ × S → ℕ × S → Ordering) where
    place_perm : (x : ℕ × S) (ys : List (ℕ × S)) → Perm (x ∷ ys) (place cmp x ys)
    unfolding place
    place_perm x [] = Perm.refl _
    place_perm x (y ∷ ys) = by_cmp (place_perm x ys) (cmp x y)
      where
        by_cmp :
            Perm (x ∷ ys) (place cmp x ys)
            → (o : Ordering)
            → Perm (x ∷ y ∷ ys) (elim o [ Ordering.gt ↦ y ∷ place cmp x ys | _ ↦ x ∷ y ∷ ys ])
        by_cmp deep Ordering.gt = Perm.trans (Perm.swap y x ys) (Perm.cons y deep)
        by_cmp deep Ordering.lt = Perm.refl _
        by_cmp deep Ordering.eq = Perm.refl _

    sort_by_perm : (xs : List (ℕ × S)) → Perm xs (sort_by cmp xs)
    unfolding sort_by
    sort_by_perm [] = Perm.refl _
    sort_by_perm (x ∷ xs) =
        Perm.trans (Perm.cons x (sort_by_perm xs)) (place_perm x (sort_by cmp xs))

    IsSorted-tail : (y : ℕ × S) (zs : List (ℕ × S)) → IsSorted cmp (y ∷ zs) → IsSorted cmp zs
    IsSorted-tail y [] k = record {}
    IsSorted-tail y (z ∷ zs) k = k.1

    place-IsSorted :
        ((a b : ℕ × S) → cmp a b ≡ Ordering.gt → cmp b a ≢ Ordering.gt)
        → (x : ℕ × S) (ys : List (ℕ × S)) → IsSorted cmp ys
        → IsSorted cmp (place cmp x ys)
          × ((w : ℕ × S)
              → IsSorted cmp (w ∷ ys)
              → cmp w x ≢ Ordering.gt
              → IsSorted cmp (w ∷ place cmp x ys))
    unfolding place
    place-IsSorted anti x [] h = (record {}, λ w k n. (n, record {}))
    place-IsSorted anti x (y ∷ ys) h =
        by_cmp (λ e. (place-IsSorted anti x ys (IsSorted-tail y ys h)).1 y h (anti x y e)) (cmp x y)
          refl
      where
        by_cmp :
            (cmp x y ≡ Ordering.gt → IsSorted cmp (y ∷ place cmp x ys))
            → (o : Ordering) → cmp x y ≡ o
            → IsSorted cmp (elim o [ Ordering.gt ↦ y ∷ place cmp x ys | _ ↦ x ∷ y ∷ ys ])
              × ((w : ℕ × S)
                  → IsSorted cmp (w ∷ y ∷ ys)
                  → cmp w x ≢ Ordering.gt
                  → IsSorted cmp (w ∷ elim o [ Ordering.gt ↦ y ∷ place cmp x ys | _ ↦ x ∷ y ∷ ys ]))
        by_cmp deep Ordering.gt e = (deep e, λ w k n. (k.0, deep e))
        by_cmp deep Ordering.lt e =
            ((λ g. lt-ne-gt (sym e ∙ g), h), λ w k n. (n, (λ g. lt-ne-gt (sym e ∙ g), h)))
        by_cmp deep Ordering.eq e =
            ((λ g. eq-ne-gt (sym e ∙ g), h), λ w k n. (n, (λ g. eq-ne-gt (sym e ∙ g), h)))

    sort_by-IsSorted :
        ((a b : ℕ × S) → cmp a b ≡ Ordering.gt → cmp b a ≢ Ordering.gt)
        → (xs : List (ℕ × S)) → IsSorted cmp (sort_by cmp xs)
    unfolding sort_by
    sort_by-IsSorted anti [] = record {}
    sort_by-IsSorted anti (x ∷ xs) =
        (place-IsSorted anti x (sort_by cmp xs) (sort_by-IsSorted anti xs)).0

  zip_unzip :
      (ps : List (ℕ × S)) → zip (map (λ (p : ℕ × S). p.0) ps) (map (λ (p : ℕ × S). p.1) ps) ≡ ps
  unfolding zip
  zip_unzip [] = refl
  zip_unzip (p ∷ ps) = ap (λ qs. p ∷ qs) (zip_unzip ps)

  -- A property of all pairs.
  abbrev All : (ℕ × S → Type 0) → List (ℕ × S) → Type 0
  All P [] = Unit {0}
  All P (x ∷ xs) = P x × All P xs

  All-place :
      (P : ℕ × S → Type 0) (cmp : ℕ × S → ℕ × S → Ordering) (x : ℕ × S) (ys : List (ℕ × S))
      → P x
      → All P ys
      → All P (place cmp x ys)
  unfolding place
  All-place P cmp x [] px h = (px, _)
  All-place P cmp x (y ∷ ys) px (py, h) = by_cmp (All-place P cmp x ys px h) (cmp x y)
    where
      by_cmp :
          All P (place cmp x ys)
          → (o : Ordering) → All P (elim o [ Ordering.gt ↦ y ∷ place cmp x ys | _ ↦ x ∷ y ∷ ys ])
      by_cmp deep Ordering.gt = (py, deep)
      by_cmp deep Ordering.lt = (px, (py, h))
      by_cmp deep Ordering.eq = (px, (py, h))

  All-sort_by :
      (P : ℕ × S → Type 0) (cmp : ℕ × S → ℕ × S → Ordering) (xs : List (ℕ × S))
      → All P xs
      → All P (sort_by cmp xs)
  unfolding sort_by
  All-sort_by P cmp [] h = _
  All-sort_by P cmp (x ∷ xs) (px, h) =
      All-place P cmp x (sort_by cmp xs) px (All-sort_by P cmp xs h)

  -- Two comparisons that agree on the pairs sort them alike.
  module _ (cmp cmp' : ℕ × S → ℕ × S → Ordering) (P : ℕ × S → Type 0)
      (same : (a b : ℕ × S) → P a → P b → cmp a b ≡ cmp' a b) where
    place-agree :
        (x : ℕ × S) (ys : List (ℕ × S)) → P x → All P ys → place cmp x ys ≡ place cmp' x ys
    unfolding place
    place-agree x [] px h = refl
    place-agree x (y ∷ ys) px (py, h) =
        ap (λ (rest : List (ℕ × S)). elim (cmp x y) [ Ordering.gt ↦ y ∷ rest | _ ↦ x ∷ y ∷ ys ])
          (place-agree x ys px h)
        ∙ ap (λ (o : Ordering). elim o [ Ordering.gt ↦ y ∷ place cmp' x ys | _ ↦ x ∷ y ∷ ys ])
            (same x y px py)

    sort_by-agree : (xs : List (ℕ × S)) → All P xs → sort_by cmp xs ≡ sort_by cmp' xs
    unfolding sort_by
    sort_by-agree [] h = refl
    sort_by-agree (x ∷ xs) (px, h) =
        place-agree x (sort_by cmp xs) px (All-sort_by P cmp xs h)
        ∙ ap (place cmp' x) (sort_by-agree xs h)

  -- Numbers that stand for the scores: the scores compare as they do. A score that is not a number
  -- has none.
  module _ (rank : S → ℕ) where
    abbrev pub IsRanked : (S → S → Option Ordering) → List S → Type 0
    IsRanked partial_cmp scores =
        (a b : S) → In a scores → In b scores → partial_cmp a b ≡ some (compare (rank a) (rank b))

    -- Each pair and the next: by score, then by id from the smallest on.
    abbrev pub InOrder : Bool → List (ℕ × S) → Type 0
    InOrder descending [] = Unit {0}
    InOrder descending (x ∷ []) = Unit {0}
    InOrder descending (x ∷ y ∷ ys) =
        ((if descending then rank (y.1) ≤ rank (x.1) else rank (x.1) ≤ rank (y.1))
          × (rank (x.1) ≡ rank (y.1) → x.0 ≤ y.0))
        × InOrder descending (y ∷ ys)

    -- By rank, one way or the other, then by id.
    rank_cmp : Bool → ℕ × S → ℕ × S → Ordering
    unfolding ordering_then
    rank_cmp descending a b =
        ordering_then
          (if descending then compare (rank b.1) (rank a.1) else compare (rank a.1) (rank b.1))
          (compare a.0 b.0)

    rank_cmp-anti :
        (descending : Bool) (a b : ℕ × S)
        → rank_cmp descending a b ≡ Ordering.gt
        → rank_cmp descending b a ≢ Ordering.gt
    unfolding rank_cmp ordering_then
    rank_cmp-anti true a b h = ground arith
    rank_cmp-anti false a b h = ground arith

    rank_cmp-step :
        (descending : Bool) (a b : ℕ × S)
        → rank_cmp descending a b ≢ Ordering.gt
        → (if descending then rank (b.1) ≤ rank (a.1) else rank (a.1) ≤ rank (b.1))
          × (rank (a.1) ≡ rank (b.1) → a.0 ≤ b.0)
    unfolding rank_cmp ordering_then
    rank_cmp-step true a b h = (ground arith, λ e. ground arith)
    rank_cmp-step false a b h = (ground arith, λ e. ground arith)

    IsSorted-InOrder :
        (descending : Bool) (ps : List (ℕ × S))
        → IsSorted (rank_cmp descending) ps
        → InOrder descending ps
    IsSorted-InOrder descending [] h = _
    IsSorted-InOrder descending (x ∷ []) h = _
    IsSorted-InOrder descending (x ∷ y ∷ ys) h =
        (rank_cmp-step descending x y (h.0), IsSorted-InOrder descending (y ∷ ys) (h.1))

    pair_cmp-rank_cmp :
        (partial_cmp : S → S → Option Ordering) (descending : Bool) (scores : List S)
        → IsRanked partial_cmp scores
        → (a b : ℕ × S) → In a.1 scores
        → In b.1 scores
        → pair_cmp partial_cmp descending a b ≡ rank_cmp descending a b
    unfolding pair_cmp rank_cmp or_equal ordering_then
    pair_cmp-rank_cmp partial_cmp true scores h a b i j = rw (h (b.1) (a.1) j i) refl
    pair_cmp-rank_cmp partial_cmp false scores h a b i j = rw (h (a.1) (b.1) i j) refl

  All-map :
      (P Q : ℕ × S → Type 0) → ((p : ℕ × S) → P p → Q p) → (ps : List (ℕ × S)) → All P ps → All Q ps
  All-map P Q f [] h = _
  All-map P Q f (p ∷ ps) (ph, h) = (f p ph, All-map P Q f ps h)

  All-zip : (ids : List ℕ) (scores : List S) → All (λ (p : ℕ × S). In p.1 scores) (zip ids scores)
  unfolding zip
  All-zip [] scores = _
  All-zip (i ∷ ids) [] = _
  All-zip (i ∷ ids) (s ∷ scores) = (
    inl refl,
    All-map (λ p. In p.1 scores) (λ p. In p.1 (s ∷ scores)) (λ p h. inr h) (zip ids scores)
        (All-zip ids scores),
  )

  -- Where the scores of a set compare as some numbers that stand for them, so that none is a NaN,
  -- `sort_by_score` permutes the pairs of id and score, and of each pair and the next the score
  -- goes down or stays when the order is descending, and goes up or stays when it is not, and
  -- where the scores are equal the ids go up or stay.
  pub sort_by_score-pairs :
      (rank : S → ℕ) (partial_cmp : S → S → Option Ordering) (descending : Bool)
      (c : CandidateSet S)
      → IsRanked rank partial_cmp c.scores
      → Perm (pairs c) (pairs (sort_by_score partial_cmp descending c))
        × InOrder rank descending (pairs (sort_by_score partial_cmp descending c))
  unfolding sort_by_score pairs
  sort_by_score-pairs rank partial_cmp descending c h =
      let cmp = pair_cmp partial_cmp descending in
      let ps = zip c.ids c.scores in
      let agree =
        sort_by-agree cmp (rank_cmp rank descending) (λ p. In p.1 c.scores)
          (pair_cmp-rank_cmp rank partial_cmp descending c.scores h) ps (All-zip c.ids c.scores) in
      let back = zip_unzip (sort_by cmp ps) in
      (
        subst (λ (qs : List (ℕ × S)). Perm ps qs) (sym back) (sort_by_perm cmp ps),
        subst (InOrder rank descending) (sym (back ∙ agree)) (
            IsSorted-InOrder rank descending (sort_by (rank_cmp rank descending) ps)
              (sort_by-IsSorted (rank_cmp rank descending) (rank_cmp-anti rank descending) ps)),
      )

-- ===== src/Storage/Compaction/Merge/Sources.antt =====
-- The sources of a merge: the one that comes next, and what the others still have.
use toradb.Prelude.{
  ℕ, zero, suc, ◌+◌, ◌≤◌, ◌<◌, ◌≡◌, refl, sym, ap, ◌∙◌, inl, inr, true, Bool-cases, Option, none,
  some, Option-cases, List, [], ◌∷◌, ◌++◌, ◌==◌, if◌then◌else◌, get_elem?, set, arith, min, sum_of,
  Result, ◌⊎◌,
}
use mathlib.Core.Path.{subst}
use toradb.Storage.Compaction.Merge.{
  Row, MergeSource, no_id, peeked_min, unwrap_or, best, others, least,
}
use toradb.Storage.Compaction.Merge.Batches.{span, span_le, span_left, end_of, batch_min_id-first}
use toradb.Storage.Compaction.Merge.Reading.{unread, unread_reader, is_ready}

-- The rows that a source still has.
abbrev pub remaining : {C : Type 0} → MergeSource C → List (Row C)
remaining s = unread s.peeked s.reader

-- A source as the merge keeps it, whose ids start at `l` or later.
pub record Ready {C : Type 0} (l : ℕ) (s : MergeSource C) : Type 0 where
  pub ready : is_ready s.peeked s.reader ≡ true
  pub inside : span l no_id (remaining s) ≡ true
  pub first : s.min_id ≡ peeked_min s.peeked

abbrev pub AllReady : {C : Type 0} → ℕ → List (MergeSource C) → Type 0
AllReady l [] = Unit
AllReady l (s ∷ ss) = Ready l s × AllReady l ss

-- A weight summed over all rows that are left.
abbrev pub total : {C : Type 0} → (Row C → ℕ) → List (MergeSource C) → ℕ
total w ss = sum_of (λ s. sum_of w (remaining s)) ss

module _ {C : Type 0} where
  abbrev pub has_id : ℕ → Row C → ℕ
  has_id i r = if r.0 == i then 1 else 0

  pub sum_of-others :
      (g : MergeSource C → ℕ) (ss : List (MergeSource C)) (i : ℕ) (s : MergeSource C)
      → get_elem? ss i ≡ some s
      → sum_of g ss ≡ g s + sum_of g (others i ss)
  unfolding sum_of others
  sum_of-others g [] i s h = absurd (ground arith)
  sum_of-others g (t ∷ ss) zero s h = ground arith
  sum_of-others g (t ∷ ss) (suc i) s h = omega (arith, sum_of-others g ss i s h)

  pub sum_of-set :
      (g : MergeSource C → ℕ) (ss : List (MergeSource C)) (i : ℕ) (s t : MergeSource C)
      → get_elem? ss i ≡ some s
      → sum_of g (set ss i t) ≡ g t + sum_of g (others i ss)
  unfolding sum_of others
  sum_of-set g [] i s t h = absurd (ground arith)
  sum_of-set g (u ∷ ss) zero s t h = refl
  sum_of-set g (u ∷ ss) (suc i) s t h = omega (arith, sum_of-set g ss i s t h)

  pub AllReady-get :
      (l : ℕ) (ss : List (MergeSource C)) (i : ℕ) (s : MergeSource C)
      → AllReady l ss
      → get_elem? ss i ≡ some s
      → Ready l s
  AllReady-get l [] i s a h = absurd (ground arith)
  AllReady-get l (t ∷ ss) zero s a h =
      subst (λ (x : MergeSource C). Ready l x) (ap (unwrap_or t) h) (a.0)
  AllReady-get l (t ∷ ss) (suc i) s a h = AllReady-get l ss i s (a.1) h

  pub AllReady-others :
      (l : ℕ) (ss : List (MergeSource C)) (i : ℕ) → AllReady l ss → AllReady l (others i ss)
  unfolding others
  AllReady-others l [] i a = a
  AllReady-others l (t ∷ ss) zero a = a.1
  AllReady-others l (t ∷ ss) (suc i) a = (a.0, AllReady-others l ss i (a.1))

  pub AllReady-set :
      (l : ℕ) (ss : List (MergeSource C)) (i : ℕ) (t : MergeSource C)
      → AllReady l (others i ss)
      → Ready l t
      → AllReady l (set ss i t)
  unfolding others
  AllReady-set l [] i t a r = a
  AllReady-set l (u ∷ ss) zero t a r = (r, a)
  AllReady-set l (u ∷ ss) (suc i) t a r = (a.0, AllReady-set l ss i t (a.1) r)

  -- A source without a batch has no row left; the first row of any other has its smallest id.
  unread-cases :
      (l m : ℕ) (peeked : Option (List (Row C))) (rs : List (Result (List (Row C))))
      → is_ready peeked rs ≡ true
      → span l no_id (unread peeked rs) ≡ true
      → m ≡ peeked_min peeked
      → ((peeked ≡ none) × (unread peeked rs ≡ []))
        ⊎ ((b : List (Row C)) × (r : Row C) × (more : List (Row C)) × (peeked ≡ some b)
            × (unread peeked rs ≡ r ∷ more)
            × (m ≡ r.0))
  unfolding is_ready unread
  unread-cases l m none [] h i e = inl (refl, refl)
  unread-cases l m none (r ∷ rs) h i e = absurd (ground arith)
  unread-cases l m (some []) rs h i e = absurd (ground arith)
  unread-cases l m (some (q ∷ b)) rs h i e =
      let here = span_left l no_id (q ∷ b) (unread_reader rs) i in
      inr (
        q ∷ b,
        q,
        b ++ unread_reader rs,
        refl,
        refl,
        e ∙ ap (unwrap_or no_id) (batch_min_id-first l (end_of l (q ∷ b)) q b here),
      )

  pub Ready-cases :
      (l : ℕ) (s : MergeSource C)
      → Ready l s
      → ((s.peeked ≡ none) × (remaining s ≡ []))
        ⊎ ((b : List (Row C)) × (r : Row C) × (more : List (Row C)) × (s.peeked ≡ some b)
            × (remaining s ≡ r ∷ more)
            × (s.min_id ≡ r.0))
  Ready-cases l s r = unread-cases l s.min_id s.peeked s.reader r.ready r.inside r.first

  pub least_le : (ss : List (MergeSource C)) → least ss ≤ no_id
  unfolding least
  least_le [] = omega arith
  least_le (s ∷ ss) = ground (arith, least_le ss)

  pub least-others : (ss : List (MergeSource C)) (i : ℕ) → least ss ≤ least (others i ss)
  unfolding least others
  least-others [] i = omega arith
  least-others (s ∷ ss) zero = ground (arith, least_le ss)
  least-others (s ∷ ss) (suc i) = ground (arith, least-others ss i)

  least_skip :
      (s : MergeSource C) (ss : List (MergeSource C)) → s.peeked ≡ none → least (s ∷ ss) ≡ least ss
  unfolding least
  least_skip s ss e = ground (arith, e)

  least_take :
      (s : MergeSource C) (ss : List (MergeSource C)) (b : List (Row C))
      → s.peeked ≡ some b
      → least (s ∷ ss) ≡ min s.min_id (least ss)
  unfolding least
  least_take s ss b e = ground (arith, e)

  restart :
      (l c : ℕ) (r : Row C) (rows more : List (Row C))
      → rows ≡ r ∷ more
      → span l no_id rows ≡ true
      → c ≤ r.0
      → span c no_id rows ≡ true
  unfolding span
  restart l c r rows more e h a =
      let whole : span l no_id (r ∷ more) ≡ true = sym (ap (span l no_id) e) ∙ h in
      ap (span c no_id) e ∙ ground (arith, whole)

  pub first_id :
      (l : ℕ) (r : Row C) (rows more : List (Row C))
      → rows ≡ r ∷ more
      → span l no_id rows ≡ true
      → (l ≤ r.0) × (r.0 < no_id)
  unfolding span
  first_id l r rows more e h =
      let whole : span l no_id (r ∷ more) ≡ true = sym (ap (span l no_id) e) ∙ h in
      ground (arith, whole, span_le (r.0 + 1) no_id more)

  -- What starts at `l` or later starts at the least id or later.
  pub AllReady-least :
      (l c : ℕ) (ss : List (MergeSource C)) → AllReady l ss → c ≤ least ss → AllReady c ss
  unfolding least
  AllReady-least l c [] a h = a
  AllReady-least l c (s ∷ ss) a h = elim (Ready-cases l s (a.0)) [
    | inl (e, nothing) ↦
        let later = AllReady-least l c ss (a.1) (rw (sym (least_skip s ss e)) h) in
        (
          record {
            ready = (a.0).ready;
            inside = ap (span c no_id) nothing ∙ (unfold span in ground (arith, least_le (s ∷ ss)));
            first = (a.0).first;
          },
          later,
        )
    | inr (b, r, more, e, rows, is) ↦
        let low = least_take s ss b e in
        (
          record {
            ready = (a.0).ready;
            inside = restart l c r (remaining s) more rows (a.0).inside (omega arith);
            first = (a.0).first;
          },
          AllReady-least l c ss (a.1) (omega arith),
        )
  ]

  -- No source is left when none is the best; else it has the least id of all.
  pub best-none :
      (l : ℕ) (w : Row C → ℕ) (ss : List (MergeSource C))
      → AllReady l ss
      → best ss ≡ none
      → total w ss ≡ 0
  unfolding best sum_of
  best-none l w [] a h = refl
  best-none l w (s ∷ ss) a h = elim (Ready-cases l s (a.0)) [
    | inl (e, nothing) ↦ ground (arith, e, nothing, best-none l w ss (a.1))
    | inr (b, r, more, e, rows, is) ↦ absurd (ground (arith, e))
  ]

  best-least :
      (l : ℕ) (ss : List (MergeSource C)) → AllReady l ss → best ss ≡ none → least ss ≡ no_id
  unfolding best least
  best-least l [] a h = refl
  best-least l (s ∷ ss) a h = elim (Option-cases s.peeked) [
    | inl e ↦ ground (arith, e, best-least l ss (a.1))
    | inr (b, e) ↦ absurd (ground (arith, e))
  ]

  pub best-some :
      (l i : ℕ) (s : MergeSource C) (ss : List (MergeSource C))
      → AllReady l ss
      → best ss ≡ some (i, s)
      → (get_elem? ss i ≡ some s) × (s.min_id ≡ least ss) × (s.min_id < no_id)
  unfolding best least
  best-some l i s [] a h = absurd (ground arith)
  best-some l i s (t ∷ ss) a h = elim (Ready-cases l t (a.0)) [
    | inl (e, nothing) ↦ elim (Option-cases (best ss)) [
      | inl n ↦ absurd (ground (arith, e, n))
      | inr ((j, u), n) ↦ ground (arith, e, n, best-some l j u ss (a.1) n)
    ]
    | inr (b, r, more, e, rows, is) ↦
        let low = first_id l r (remaining t) more rows (a.0).inside in
        elim (Option-cases (best ss)) [
          | inl n ↦ ground (arith, e, n, best-least l ss (a.1) n)
          | inr ((j, u), n) ↦ ground (arith, e, n, best-some l j u ss (a.1) n)
        ]
  ]

  pub best_peeked :
      (i : ℕ) (s : MergeSource C) (ss : List (MergeSource C))
      → best ss ≡ some (i, s)
      → ¬ (s.peeked ≡ none)
  unfolding best
  best_peeked i s [] h = absurd (ground arith)
  best_peeked i s (t ∷ ss) h = elim (Option-cases t.peeked) [
    | inl e ↦ elim (Option-cases (best ss)) [
      | inl n ↦ absurd (ground (arith, e, n))
      | inr ((j, u), n) ↦ ground (arith, e, n, best_peeked j u ss n)
    ]
    | inr (b, e) ↦ elim (Option-cases (best ss)) [
      | inl n ↦ ground (arith, e, n)
      | inr ((j, u), n) ↦ ground (arith, e, n, best_peeked j u ss n)
    ]
  ]

  -- The source with the least id has a row of that id.
  pub least_is_there :
      (l m : ℕ) (ss : List (MergeSource C))
      → AllReady l ss
      → m ≡ least ss
      → m < no_id
      → 1 ≤ total (has_id m) ss
  unfolding least sum_of
  least_is_there l m [] a is h = absurd (omega arith)
  least_is_there l m (s ∷ ss) a is h = elim (Ready-cases l s (a.0)) [
    | inl (e, nothing) ↦ omega (arith, least_is_there l m ss (a.1) (is ∙ least_skip s ss e) h)
    | inr (b, r, more, e, rows, first) ↦ elim (Bool-cases (r.0 == m)) [
      | inl here ↦
          let count : sum_of (has_id m) (remaining s) ≡ sum_of (has_id m) (r ∷ more) =
            ap (sum_of (has_id m)) rows in
          let one : has_id m r ≡ 1 = ground (arith, here) in omega (arith, count, one)
      | inr later ↦
          let low = least_take s ss b e in
          omega (arith, least_is_there l m ss (a.1) (ground (arith, low, is, first, later)) h)
    ]
  ]

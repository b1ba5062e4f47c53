-- ===== src/Storage/Compaction/Merge/Total.antt =====
-- The loop over all sources.
use toradb.Prelude.{
  ℕ, zero, suc, ◌+◌, ◌≤◌, ◌<◌, ◌≡◌, refl, sym, ap, ◌∙◌, inl, inr, true, some, Option-cases, List,
  [], ◌∷◌, ◌++◌, if◌then◌else◌, set, retain, arith, sum_of, sum_of-append,
}
use toradb.Storage.Compaction.Merge.{
  Row, MergeSource, Merged, went_on, Disk, no_id, is_live, best, others, least, next_min,
  merge_loop, drain,
}
use toradb.Storage.Compaction.Merge.Batches.{span, span_weaken, span-append, span-retain}
use toradb.Storage.Compaction.Merge.Reading.{recast, live_rows, Casts}
use toradb.Storage.Compaction.Merge.Drain.{drain_lem}
use toradb.Storage.Compaction.Merge.Sources.{
  remaining, AllReady, total, has_id, sum_of-others, sum_of-set, AllReady-get, AllReady-others,
  AllReady-set, Ready-cases, least_le, least-others, first_id, AllReady-least, best-none, best-some,
  best_peeked, least_is_there,
}

-- What a row of a source weighs in the new segment: nothing when it is deleted.
abbrev pub live_weight : {C : Type 0} {D : Type 0} → List ℕ → (C → D) → (Row D → ℕ) → Row C → ℕ
live_weight deleted f g r = if is_live deleted r then g (r.0, f (r.1)) else 0

abbrev pub one : {C : Type 0} → Row C → ℕ
one r = 1

module _ {C : Type 0} {D : Type 0} (deleted : List ℕ) (f : C → D) where
  sum_of-live_rows :
      (g : Row D → ℕ) (rs : List (Row C))
      → sum_of g (live_rows deleted f rs) ≡ sum_of (live_weight deleted f g) rs
  unfolding sum_of retain recast
  sum_of-live_rows g [] = refl
  sum_of-live_rows g (r ∷ rs) = ground (arith, sum_of-live_rows g rs)

  span-recast : (k l : ℕ) (rs : List (Row C)) → span k l rs ≡ true → span k l (recast f rs) ≡ true
  unfolding span recast
  span-recast k l [] h = h
  span-recast k l (r ∷ rs) h = ground (arith, span-recast (r.0 + 1) l rs)

  span-live_rows :
      (k l : ℕ) (rs : List (Row C)) → span k l rs ≡ true → span k l (live_rows deleted f rs) ≡ true
  span-live_rows k l rs h =
      span-recast k l (retain (is_live deleted) rs) (span-retain (is_live deleted) k l rs h)

progress :
    {C : Type 0} (c : ℕ) (r : Row C) (more taken rest : List (Row C))
    → r ∷ more ≡ taken ++ rest
    → span c no_id rest ≡ true
    → r.0 < c
    → 1 ≤ sum_of one taken
unfolding sum_of
progress c r more [] rest e h a = absurd (omega (arith, a, (first_id c r rest more (sym e) h).0))
progress c r more (t ∷ taken) rest e h a = omega arith

-- Where the loop stands: the rows that are written are in order and below all that are left.
pub record Going {C : Type 0} {D : Type 0} (l : ℕ) (ss : List (MergeSource C)) (w : Merged D)
    : Type 0 where
  pub ready : AllReady l ss
  pub bounded : l ≤ no_id
  pub written : span 0 l w.out ≡ true
  pub distinct : (i : ℕ) → total (has_id i) ss ≤ 1

-- The others start behind the first row of the best.
best_is_first :
    {C : Type 0} {D : Type 0} (l i : ℕ) (ss : List (MergeSource C)) (w : Merged D)
    (s : MergeSource C)
    → Going l ss w
    → best ss ≡ some (i, s)
    → (r : Row C) × (more : List (Row C)) × (remaining s ≡ r ∷ more)
      × (r.0 < next_min i ss)
      × (l ≤ r.0)
unfolding next_min sum_of
best_is_first l i ss w s k e =
    let (at, low, top) = best-some l i s ss k.ready e in
    let mine = AllReady-get l ss i s k.ready at in
    elim (Ready-cases l s mine) [
      | inl (n, nothing) ↦ absurd (best_peeked i s ss e n)
      | inr (b, r, more, p, rows, is) ↦
          let (from, below) = first_id l r (remaining s) more rows mine.inside in
          let others_ready = AllReady-others l ss i k.ready in
          let here : 1 ≤ sum_of (has_id (r.0)) (remaining s) =
            let count : sum_of (has_id (r.0)) (remaining s) ≡ sum_of (has_id (r.0)) (r ∷ more) =
              ap (sum_of (has_id (r.0))) rows in
            let own : has_id (r.0) r ≡ 1 = ground arith in omega (arith, count, own) in
          let apart : (r.0 ≡ least (others i ss)) → ⊥ = λ same. omega (
            arith,
            here,
            k.distinct (r.0),
            least_is_there l (r.0) (others i ss) others_ready same below,
            sum_of-others (λ t. sum_of (has_id (r.0)) (remaining t)) ss i s at,
          ) in
          (r, more, rows, omega (arith, apart, is, low, least-others ss i), from)
    ]

module _ {C : Type 0} {D : Type 0} (disk : Disk C D) (deleted : List ℕ) (f : C → D) where
  -- One turn: the best source is drained up to the least id of the others.
  record Turned (ss : List (MergeSource C)) (w : Merged D) (i : ℕ) (s : MergeSource C)
      : Type 0 where
    s' : MergeSource C
    w' : Merged D
    goes : drain disk deleted (next_min i ss) s.path s.peeked s.min_id s.reader w ≡ went_on (s', w')
    going : Going (next_min i ss) (set ss i s') w'
    fewer : total one (set ss i s') < total one ss
    weighs :
        (g : Row D → ℕ)
        → sum_of g w'.out + total (live_weight deleted f g) (set ss i s')
          ≡ sum_of g w.out + total (live_weight deleted f g) ss

  turned :
      Casts disk f
      → (l i : ℕ) (ss : List (MergeSource C)) (w : Merged D) (s : MergeSource C) → Going l ss w
      → best ss ≡ some (i, s)
      → Turned ss w i s
  turned casts l i ss w s k e =
      let (at, low, top) = best-some l i s ss k.ready e in
      let mine = AllReady-get l ss i s k.ready at in
      let (r, more, rows, below, from) = best_is_first l i ss w s k e in
      let c = next_min i ss in
      let others_ready =
        AllReady-least l c (others i ss) (AllReady-others l ss i k.ready)
          (unfold next_min in omega arith) in
      let (s', w', goes, d) =
        drain_lem disk deleted f casts l c s.path s.peeked s.min_id s.reader w (omega arith)
          (unfold next_min in least_le (others i ss)) mine.first mine.ready mine.inside in
      let left = (λ (g : MergeSource C → ℕ). sum_of-others g ss i s at) in
      let right = (λ (g : MergeSource C → ℕ). sum_of-set g ss i s s' at) in
      let cut : (g : Row C → ℕ)
          → sum_of g (remaining s) ≡ sum_of g d.taken + sum_of g (remaining s') =
        λ g. ap (sum_of g) d.splits ∙ sum_of-append g d.taken (remaining s') in
      record {
        s' = s';
        w' = w';
        goes = goes;
        going = record {
          ready =
              AllReady-set c ss i s' others_ready
                (record { ready = d.ready; inside = d.behind; first = d.first });
          bounded = unfold next_min in least_le (others i ss);
          written =
              ap (span 0 c) d.writes
              ∙ span-append 0 l c w.out (live_rows deleted f d.taken) k.written
                  (span-live_rows deleted f l c d.taken d.before);
          distinct = λ j. omega (
            arith,
            k.distinct j,
            cut (has_id j),
            left (λ t. sum_of (has_id j) (remaining t)),
            right (λ t. sum_of (has_id j) (remaining t)),
          );
        };
        fewer = omega (
          arith,
          cut one,
          left (λ t. sum_of one (remaining t)),
          right (λ t. sum_of one (remaining t)),
          progress c r more d.taken (remaining s') (sym rows ∙ d.splits) d.behind below,
        );
        weighs = λ g.
            let h = live_weight deleted f g in
            let out : sum_of g w'.out ≡ sum_of g (w.out ++ live_rows deleted f d.taken) =
              ap (sum_of g) d.writes in
            omega (
              arith,
              out,
              sum_of-append g w.out (live_rows deleted f d.taken),
              sum_of-live_rows deleted f g d.taken,
              cut h,
              left (λ t. sum_of h (remaining t)),
              right (λ t. sum_of h (remaining t)),
            );
      }

  -- With more turns than rows, all sources are merged.
  pub merge_loop_lem :
      Casts disk f
      → (fuel l : ℕ) (ss : List (MergeSource C)) (w : Merged D) → Going l ss w
      → total one ss < fuel
      → (w' : Merged D) × (merge_loop disk deleted fuel ss w ≡ some (went_on w'))
        × (span 0 no_id w'.out ≡ true)
        × ((g : Row D → ℕ) → sum_of g w'.out ≡ sum_of g w.out + total (live_weight deleted f g) ss)
  unfolding merge_loop
  merge_loop_lem casts zero l ss w k h = absurd (omega arith)
  merge_loop_lem casts (suc fuel) l ss w k h = elim (Option-cases (best ss)) [
    | inl e ↦ (
      w,
      rw (e, merge_loop),
      span_weaken 0 0 l no_id w.out k.written (omega arith) k.bounded,
      λ g. omega (arith, best-none l (live_weight deleted f g) ss k.ready e),
    )
    | inr ((i, s), e) ↦
        let t = turned casts l i ss w s k e in
        let (w', done, ordered, weighs) =
          merge_loop_lem casts fuel (next_min i ss) (set ss i t.s') t.w' t.going
            (omega (arith, t.fewer)) in
        (w', rw (e, t.goes, merge_loop) done, ordered, λ g. omega (arith, weighs g, t.weighs g))
  ]

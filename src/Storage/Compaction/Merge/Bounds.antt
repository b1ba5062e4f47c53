-- ===== src/Storage/Compaction/Merge/Bounds.antt =====
-- The ids and the number of rows that a merge answers with.
use toradb.Prelude.{
  ℕ, zero, suc, ◌+◌, ◌%◌, ◌^◌, ◌≤◌, ◌≡◌, refl, sym, ap, inl, inr, Bool, true, false, ◌&&◌, Option,
  none, some, Option-cases, List, [], ◌∷◌, ◌++◌, ltb, leb, ◌==◌, if◌then◌else◌, Text, length,
  length-append, all, arith, min, max, set, Result, ok, err, retain, ◌⊎◌,
}
use mathlib.Core.Path.{subst}
use toradb.Storage.Compaction.Merge.{
  Row, MergeSource, Merged, Attempt, went_on, failed, Turn, stay, whole, part, Disk, no_id, is_live,
  batch_min_id, batch_max_id, split_batch_at, peeked_min, read, source, turn, with_min, with_max,
  put, write_batch, write_left, write_part, delete_if_done, drain, best, next_min, merge_loop,
  merge_segments_streaming, nothing_merged, closed, run, open_all,
}
use toradb.Storage.Compaction.Merge.Batches.{kept_is_retain, batch_max_id-some}
use toradb.Storage.Compaction.Merge.Reading.{recast, Casts}

abbrev pub in_range : {D : Type 0} → ℕ → ℕ → Row D → Bool
in_range lo hi r = leb lo (r.0) && leb (r.0) hi

-- The ids of the rows are in the range, and their number is counted.
pub record Inside {D : Type 0} (w : Merged D) : Type 0 where
  pub ranged : all (in_range w.global_min w.global_max) w.out ≡ true
  pub counted : w.row_count ≡ length w.out % 2 ^ 64

module _ {D : Type 0} where
  all_widen :
      (lo hi lo' hi' : ℕ) (rs : List (Row D))
      → lo' ≤ lo
      → hi ≤ hi'
      → all (in_range lo hi) rs ≡ true
      → all (in_range lo' hi') rs ≡ true
  unfolding all
  all_widen lo hi lo' hi' [] a b h = refl
  all_widen lo hi lo' hi' (r ∷ rs) a b h = ground (arith, all_widen lo hi lo' hi' rs a b)

  all-append :
      (lo hi : ℕ) (xs ys : List (Row D))
      → all (in_range lo hi) xs ≡ true
      → all (in_range lo hi) ys ≡ true
      → all (in_range lo hi) (xs ++ ys) ≡ true
  unfolding all
  all-append lo hi [] ys a b = b
  all-append lo hi (x ∷ xs) ys a b = ground (arith, all-append lo hi xs ys)

  batch_min_id-some : (r : Row D) (rs : List (Row D)) → (m : ℕ) × (batch_min_id (r ∷ rs) ≡ some m)
  unfolding batch_min_id
  batch_min_id-some r rs = elim (Option-cases (batch_min_id rs)) [
    | inl n ↦ rw n (r.0, refl)
    | inr (m, n) ↦ rw n (min (r.0) m, refl)
  ]

  all-batch :
      (m x : ℕ) (rs : List (Row D))
      → batch_min_id rs ≡ some m
      → batch_max_id rs ≡ some x
      → all (in_range m x) rs ≡ true
  unfolding all batch_min_id batch_max_id
  all-batch m x [] a b = refl
  all-batch m x (r ∷ []) a b = ground arith
  all-batch m x (r ∷ q ∷ rs) a b =
      let (n, e) = batch_min_id-some q rs in
      let (y, k) = batch_max_id-some q rs in
      let low : min (r.0) n ≡ m = ground (arith, e) in
      let high : max (r.0) y ≡ x = ground (arith, k) in
      let rest =
        all_widen n y m x (q ∷ rs) (omega arith) (omega arith) (all-batch n y (q ∷ rs) e k) in
      ground (arith, rest, low, high)

  all-recast :
      {C : Type 0} (f : C → D) (lo hi : ℕ) (rs : List (Row C))
      → all (in_range lo hi) rs ≡ true
      → all (in_range lo hi) (recast f rs) ≡ true
  unfolding all recast
  all-recast f lo hi [] h = refl
  all-recast f lo hi (r ∷ rs) h = ground (arith, all-recast f lo hi rs)

  length-recast : {C : Type 0} (f : C → D) (rs : List (Row C)) → length (recast f rs) ≡ length rs
  unfolding recast
  length-recast f [] = refl
  length-recast f (r ∷ rs) = ap suc (length-recast f rs)

  step-Inside :
      (w : Merged D) (rows : List (Row D)) (m x : ℕ)
      → all (in_range m x) rows ≡ true
      → Inside w
      → Inside (record {
        out = w.out ++ rows;
        global_min = if ltb m w.global_min then m else w.global_min;
        global_max = if ltb w.global_max x then x else w.global_max;
        row_count = (w.row_count + length rows) % 2 ^ 64;
        removed = w.removed;
      })
  step-Inside w rows m x h i =
      let lo : ℕ = if ltb m w.global_min then m else w.global_min in
      let hi : ℕ = if ltb w.global_max x then x else w.global_max in
      let low : (lo ≤ m) × (lo ≤ w.global_min) = ground arith in
      let high : (x ≤ hi) × (w.global_max ≤ hi) = ground arith in
      record {
        ranged =
            all-append lo hi w.out rows
              (all_widen w.global_min w.global_max lo hi w.out (low.1) (high.1) i.ranged)
              (all_widen m x lo hi rows (low.0) (high.0) h);
        counted = omega (arith, i.counted, length-append w.out rows);
      }

-- What holds of a step that goes on.
abbrev pub Holds : {A : Type 0} → (A → Type 0) → Attempt A → Type 0
Holds P (went_on a) = P a
Holds P (failed e gone) = Unit {0}

-- The steps hand a failure on.
Holds-next :
    {A B : Type 0} (P : A → Type 0) (Q : B → Type 0) (a : Attempt A) (k : A → Attempt B)
    → Holds P a
    → ((x : A) → P x → Holds Q (k x))
    → Holds Q (elim a [ failed e gone ↦ failed e gone | went_on x ↦ k x ])
Holds-next P Q (went_on x) k h g = g x h
Holds-next P Q (failed e gone) k h g = h

-- The same of a run that may be out of turns.
HoldsRun : {D : Type 0} → Option (Attempt (Merged D)) → Type 0
HoldsRun none = Unit {0}
HoldsRun (some a) = Holds Inside a

HoldsRun-next :
    {A D : Type 0} (P : A → Type 0) (a : Attempt A) (k : A → Option (Attempt (Merged D)))
    → Holds P a
    → ((x : A) → P x → HoldsRun (k x))
    → HoldsRun (elim a [ failed e gone ↦ some (failed e gone) | went_on x ↦ k x ])
unfolding HoldsRun
HoldsRun-next P (went_on x) k h g = g x h
HoldsRun-next P (failed e gone) k h g = h

Turn-cases :
    {C : Type 0} (t : Turn C)
    → (t ≡ stay) ⊎ (((b : List (Row C)) × (t ≡ whole b)) ⊎ ((b : List (Row C)) × (t ≡ part b)))
Turn-cases stay = inl refl
Turn-cases (whole b) = inr (inl (b, refl))
Turn-cases (part b) = inr (inr (b, refl))

module _ {C : Type 0} {D : Type 0} (disk : Disk C D) (deleted : List ℕ) (f : C → D) where
  put-Inside :
      Casts disk f
      → (kept : List (Row C)) (w : Merged D) → Inside w
      → Holds Inside (
          if length kept == 0
          then went_on w
          else put
              (disk.cast_and_write kept)
              (record (with_max (batch_max_id kept) (with_min (batch_min_id kept) w)) {
                row_count = (w.row_count + length kept) % 2 ^ 64;
              }))
  put-Inside casts [] w i = i
  put-Inside casts (r ∷ rs) w i =
      let (m, low) = batch_min_id-some r rs in
      let (x, high) = batch_max_id-some r rs in
      let not_empty : (length (r ∷ rs) == 0) ≡ false = ground arith in
      let rows = all-recast f m x (r ∷ rs) (all-batch m x (r ∷ rs) low high) in
      rw (not_empty, casts (r ∷ rs), low, high, sym (length-recast f (r ∷ rs)))
        (step-Inside w (recast f (r ∷ rs)) m x rows i)

  write_batch-Inside :
      Casts disk f
      → (b : List (Row C)) (w : Merged D) → Inside w
      → Holds Inside (write_batch disk deleted b w)
  unfolding write_batch
  write_batch-Inside casts b w i =
      rw (kept_is_retain deleted b) (put-Inside casts (retain (is_live deleted) b) w i)

  write_left-Inside :
      Casts disk f
      → (b : Option (List (Row C))) (w : Merged D) → Inside w
      → Holds Inside (write_left disk deleted b w)
  unfolding write_left
  write_left-Inside casts none w i = i
  write_left-Inside casts (some b) w i = write_batch-Inside casts b w i

  write_part-Inside :
      Casts disk f
      → (c : ℕ) (path : Text) (b : List (Row C)) (rs : List (Result (List (Row C)))) (w : Merged D)
      → Inside w
      → Holds (λ p. Inside (p.1)) (write_part disk deleted c path b rs w)
  unfolding write_part
  write_part-Inside casts c path b rs w i =
      Holds-next Inside (λ p. Inside (p.1)) (write_left disk deleted ((split_batch_at b c).0) w)
        (λ w'. went_on (source path ((split_batch_at b c).1) rs, w'))
        (write_left-Inside casts ((split_batch_at b c).0) w i) (λ w' j. j)

  delete_if_done-Inside :
      (path : Text) (o : Option (List (Row C))) (w : Merged D)
      → Inside w
      → Inside (delete_if_done path o w)
  delete_if_done-Inside path none w i = record { ranged = i.ranged; counted = i.counted }
  delete_if_done-Inside path (some b) w i = i

  drain-Inside :
      Casts disk f
      → (c : ℕ) (path : Text) (peeked : Option (List (Row C))) (m : ℕ)
        (rs : List (Result (List (Row C)))) (w : Merged D)
      → Inside w
      → Holds (λ p. Inside (p.1)) (drain disk deleted c path peeked m rs w)
  unfolding drain
  drain-Inside casts c path peeked m [] w i = elim (Turn-cases (turn c peeked m)) [
    | inl t ↦ rw (t, drain) i
    | inr (inl (b, t)) ↦
        let w0 = delete_if_done {C = C} path none w in
        rw (t, drain)
          (Holds-next Inside (λ p. Inside (p.1)) (write_batch disk deleted b w0)
            (λ w'. went_on (source path none [], w'))
            (write_batch-Inside casts b w0 (delete_if_done-Inside path none w i)) (λ w' j. j))
    | inr (inr (b, t)) ↦ rw (t, drain) (write_part-Inside casts c path b [] w i)
  ]
  drain-Inside casts c path peeked m (r ∷ rs) w i = elim (Turn-cases (turn c peeked m)) [
    | inl t ↦ rw (t, drain) i
    | inr (inl (b, t)) ↦
        let w0 = delete_if_done path (read r) w in
        rw (t, drain)
          (Holds-next Inside (λ p. Inside (p.1)) (write_batch disk deleted b w0)
            (λ w'. drain disk deleted c path (read r) (peeked_min (read r)) rs w')
            (write_batch-Inside casts b w0 (delete_if_done-Inside path (read r) w i))
            (λ w' j. drain-Inside casts c path (read r) (peeked_min (read r)) rs w' j))
    | inr (inr (b, t)) ↦ rw (t, drain) (write_part-Inside casts c path b (r ∷ rs) w i)
  ]

  merge_loop-Inside :
      Casts disk f
      → (fuel : ℕ) (ss : List (MergeSource C)) (w : Merged D) → Inside w
      → HoldsRun (merge_loop disk deleted fuel ss w)
  unfolding merge_loop HoldsRun
  merge_loop-Inside casts zero ss w i = tt
  merge_loop-Inside casts (suc fuel) ss w i = elim (Option-cases (best ss)) [
    | inl e ↦ rw (e, merge_loop) i
    | inr ((j, s), e) ↦
        rw (e, merge_loop)
          (HoldsRun-next (λ p. Inside (p.1))
            (drain disk deleted (next_min j ss) s.path s.peeked s.min_id s.reader w)
            (λ p. merge_loop disk deleted fuel (set ss j (p.0)) (p.1))
            (drain-Inside casts (next_min j ss) s.path s.peeked s.min_id s.reader w i)
            (λ p k. merge_loop-Inside casts fuel (set ss j (p.0)) (p.1) k))
  ]

  closed-Inside : (a : Attempt (Merged D)) → Holds Inside a → Holds Inside (closed disk deleted a)
  closed-Inside (failed e gone) h = h
  closed-Inside (went_on w) h = elim (Option-cases disk.close) [
    | inr (e, c) ↦ rw c tt
    | inl c ↦
        let lo : ℕ = if w.global_min == no_id then 0 else w.global_min in
        rw c (record {
          ranged =
              all_widen w.global_min w.global_max lo w.global_max w.out (ground arith) (omega arith)
                h.ranged;
          counted = h.counted;
        })
  ]

  closed_run :
      (r : Option (Attempt (Merged D)))
      → HoldsRun r
      → HoldsRun (elim r [ none ↦ none | some a ↦ some (closed disk deleted a) ])
  unfolding HoldsRun
  closed_run none h = h
  closed_run (some a) h = closed-Inside a h

  run-Inside :
      Casts disk f
      → (fuel : ℕ) (r : Result (List (MergeSource C))) → HoldsRun (run disk deleted fuel r)
  unfolding run HoldsRun all
  run-Inside casts fuel (err e) = tt
  run-Inside casts fuel (ok ss) = elim (Option-cases disk.create) [
    | inr (e, c) ↦ rw (c, run) tt
    | inl c ↦
        let w = nothing_merged disk deleted in
        rw (c, run)
          (closed_run (merge_loop disk deleted fuel ss w)
            (merge_loop-Inside casts fuel ss w (record { ranged = refl; counted = omega arith })))
  ]

  -- Where the cast works row by row and does not fail: when a merge is done, whatever its sources,
  -- the ids of the new segment are in the range that is answered, and the number of its rows, as a
  -- 64-bit number, is the one that is answered.
  pub merge_segments_streaming-Inside :
      Casts disk f
      → (fuel : ℕ) (ps : List Text) (w : Merged D)
      → merge_segments_streaming disk deleted fuel ps ≡ some (went_on w)
      → Inside w
  unfolding merge_segments_streaming HoldsRun
  merge_segments_streaming-Inside casts fuel [] w e = absurd (ground arith)
  merge_segments_streaming-Inside casts fuel (p ∷ ps) w e =
      subst (λ (r : Option (Attempt (Merged D))). HoldsRun r) e
        (run-Inside casts fuel (open_all disk deleted (p ∷ ps)))

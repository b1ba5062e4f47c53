-- ===== src/Pipe/Store/Ids.antt =====
-- The ids of the runs over the operations of the store.
use toradb.Prelude.{
  ℕ, ◌+◌, ◌%◌, ◌^◌, ◌≤◌, ◌<◌, ◌≡◌, ◌≢◌, refl, ◌∙◌, Bool, false, Bool-cases, inl, inr, List, [], ◌∷◌,
  ◌++◌, arith, length, leb, ◌==◌, if◌then◌else◌, Text, text_beq_iff, Option, retain, update_first,
  nat_eq,
}
use toradb.Collections.Keys.{count}
use toradb.Pipe.Model.{PipelineRun}
use toradb.Pipe.Store.{
  PipeStore, Files, of_pipeline, capped, cap_runs, start_run, with_run, new_run, finish_run,
  finished,
}
use toradb.Pipe.Store.Runs.{ids, capped_bound, capped_others}

-- No run id occurs twice, and the next one is above them all.
abbrev pub IsNumbered : ℕ → List PipelineRun → Type 0
IsNumbered next runs = (i : ℕ) → (count i (ids runs) ≤ 1) × (0 < count i (ids runs) → i < next)

count-ids-retain :
    (i : ℕ) (p : PipelineRun → Bool) (rs : List PipelineRun)
    → count i (ids (retain p rs)) ≤ count i (ids rs)
unfolding count retain
count-ids-retain i p [] = omega arith
count-ids-retain i p (r ∷ rs) = ground (arith, count-ids-retain i p rs)

count-ids-append :
    (i : ℕ) (rs : List PipelineRun) (r : PipelineRun)
    → count i (ids (rs ++ r ∷ [])) ≡ count i (ids rs) + (if r.id == i then 1 else 0)
unfolding count
count-ids-append i [] r = ground arith
count-ids-append i (q ∷ rs) r = ground (arith, count-ids-append i rs r)

count-ids-capped :
    (i : ℕ) (p : Text) (rs : List PipelineRun) → count i (ids (capped p rs)) ≤ count i (ids rs)
unfolding capped
count-ids-capped i p rs = elim (Bool-cases (leb (length (retain (of_pipeline p) rs)) 200)) [
  | inl e ↦ rw e (omega arith)
  | inr e ↦ rw e (count-ids-retain i _ rs)
]

ids-update :
    (n : ℕ) (f : PipelineRun → PipelineRun) (rs : List PipelineRun)
    → ((r : PipelineRun) → (f r).id ≡ r.id)
    → ids (update_first (λ r. r.id == n) f rs) ≡ ids rs
unfolding update_first
ids-update n f [] h = refl
ids-update n f (r ∷ rs) h = ground (arith, h r, ids-update n f rs h)

retain-append :
    (p : PipelineRun → Bool) (rs : List PipelineRun) (r : PipelineRun)
    → p r ≡ false
    → retain p (rs ++ r ∷ []) ≡ retain p rs
unfolding retain
retain-append p [] r h = rw (h, retain) refl
retain-append p (q ∷ rs) r h = ground (arith, retain-append p rs r h)

module _ {E : Type 0} where
  abbrev pub IsValid : PipeStore E → Type 0
  IsValid s = IsNumbered s.next_run_id s.runs

  with_run-IsValid :
      (p : Text) (cursor : Option Text) (now : ℕ) (s : PipeStore E)
      → IsValid s
      → s.next_run_id + 1 < 2 ^ 64
      → IsValid (with_run p cursor now s)
  unfolding with_run
  with_run-IsValid p cursor now s h room i =
      let run = new_run s.next_run_id p cursor now in
      let (once, below) = h i in
      let added = count-ids-append i s.runs run in
      let next : (s.next_run_id + 1) % 2 ^ 64 ≡ s.next_run_id + 1 = omega arith in
      (ground (arith, once, below, added), λ k. ground (arith, once, below, added, next))

  other_run :
      (p : Text) (cursor : Option Text) (now : ℕ) (s : PipeStore E) (j : Text)
      → p ≢ j
      → retain (of_pipeline j) (with_run p cursor now s).runs ≡ retain (of_pipeline j) s.runs
  unfolding with_run of_pipeline
  other_run p cursor now s j ne =
      retain-append (of_pipeline j) s.runs _ (ground (arith, text_beq_iff p j))

module _ {E D : Type 0} (files : Files E D) where
  -- While the run counter does not overflow, a run that is started gets an id that no run has,
  -- its pipeline has at most 200 runs after it, the runs of the other pipelines are as before,
  -- and the ids stay distinct and below the next one.
  pub start_run_lem :
      (p : Text) (cursor : Option Text) (now : ℕ) (s : PipeStore E) (d : D)
      → IsValid s
      → s.next_run_id + 1 < 2 ^ 64
      → (count (start_run files p cursor now s d).0 (ids s.runs) ≡ 0)
        × (length (retain (of_pipeline p) (start_run files p cursor now s d).1.runs) ≤ 200)
        × ((j : Text)
            → p ≢ j
            → retain (of_pipeline j) (start_run files p cursor now s d).1.runs
              ≡ retain (of_pipeline j) s.runs)
        × IsValid (start_run files p cursor now s d).1
  unfolding start_run cap_runs
  start_run_lem p cursor now s d h room =
      let s1 = with_run p cursor now s in
      let valid = with_run-IsValid p cursor now s h room in
      (
        ground (arith, h s.next_run_id),
        capped_bound p s1.runs,
        λ j ne. capped_others p j s1.runs (λ i. (valid i).0) ne ∙ other_run p cursor now s j ne,
        λ i. ground (arith, valid i, count-ids-capped i p s1.runs),
      )

  -- A run that is finished keeps its id, and so do the others.
  pub finish_run-IsValid :
      (n : ℕ) (state : Text) (rows : ℕ) (message cursor : Option Text) (now : ℕ) (s : PipeStore E)
      (d : D)
      → IsValid s
      → IsValid (finish_run files n state rows message cursor now s d).0
  unfolding finish_run finished
  finish_run-IsValid n state rows message cursor now s d h =
      rw (ids-update n (finished state rows message cursor now) s.runs (λ r. refl)) h

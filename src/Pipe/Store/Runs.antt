-- ===== src/Pipe/Store/Runs.antt =====
-- How many runs of a pipeline are kept, and which.
use toradb.Prelude.{
  ℕ, suc, ◌-◌, ◌≤◌, ◌<◌, ◌≡◌, refl, sym, ap, ◌∙◌, Bool, true, false, not, Bool-cases, ◌⊎◌, ◌≢◌, inl,
  inr, List, [], ◌∷◌, arith, length, leb, if◌then◌else◌, Text, text_beq_iff, retain, nat_eq, In,
  ◌==◌,
}
use toradb.Collections.Keys.{contains, count}
use toradb.Pipe.Model.{PipelineRun}
use toradb.Pipe.Store.{of_pipeline, place, by_start, ids_to_drop, capped}

-- How many runs pass a test.
passing : (PipelineRun → Bool) → List PipelineRun → ℕ
passing q [] = 0
passing q (r ∷ rs) = if q r then suc (passing q rs) else passing q rs

passing-eq : (q : PipelineRun → Bool) (rs : List PipelineRun) → length (retain q rs) ≡ passing q rs
unfolding passing retain
passing-eq q [] = refl
passing-eq q (r ∷ rs) = ground (arith, passing-eq q rs)

passing-retain :
    (q p : PipelineRun → Bool) (rs : List PipelineRun)
    → length (retain q (retain p rs)) ≡ passing p (retain q rs)
unfolding passing retain
passing-retain q p [] = refl
passing-retain q p (r ∷ rs) = ground (arith, passing-retain q p rs)

passing-place :
    (q : PipelineRun → Bool) (r : PipelineRun) (rs : List PipelineRun)
    → passing q (place r rs) ≡ passing q (r ∷ rs)
unfolding passing place
passing-place q r [] = refl
passing-place q r (p ∷ rs) = ground (arith, passing-place q r rs)

passing-by_start :
    (q : PipelineRun → Bool) (rs : List PipelineRun) → passing q (by_start rs) ≡ passing q rs
unfolding passing by_start
passing-by_start q [] = refl
passing-by_start q (r ∷ rs) = ground (arith, passing-place q r (by_start rs), passing-by_start q rs)

length-passing : (q : PipelineRun → Bool) (rs : List PipelineRun) → passing q rs ≤ length rs
unfolding passing
length-passing q [] = omega arith
length-passing q (r ∷ rs) = ground (arith, length-passing q rs)

-- The runs left when those with the ids of the first `k` are dropped, whatever else is dropped.
passing-dropped :
    (keep : PipelineRun → Bool) (seen k : ℕ) (rs : List PipelineRun)
    → ((r : PipelineRun) → contains r.id (ids_to_drop seen k rs) ≡ true → keep r ≡ false)
    → passing keep rs ≤ length rs - (k - seen)
unfolding passing ids_to_drop contains
passing-dropped keep seen k [] h = omega arith
passing-dropped keep seen k (r ∷ rs) h = elim (Bool-cases (leb k seen)) [
  | inl done ↦ ground (arith, length-passing keep (r ∷ rs))
  | inr more ↦ ground (arith, h r, passing-dropped keep (suc seen) k rs (λ q e. h q (ground arith)))
]

passing_all : (qs : List PipelineRun) → passing (λ _. true) qs ≡ length qs
unfolding passing
passing_all [] = refl
passing_all (q ∷ qs) = ap suc (passing_all qs)

length-by_start : (rs : List PipelineRun) → length (by_start rs) ≡ length rs
length-by_start rs =
    sym (passing_all (by_start rs)) ∙ passing-by_start (λ _. true) rs ∙ passing_all rs

one_pipeline :
    (p j : Text) (r : PipelineRun) → of_pipeline p r ≡ true → of_pipeline j r ≡ true → p ≡ j
unfolding of_pipeline
one_pipeline p j r a b =
    sym ((text_beq_iff r.pipeline_id p).0 a) ∙ (text_beq_iff r.pipeline_id j).0 b

pub capped_bound :
    (p : Text) (runs : List PipelineRun) → length (retain (of_pipeline p) (capped p runs)) ≤ 200
unfolding capped
capped_bound p runs =
    let own = retain (of_pipeline p) runs in
    let k = length own - 200 in
    let gone = ids_to_drop 0 k (by_start own) in
    elim (Bool-cases (leb (length own) 200)) [
      | inl few ↦ rw few (ground arith)
      | inr many ↦
          rw (many, passing-retain (of_pipeline p) (λ r. not (contains r.id gone)) runs)
            (omega (
              arith,
              sym (passing-by_start (λ r. not (contains r.id gone)) own),
              passing-dropped (λ r. not (contains r.id gone)) 0 k (by_start own) (λ r e. rw e refl),
              length-by_start own,
            ))
    ]

-- The ids of the runs, in order.
abbrev pub ids : List PipelineRun → List ℕ
ids [] = []
ids (r ∷ rs) = r.id ∷ ids rs

-- No id occurs twice.
abbrev pub Distinct : List PipelineRun → Type 0
Distinct rs = (i : ℕ) → count i (ids rs) ≤ 1

count-In : (r : PipelineRun) (rs : List PipelineRun) → In r rs → 0 < count r.id (ids rs)
unfolding count
count-In r [] h = absurd h
count-In r (q ∷ rs) (inl e) = ground (arith, ap (λ (x : PipelineRun). x.id) e)
count-In r (q ∷ rs) (inr h) = ground (arith, count-In r rs h)

In-ids :
    (i : ℕ) (rs : List PipelineRun)
    → 0 < count i (ids rs)
    → (r : PipelineRun) × In r rs × (r.id ≡ i)
unfolding count
In-ids i [] h = absurd (omega arith)
In-ids i (r ∷ rs) h = elim (Bool-cases (r.id == i)) [
  | inl e ↦ (r, inl refl, ground arith)
  | inr e ↦ let (q, m, f) = In-ids i rs (ground arith) in (q, inr m, f)
]

count_tail : (r : PipelineRun) (rs : List PipelineRun) → Distinct (r ∷ rs) → Distinct rs
unfolding count
count_tail r rs h i = ground (arith, h i)

same_run :
    (r q : PipelineRun) (rs : List PipelineRun)
    → Distinct rs
    → In r rs
    → In q rs
    → r.id ≡ q.id
    → r ≡ q
unfolding count
same_run r q [] d m n e = absurd m
same_run r q (x ∷ xs) d (inl a) (inl b) e = sym a ∙ b
same_run r q (x ∷ xs) d (inr a) (inr b) e = same_run r q xs (count_tail x xs d) a b e
same_run r q (x ∷ xs) d (inl a) (inr b) e =
    absurd (ground (arith, d q.id, count-In q xs b, ap (λ (y : PipelineRun). y.id) a))
same_run r q (x ∷ xs) d (inr a) (inl b) e =
    absurd (ground (arith, d r.id, count-In r xs a, ap (λ (y : PipelineRun). y.id) b))

count-ids_to_drop :
    (i seen k : ℕ) (rs : List PipelineRun)
    → contains i (ids_to_drop seen k rs) ≡ true
    → 0 < count i (ids rs)
unfolding contains ids_to_drop count
count-ids_to_drop i seen k [] h = absurd (ground arith)
count-ids_to_drop i seen k (r ∷ rs) h = ground (arith, count-ids_to_drop i (suc seen) k rs)

count-ids-place :
    (i : ℕ) (r : PipelineRun) (rs : List PipelineRun)
    → count i (ids (place r rs)) ≡ count i (ids (r ∷ rs))
unfolding place count
count-ids-place i r [] = refl
count-ids-place i r (q ∷ rs) = ground (arith, count-ids-place i r rs)

count-ids-by_start :
    (i : ℕ) (rs : List PipelineRun) → count i (ids (by_start rs)) ≡ count i (ids rs)
unfolding by_start count
count-ids-by_start i [] = refl
count-ids-by_start i (r ∷ rs) =
    count-ids-place i r (by_start rs) ∙ ground (arith, count-ids-by_start i rs)

In-if :
    (b : Bool) (r q : PipelineRun) (rs : List PipelineRun)
    → In r (if b then q ∷ rs else rs)
    → ((b ≡ true) × (q ≡ r)) ⊎ In r rs
In-if true r q rs (inl e) = inl (refl, e)
In-if true r q rs (inr m) = inr m
In-if false r q rs m = inr m

In-retain :
    (p : PipelineRun → Bool) (r : PipelineRun) (rs : List PipelineRun)
    → In r (retain p rs)
    → In r rs × (p r ≡ true)
unfolding retain
In-retain p r [] h = absurd h
In-retain p r (q ∷ rs) h = elim (In-if (p q) r q (retain p rs) h) [
  | inl (e, f) ↦ (inl f, sym (ap p f) ∙ e)
  | inr m ↦ let (n, k) = In-retain p r rs m in (inr n, k)
]

retain-retain :
    (q p : PipelineRun → Bool) (rs : List PipelineRun)
    → ((r : PipelineRun) → In r rs → q r ≡ true → p r ≡ true)
    → retain q (retain p rs) ≡ retain q rs
unfolding retain
retain-retain q p [] h = refl
retain-retain q p (r ∷ rs) h =
    ground (arith, h r (inl refl), retain-retain q p rs (λ s m e. h s (inr m) e))

-- The runs that are dropped are of the pipeline.
dropped_own :
    (p : Text) (k : ℕ) (runs : List PipelineRun) (r : PipelineRun)
    → Distinct runs
    → In r runs
    → contains r.id (ids_to_drop 0 k (by_start (retain (of_pipeline p) runs))) ≡ true
    → of_pipeline p r ≡ true
dropped_own p k runs r d m h =
    let own = retain (of_pipeline p) runs in
    let found : 0 < count r.id (ids own) =
      omega (arith, count-ids_to_drop r.id 0 k (by_start own) h, count-ids-by_start r.id own) in
    let (q, n, e) = In-ids r.id own found in
    let (n', o) = In-retain (of_pipeline p) q runs n in
    ap (of_pipeline p) (same_run r q runs d m n' (sym e)) ∙ o

pub capped_others :
    (p j : Text) (runs : List PipelineRun)
    → Distinct runs
    → p ≢ j
    → retain (of_pipeline j) (capped p runs) ≡ retain (of_pipeline j) runs
unfolding capped
capped_others p j runs d ne =
    let own = retain (of_pipeline p) runs in
    let k = length own - 200 in
    let gone = ids_to_drop 0 k (by_start own) in
    let keep = λ (r : PipelineRun). not (contains r.id gone) in
    elim (Bool-cases (leb (length own) 200)) [
      | inl few ↦ rw few refl
      | inr many ↦ rw many (
          retain-retain (of_pipeline j) keep runs (λ r m o. elim (Bool-cases (contains r.id gone)) [
            | inl e ↦ absurd (ne (one_pipeline p j r (dropped_own p k runs r d m e) o))
            | inr e ↦ ap not e
          ]))
    ]

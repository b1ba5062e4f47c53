-- ===== src/Storage/Cache/Segment/History.antt =====
-- Any sequence of calls on a new `SegmentCache`.
use toradb.Prelude.{Eq, ℕ, ◌≤◌, ◌≡◌, ◌∙◌, List, [], ◌∷◌, arith, length, max, refl, sym, ap}
use toradb.Collections.Dict.{Dict, remove}
use toradb.Storage.Cache.Lru.{refresh, store, entries}
use toradb.Storage.Cache.Segment.{SegmentCache, new, get, insert, invalidate}
use toradb.Storage.Cache.Segment.Validity.{
  IsValid, IsValid-new, get-IsValid, insert-IsValid, invalidate-IsValid,
}
use toradb.Storage.Cache.Segment.Refinement.{
  view, length-view, get_refines, insert_refines, invalidate_refines,
}

pub data Call (K V : Type 0) : Type 0 where
  lookup_call : K → Call K V
  insert_call : K → V → Call K V
  invalidate_call : K → Call K V

module _ {K V : Type 0} ⦃e : Eq K⦄ where
  unfoldable pub step : Call K V → SegmentCache K V → SegmentCache K V
  step (lookup_call k) c = (get k c).0
  step (insert_call k v) c = insert k v c
  step (invalidate_call k) c = invalidate k c

  unfoldable pub run : List (Call K V) → SegmentCache K V → SegmentCache K V
  unfolding step
  run [] c = c
  run (call ∷ calls) c = run calls (step call c)

  -- The same calls on the least-recently-used list.
  unfoldable pub list_step : ℕ → Call K V → Dict K V → Dict K V
  list_step capacity (lookup_call k) l = refresh k l
  list_step capacity (insert_call k v) l = store capacity k v l
  list_step capacity (invalidate_call k) l = remove k l

  unfoldable pub list_run : ℕ → List (Call K V) → Dict K V → Dict K V
  unfolding list_step
  list_run capacity [] l = l
  list_run capacity (call ∷ calls) l = list_run capacity calls (list_step capacity call l)

  step-IsValid : (call : Call K V) (c : SegmentCache K V) → IsValid c → IsValid (step call c)
  unfolding step
  step-IsValid (lookup_call k) c h = get-IsValid k c h
  step-IsValid (insert_call k v) c h = insert-IsValid k v c h
  step-IsValid (invalidate_call k) c h = invalidate-IsValid k c h

  capacity-step : (call : Call K V) (c : SegmentCache K V) → (step call c).capacity ≡ c.capacity
  unfolding step get insert invalidate
  capacity-step (lookup_call k) c = ground arith
  capacity-step (insert_call k v) c = ground arith
  capacity-step (invalidate_call k) c = ground arith

  view-step :
      (call : Call K V) (c : SegmentCache K V)
      → IsValid c
      → view (step call c) ≡ list_step c.capacity call (view c)
  unfolding step list_step
  view-step (lookup_call k) c h = (get_refines k c h).1
  view-step (insert_call k v) c h = insert_refines k v c h
  view-step (invalidate_call k) c h = invalidate_refines k c h

  run_from :
      (n : ℕ) (calls : List (Call K V)) (c : SegmentCache K V)
      → c.capacity ≡ n
      → IsValid c
      → IsValid (run calls c)
        × ((run calls c).capacity ≡ n)
        × (view (run calls c) ≡ list_run n calls (view c))
  unfolding run list_run
  run_from n [] c size h = (h, size, refl)
  run_from n (call ∷ calls) c size h =
      let later =
        run_from n calls (step call c) (capacity-step call c ∙ size) (step-IsValid call c h) in
      (later.0, later.1, later.2 ∙ cc (view-step call c h, size))

  view-new : (n : ℕ) → view {K = K} {V = V} (new n) ≡ []
  unfolding new entries
  view-new n = refl

  -- Whatever the calls on a new segment cache, the entries in the order of its queue are those of
  -- the least-recently-used list of the same capacity, which is at least one, and the map holds as
  -- many entries as that list, never more than the capacity.
  pub run_refines :
      (n : ℕ) (calls : List (Call K V))
      → (view (run calls (new n)) ≡ list_run (max n 1) calls [])
        × (length (run calls (new n)).map ≡ length (list_run (max n 1) calls []))
        × (length (run calls (new n)).map ≤ max n 1)
  run_refines n calls =
      let ends = run_from (max n 1) calls (new n) (unfold new in refl) (IsValid-new n) in
      let same = ends.2 ∙ ap (list_run (max n 1) calls) (view-new n) in
      (same, sym (length-view _ ends.0) ∙ ap length same, omega (arith, ends.0.bounded, ends.1))

  -- Every cache that the calls can make is valid.
  pub run-IsValid : (n : ℕ) (calls : List (Call K V)) → IsValid (run calls (new n))
  run-IsValid n calls = (run_from (max n 1) calls (new n) (unfold new in refl) (IsValid-new n)).0

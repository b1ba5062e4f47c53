-- ===== src/Storage/Cache/Segment/Tests.antt =====
-- A `SegmentCache` at concrete inputs; paths are texts and documents are numbers.
use toradb.Prelude.{ℕ, ◌≤◌, ◌≡◌, refl, String, List, [], ◌∷◌, length, string_eq, none}
use toradb.Collections.Keys.{without}
use toradb.Collections.Dict.{lookup, contains_key, insert as put, remove}
use toradb.Storage.Cache.Lru.{refresh, store}
use toradb.Storage.Cache.Segment.{SegmentCache, new, touch, get, evict, insert, invalidate}
use toradb.Storage.Cache.Segment.Refinement.{view, get_refines, insert_refines}
use toradb.Storage.Cache.Segment.History.{
  Call, lookup_call, insert_call, invalidate_call, run, list_run, run_refines, run-IsValid,
}

abbrev calls : List (Call String ℕ)
calls =
    insert_call "/a" 1
    ∷ insert_call "/b" 2
    ∷ lookup_call "/a"
    ∷ insert_call "/c" 3
    ∷ invalidate_call "/x"
    ∷ []

abbrev full : SegmentCache String ℕ
full = run calls (new 2)

-- The entry that was not read goes first.
evicts_oldest :
    (full.order ≡ "/a" ∷ "/c" ∷ []) × (lookup "/b" full.map ≡ none) × (full.stats.hits ≡ 1)
unfolding run new touch get evict insert invalidate lookup contains_key put remove without
evicts_oldest = (refl, refl, refl)

run_refines_example :
    (view full ≡ list_run 2 calls [])
    × (length full.map ≡ length (list_run 2 calls []))
    × (length full.map ≤ 2)
run_refines_example = run_refines 2 calls

get_refines_example :
    ((get "/a" full).1 ≡ lookup "/a" (view full))
    × (view (get "/a" full).0 ≡ refresh "/a" (view full))
get_refines_example = get_refines "/a" full (run-IsValid 2 calls)

insert_refines_example : view (insert "/d" 7 full) ≡ store full.capacity "/d" 7 (view full)
insert_refines_example = insert_refines "/d" 7 full (run-IsValid 2 calls)

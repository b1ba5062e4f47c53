-- ===== src/Storage/Compaction/Merge/Tests.antt =====
-- Two segments of which the second lies between the rows of the first, with one row deleted.
use toradb.Prelude.{
  ℕ, ◌+◌, ◌≤◌, ◌<◌, ◌≡◌, refl, true, none, some, List, [], ◌∷◌, if◌then◌else◌, Text, text, text_beq,
  text_eq, all, sum_of, arith, Result, ok,
}
use toradb.Storage.Compaction.Merge.{
  Row, MergeSource, Merged, went_on, Disk, no_id, batch_min_id, best, next_min, merge_loop,
  merge_segments_streaming, nothing_merged, source,
}
use toradb.Storage.Compaction.Merge.Batches.{span}
use toradb.Storage.Compaction.Merge.Reading.{recast, Casts}
use toradb.Storage.Compaction.Merge.Sources.{has_id}
use toradb.Storage.Compaction.Merge.Total.{live_weight, one}
use toradb.Storage.Compaction.Merge.Files.{
  is_whole, ends_well, all_stored, merge_segments_streaming_lem,
}
use toradb.Storage.Compaction.Merge.Bounds.{Inside, merge_segments_streaming-Inside}
use toradb.Storage.Compaction.Merge.Stuck.{merge_loop_stuck}

abbrev double : ℕ → ℕ
double n = n + n

abbrev segment : Text → Result (List (Result (List (Row ℕ))))
segment p =
    if text_beq p (text "a")
    then ok (ok ((1, 10) ∷ (2, 20) ∷ []) ∷ ok ((5, 50) ∷ (9, 90) ∷ []) ∷ [])
    else ok (ok ((3, 30) ∷ (6, 60) ∷ []) ∷ [])

abbrev disk : Disk ℕ ℕ
disk = record {
  iter_segment_batches = segment;
  create = none;
  cast_and_write = λ b. ok (recast double b);
  close = none;
}

casts : Casts disk double
casts b = refl

abbrev paths : List Text
paths = text "a" ∷ text "b" ∷ []

abbrev merged_two : Merged ℕ
merged_two = record {
  out = (1, 20) ∷ (2, 40) ∷ (3, 60) ∷ (6, 120) ∷ (9, 180) ∷ [];
  global_min = 1;
  global_max = 9;
  row_count = 5;
  removed = text "b" ∷ text "a" ∷ [];
}

merges : merge_segments_streaming disk (5 ∷ []) 9 paths ≡ some (went_on merged_two)
unfolding merge_segments_streaming recast
merges = refl

are_whole : all (is_whole disk) paths ≡ true
unfolding all ends_well
are_whole = refl

are_distinct : (i : ℕ) → sum_of (has_id i) (all_stored disk paths) ≤ 1
unfolding sum_of all_stored
are_distinct i = ground arith

are_few : sum_of one (all_stored disk paths) < 9
unfolding sum_of all_stored
are_few = omega arith

merge_segments_streaming_example :
    (w : Merged ℕ) × (merge_segments_streaming disk (5 ∷ []) 9 paths ≡ some (went_on w))
    × (span 0 no_id w.out ≡ true)
    × ((g : Row ℕ → ℕ)
        → sum_of g w.out ≡ sum_of (live_weight (5 ∷ []) double g) (all_stored disk paths))
merge_segments_streaming_example =
    merge_segments_streaming_lem disk (5 ∷ []) double 9 (text "a") (text "b" ∷ []) casts refl refl
      are_whole are_distinct are_few

merge_segments_streaming-Inside_example : Inside merged_two
merge_segments_streaming-Inside_example =
    merge_segments_streaming-Inside disk (5 ∷ []) double casts 9 paths merged_two merges

abbrev alike : List (MergeSource ℕ)
alike = source (text "a") (some ((4, 0) ∷ [])) [] ∷ source (text "b") (some ((4, 1) ∷ [])) [] ∷ []

abbrev first_alike : MergeSource ℕ
first_alike = source (text "a") (some ((4, 0) ∷ [])) []

first_is_best : best alike ≡ some (0, first_alike)
unfolding best batch_min_id
first_is_best = refl

the_other : next_min 0 alike ≤ first_alike.min_id
unfolding next_min batch_min_id
the_other = omega arith

merge_loop_stuck_example : merge_loop disk [] 1000 alike (nothing_merged disk []) ≡ none
merge_loop_stuck_example =
    merge_loop_stuck disk [] 1000 0 alike (nothing_merged disk []) first_alike first_is_best
      the_other

-- ===== src/Storage/Compaction/Pick/Tests.antt =====
-- The groups of a manifest with three segments, two of them of the lowest tier.
use toradb.Prelude.{
  ℕ, ◌+◌, ◌/◌, ◌≤◌, ◌≡◌, refl, max, some, none, List, [], ◌∷◌, Text, text, text_eq, text_beq_iff,
  arith, ltb, sum_of, sort, put_in_order, chunks, retain,
}
use toradb.Collections.Keys.{count}
use toradb.Storage.Manifest.{SegmentMeta, TableManifestFile, default}
use toradb.Storage.Manifest.Consistency.{IsConsistent}
use toradb.Storage.Manifest.Ranges.{not_in_empty}
use toradb.Storage.Compaction.Policy.{
  CompactMode, CompactPolicy, default_policy, default_tiers, output_tier,
}
use toradb.Storage.Compaction.Scores.{Float, group_score}
use toradb.Storage.Compaction.Pick.{MergeCandidate, pick_merge_candidates}
use toradb.Storage.Compaction.Pick.Groups.{in_group, pick_merge_candidates-files}

abbrev whole_numbers : Float ℕ
whole_numbers = record {
  of_nat = λ n. n;
  tenths = λ n. n;
  largest = 1000000;
  add = λ a b. a + b;
  div = λ a b. a / b;
  max_of = max;
  is_less = ltb;
}

abbrev sized : Text → ℕ → ℕ → SegmentMeta
sized file tier created = record {
  file = file;
  min_id = 0;
  max_id = 9;
  tier = tier;
  generation = 1;
  created_at = created;
  byte_size = 100;
  row_count = 10;
  deleted_count = 0;
}

abbrev three_segments : TableManifestFile
three_segments = record default {
  segments = text "a" ∷ text "b" ∷ text "c" ∷ [];
  segment_meta = sized (text "a") 0 30 ∷ sized (text "b") 2 10 ∷ sized (text "c") 0 20 ∷ [];
}

abbrev by_two : CompactPolicy
by_two = record default_policy { tier = record default_tiers { tier_merge_threshold = 2 } }

abbrev oldest_first : List (MergeCandidate ℕ)
oldest_first =
    record {
      group = record { segments = text "c" ∷ text "a" ∷ []; input_tier = 0; output_tier = 1 };
      score = 20975;
    }
    ∷ []

picked :
    pick_merge_candidates whole_numbers by_two (λ _. none) CompactMode.auto three_segments
    ≡ some oldest_first
unfolding pick_merge_candidates group_score output_tier sort put_in_order chunks retain
picked = refl

once_each : (f : Text) → count f three_segments.segments ≤ 1
unfolding count
once_each f =
    ground (arith, text_beq_iff (text "a") f, text_beq_iff (text "b") f, text_beq_iff (text "c") f)

three_segments-IsConsistent : IsConsistent three_segments
three_segments-IsConsistent = record {
  segments = once_each;
  ranges = record {
    once = λ f. unfold count in omega arith;
    known = λ f h. absurd (not_in_empty f h);
  };
  metas = record { once = once_each; known = λ f h. h };
}

pick_merge_candidates-files_example :
    sum_of (in_group (text "a")) oldest_first ≤ count (text "a") three_segments.segments
pick_merge_candidates-files_example =
    pick_merge_candidates-files whole_numbers by_two (λ _. none) CompactMode.auto three_segments
      oldest_first (text "a") three_segments-IsConsistent picked

-- ===== src/Storage/Compaction/Table/Tests.antt =====
-- Two segments of one row each, merged into one.
use toradb.Prelude.{
  ℕ, ◌+◌, ◌/◌, ◌≡◌, ◌≤◌, refl, max, true, some, none, List, [], ◌∷◌, Text, text, text_beq,
  text_beq_iff, text_eq, ltb, if◌then◌else◌, arith, ok, Result, filter_map, parse_uint, decimal,
  retain, find, max_or, sort,
}
use toradb.Collections.Keys.{count, contains}
use toradb.Storage.Manifest.{
  TableManifestFile, SegmentMeta, saved, default, remove_segment, push_segment_meta, upsert_range,
  upsert_meta, next_generation,
}
use toradb.Storage.Manifest.Consistency.{IsConsistent}
use toradb.Storage.Manifest.Ranges.{not_in_empty}
use toradb.Storage.Compaction.Policy.{CompactMode, default_policy, tier_for_bytes}
use toradb.Storage.Compaction.Names.{next_segment_name}
use toradb.Storage.Compaction.Pick.{pick_merge_candidates}
use toradb.Storage.Compaction.Scores.{Float}
use toradb.Storage.Compaction.Merge.{Row, merge_segments_streaming}
use toradb.Storage.Compaction.Merge.Reading.{recast}
use toradb.Storage.Compaction.Table.{System, Compacted, compact_table_segments}
use toradb.Storage.Compaction.Table.Accounts.{Accounts, Replaced, compact_table_segments-Accounts}

abbrev whole_numbers : Float ℕ
whole_numbers = record {
  of_nat = λ n. n;
  tenths = λ n. n;
  largest = 1000000;
  add = λ a b. a + b;
  div = λ a b. a / b;
  max_of = max;
  is_less = ltb;
}

abbrev rows_of : Text → Result (List (Result (List (Row ℕ))))
rows_of p =
    if text_beq p (text "a") then ok (ok ((1, 10) ∷ []) ∷ []) else ok (ok ((3, 30) ∷ []) ∷ [])

abbrev system : System ℕ ℕ
system = record {
  size = λ _. some 100;
  exists = λ _. true;
  now = 77;
  merging = λ _. record {
    iter_segment_batches = rows_of;
    create = none;
    cast_and_write = λ b. ok (recast (λ n. n) b);
    close = none;
  };
  written_size = λ _. some 150;
  delete = λ _. none;
  save = λ _. none;
}

abbrev one_row : Text → ℕ → SegmentMeta
one_row f id = record {
  file = f;
  min_id = id;
  max_id = id;
  tier = 0;
  generation = 0;
  created_at = 7;
  byte_size = 100;
  row_count = 1;
  deleted_count = 0;
}

abbrev two_segments : TableManifestFile
two_segments = record default {
  segments = text "a" ∷ text "b" ∷ [];
  segment_meta = one_row (text "a") 1 ∷ one_row (text "b") 3 ∷ [];
}

abbrev one_segment : Compacted
one_segment = record {
  manifest = record default {
    schema_version = 2;
    segments = text "seg_00001.parquet" ∷ [];
    segment_id_ranges = record { file = text "seg_00001.parquet"; min_id = 1; max_id = 1 } ∷ [];
    segment_meta =
        record {
          file = text "seg_00001.parquet";
          min_id = 1;
          max_id = 1;
          tier = 3;
          generation = 1;
          created_at = 77;
          byte_size = 150;
          row_count = 1;
          deleted_count = 0;
        }
        ∷ [];
  };
  report = record {
    merges = 1;
    segments_before = 2;
    segments_after = 1;
    removed = text "a" ∷ text "b" ∷ [];
    added = text "seg_00001.parquet" ∷ [];
    tier_transitions = (text "seg_00001.parquet", 3) ∷ [];
  };
  tombstones = [];
}

compacts :
    compact_table_segments system default_policy whole_numbers 9 CompactMode.full two_segments
      (3 ∷ [])
    ≡ some (ok one_segment)
unfolding compact_table_segments pick_merge_candidates next_segment_name tier_for_bytes
    remove_segment push_segment_meta upsert_range upsert_meta next_generation
    merge_segments_streaming saved filter_map parse_uint decimal retain find max_or recast sort
    contains
compacts = refl

two_segments-once : (f : Text) → count f two_segments.segments ≤ 1
unfolding count
two_segments-once f = ground (
  arith,
  text_beq_iff (text "a") f,
  text_beq_iff (text "b") f,
  text_beq_iff (text "a") (text "b"),
)

two_segments-IsConsistent : IsConsistent two_segments
two_segments-IsConsistent = record {
  segments = two_segments-once;
  ranges = record {
    once = λ f. unfold count in omega arith;
    known = λ f h. absurd (not_in_empty f h);
  };
  metas = record { once = two_segments-once; known = λ f h. h };
}

compact_table_segments-Accounts_example :
    Accounts two_segments one_segment.manifest one_segment.report × Replaced one_segment.report
compact_table_segments-Accounts_example =
    compact_table_segments-Accounts system default_policy whole_numbers 9 CompactMode.full
      two_segments (3 ∷ []) one_segment two_segments-IsConsistent refl compacts

-- ===== src/Storage/Compaction/Names/Tests.antt =====
-- The name after three segments, one of which is named otherwise.
use toradb.Prelude.{
  ◌+◌, ◌<◌, ◌^◌, ◌≡◌, refl, false, [], ◌∷◌, text, text_eq, decimal, parse_uint, filter_map, max_or,
  arith,
}
use toradb.Collections.Keys.{contains}
use toradb.Storage.Manifest.{TableManifestFile, default}
use toradb.Storage.Compaction.Names.{next_segment_name, segment_number}
use toradb.Storage.Compaction.Names.Fresh.{next_segment_name_fresh}

abbrev three_segments : TableManifestFile
three_segments = record default {
  segments = text "seg_00007.parquet" ∷ text "old.parquet" ∷ text "seg_00012.parquet" ∷ [];
}

next_name : next_segment_name three_segments ≡ text "seg_00013.parquet"
unfolding next_segment_name filter_map max_or parse_uint decimal
next_name = refl

number_is_small : max_or 0 (filter_map segment_number three_segments.segments) + 1 < 2 ^ 32
unfolding segment_number filter_map max_or parse_uint
number_is_small = omega arith

next_segment_name_fresh_example :
    contains (next_segment_name three_segments) three_segments.segments ≡ false
next_segment_name_fresh_example = next_segment_name_fresh three_segments number_is_small

-- ===== src/Storage/Compaction/Names.antt =====
-- The name of the segment that a merge writes.
pub mod Fresh
mod Tests
use toradb.Prelude.{
  ℕ, zero, suc, ◌+◌, ◌-◌, ◌*◌, ◌/◌, ◌%◌, ◌^◌, min, max, Bool, true, false, not, ◌&&◌, Option, none,
  some, List, [], ◌∷◌, ◌++◌, map, ltb, leb, ◌==◌, if◌then◌else◌, Text, text, decimal, parse_uint,
  strip_prefix, length, get_elem?, take, replicate, retain, filter_map, find, max_or, sort, chunks,
  text_beq,
}
use mathlib.Core.List.{reverse}
use toradb.Storage.Manifest.{TableManifestFile, SegmentMeta}

-- `rest.strip_suffix(suffix)`
pub strip_suffix : Text → Text → Option Text
unfolding strip_prefix
strip_suffix suffix s = elim (strip_prefix (reverse suffix) (reverse s)) [
  | none ↦ none
  | some r ↦ some (reverse r)
]

-- The number in the name of a segment file.
unfoldable pub segment_number : Text → Option ℕ
unfolding strip_suffix
segment_number s = elim (strip_prefix (text "seg_") s) [
  | none ↦ none
  | some rest ↦ elim (strip_suffix (text ".parquet") rest) [
    | none ↦ none
    | some n ↦ parse_uint (2 ^ 32) n
  ]
]

-- `{:05}`
pub padded : ℕ → Text
padded n = replicate (5 - length (decimal n)) 48 ++ decimal n

unfoldable pub next_segment_name : TableManifestFile → Text
unfolding segment_number padded
next_segment_name m =
    let max_num = max_or 0 (filter_map segment_number m.segments) in
    text "seg_" ++ (padded ((max_num + 1) % 2 ^ 32) ++ text ".parquet")

-- ===== src/Storage/Manifest.antt =====
-- The table manifest of crates/toradb-storage/src/columnar/manifest.rs: which segment files a table
-- has, with their id ranges and sizes. File names are texts. The clock, the sizes of files and the
-- JSON text on disk are parameters of the operations that use them.
pub mod Ranges
pub mod Persistence
pub mod Lookup
pub mod Consistency
pub mod Members
pub mod Saving
mod Tests
use toradb.Prelude.{
  ℕ, ◌+◌, ◌%◌, ◌^◌, ◌-◌, ◌*◌, Bool, true, false, not, ◌&&◌, Option, none, some, List, [], ◌∷◌, ◌++◌,
  map, Text, text_beq, ltb, leb, ◌==◌, find, any, retain, update_first, max, max_or,
  to_ascii_lowercase, if◌then◌else◌, Result, ok, err, ◌>>=◌, text_eq,
}
use toradb.Collections.Keys.{contains}
use toradb.Core.Schema.{ColumnTypeSpec}

pub data IndexMode : Type 0 where
  merged segment_only : IndexMode

pub data QueryMode : Type 0 where
  segment_fanout routed : QueryMode

pub record SegmentIdRange : Type 0 where
  pub file : Text
  pub min_id : ℕ
  pub max_id : ℕ

pub record SegmentMeta : Type 0 where
  pub file : Text
  pub min_id : ℕ
  pub max_id : ℕ
  pub tier : ℕ
  pub generation : ℕ
  pub created_at : ℕ
  pub byte_size : ℕ
  pub row_count : ℕ
  pub deleted_count : ℕ

pub record CompressionConfig : Type 0 where
  pub enabled : Bool
  pub block_size : ℕ

pub record TableManifestFile : Type 0 where
  pub schema_version : ℕ
  pub segments : List Text
  pub segment_workers : Option ℕ
  pub compression : Option CompressionConfig
  pub index_mode : IndexMode
  pub segment_id_ranges : List SegmentIdRange
  pub query_mode : QueryMode
  pub segment_meta : List SegmentMeta
  pub column_types : List (Text × ColumnTypeSpec)

abbrev pub default : TableManifestFile
default = record {
  schema_version = 1;
  segments = [];
  segment_workers = none;
  compression = none;
  index_mode = merged;
  segment_id_ranges = [];
  query_mode = segment_fanout;
  segment_meta = [];
  column_types = [];
}

-- `TIER_BYTE_BOUNDS` and the loop over it; the last bound is `u64::MAX`.
pub tier_for_bytes : ℕ → ℕ
tier_for_bytes bytes =
    if ltb bytes (4 * 1024 * 1024)
    then 0
    else if ltb bytes (16 * 1024 * 1024)
    then 1
    else if ltb bytes (64 * 1024 * 1024)
    then 2
    else if ltb bytes (2 ^ 64 - 1)
    then 3
    else 3

pub set_index_mode : IndexMode → TableManifestFile → TableManifestFile
set_index_mode mode m = record m { index_mode = mode }

abbrev range_named : Text → SegmentIdRange → Bool
range_named file r = text_beq r.file file

abbrev meta_named : Text → SegmentMeta → Bool
meta_named file r = text_beq r.file file

-- Found: changed in place; else pushed.
unfoldable pub upsert_range : Text → ℕ → ℕ → List SegmentIdRange → List SegmentIdRange
upsert_range file min_id max_id ranges = elim (find (range_named file) ranges) [
  | some _ ↦
      update_first (range_named file) (λ r. record r { min_id = min_id; max_id = max_id }) ranges
  | none ↦ ranges ++ record { file = file; min_id = min_id; max_id = max_id } ∷ []
]

pub record_segment_id_range : Text → ℕ → ℕ → TableManifestFile → TableManifestFile
unfolding upsert_range
record_segment_id_range file min_id max_id m = record m {
  segment_id_ranges = upsert_range file min_id max_id m.segment_id_ranges;
  segment_meta =
      update_first (meta_named file) (λ s. record s { min_id = min_id; max_id = max_id })
        m.segment_meta;
}

pub id_range_for_segment : Text → TableManifestFile → Option (ℕ × ℕ)
id_range_for_segment file m = elim (find (range_named file) m.segment_id_ranges) [
  | none ↦ none
  | some r ↦ some (r.min_id, r.max_id)
]

-- The inner loop of `segments_for_ids`: the files whose range holds the id, each once.
files_with_id : ℕ → List SegmentIdRange → List Text → List Text
files_with_id id [] out = out
files_with_id id (r ∷ ranges) out = files_with_id id ranges (
    if leb r.min_id id && leb id r.max_id
    then (if contains r.file out then out else out ++ r.file ∷ [])
    else out)

files_with_ids : List ℕ → List SegmentIdRange → List Text → List Text
unfolding files_with_id
files_with_ids [] ranges out = out
files_with_ids (id ∷ ids) ranges out = files_with_ids ids ranges (files_with_id id ranges out)

abbrev pub is_empty {ℓ} : {A : Type ℓ} → List A → Bool
is_empty [] = true
is_empty (x ∷ xs) = false

-- The segments to read for the ids: all of them where no range is known or none fits.
pub segments_for_ids : List ℕ → TableManifestFile → List Text
unfolding files_with_ids
segments_for_ids ids m =
    if is_empty m.segment_id_ranges
    then m.segments
    else (let out = files_with_ids ids m.segment_id_ranges [] in
        if is_empty out then m.segments else out)

unfoldable pub upsert_meta : SegmentMeta → List SegmentMeta → List SegmentMeta
upsert_meta meta metas = elim (find (meta_named meta.file) metas) [
  | some _ ↦ update_first (meta_named meta.file) (λ _. meta) metas
  | none ↦ metas ++ meta ∷ []
]

abbrev push_once : Text → List Text → List Text
push_once file segments = if contains file segments then segments else segments ++ file ∷ []

unfoldable pub push_segment_meta : SegmentMeta → TableManifestFile → TableManifestFile
push_segment_meta meta m = record m {
  segments = push_once meta.file m.segments;
  segment_id_ranges = upsert_range meta.file meta.min_id meta.max_id m.segment_id_ranges;
  segment_meta = upsert_meta meta m.segment_meta;
}

unfoldable pub remove_segment : Text → TableManifestFile → TableManifestFile
remove_segment file m = record m {
  segments = retain (λ s. not (text_beq s file)) m.segments;
  segment_id_ranges = retain (λ r. not (text_beq r.file file)) m.segment_id_ranges;
  segment_meta = retain (λ s. not (text_beq s.file file)) m.segment_meta;
}

-- A `u32`, which wraps in a release build.
unfoldable pub next_generation : TableManifestFile → ℕ
next_generation m = (max_or 0 (map (λ s. s.generation) m.segment_meta) + 1) % 2 ^ 32

abbrev bare_meta : Text → SegmentMeta
bare_meta file = record {
  file = file;
  min_id = 0;
  max_id = 0;
  tier = 0;
  generation = 0;
  created_at = 0;
  byte_size = 0;
  row_count = 0;
  deleted_count = 0;
}

pub push_segment : Text → TableManifestFile → TableManifestFile
push_segment name m = record m {
  segments = push_once name m.segments;
  segment_meta =
      if any (meta_named name) m.segment_meta
      then m.segment_meta
      else m.segment_meta ++ bare_meta name ∷ [];
}

pub set_column_types : List (Text × ColumnTypeSpec) → TableManifestFile → TableManifestFile
set_column_types types m = record m { column_types = types }

pub column_type : Text → TableManifestFile → Option ColumnTypeSpec
column_type name m =
    elim (find (λ c. text_beq (to_ascii_lowercase c.0) (to_ascii_lowercase name)) m.column_types) [
      | none ↦ none
      | some c ↦ some c.1
    ]

-- A `SegmentMeta` for a segment of a manifest of version 1; `byte_size` is the size on disk.
migrated_meta : (Text → ℕ) → ℕ → List SegmentIdRange → Text → SegmentMeta
migrated_meta byte_size now ranges name =
    let bare = record (bare_meta name) { created_at = now; byte_size = byte_size name } in
    elim (find (range_named name) ranges) [
      | none ↦ bare
      | some r ↦ record bare { min_id = r.min_id; max_id = r.max_id }
    ]

pub migrate_to_segment_meta : (Text → ℕ) → ℕ → TableManifestFile → TableManifestFile × Bool
unfolding migrated_meta
migrate_to_segment_meta byte_size now m = if not (is_empty m.segment_meta) then (m, false) else (
  record m { segment_meta = map (migrated_meta byte_size now m.segment_id_ranges) m.segments },
  true,
)

-- What `load` makes of the manifest that it has parsed.
upgraded : (Text → ℕ) → ℕ → TableManifestFile → TableManifestFile
unfolding migrate_to_segment_meta
upgraded byte_size now m =
    if is_empty m.segment_meta && not (is_empty m.segments)
    then (migrate_to_segment_meta byte_size now m).0
    else m

-- `load` after the file was read; `from_str` is the JSON parser, over documents `J`.
pub load :
    {J : Type 0} → (J → Result TableManifestFile) → (Text → ℕ) → ℕ → J → Result TableManifestFile
unfolding upgraded
load from_str byte_size now bytes = from_str bytes >>= λ m. ok (upgraded byte_size now m)

-- The manifest that `save` writes: the legacy fields follow `segment_meta`.
unfoldable pub saved : TableManifestFile → TableManifestFile
saved m =
    let synced =
      if not (is_empty m.segment_meta)
      then record m {
        schema_version = 2;
        segments = map (λ s. s.file) m.segment_meta;
        segment_id_ranges =
            map (λ s. record { file = s.file; min_id = s.min_id; max_id = s.max_id })
              m.segment_meta;
      }
      else m in
    if not (is_empty synced.column_types)
    then record synced { schema_version = max synced.schema_version 4 }
    else synced

-- ===== src/Storage/Compaction/Table.antt =====
-- `compact_table_segments`. `none` is a panic, or a merge that is not done within the turns given.
pub mod Accounts
mod Tests
use toradb.Prelude.{
  ℕ, zero, suc, ◌+◌, max, min, Bool, true, false, not, ◌&&◌, ◌||◌, Option, none, some, List, [],
  ◌∷◌, ◌++◌, map, ltb, leb, if◌then◌else◌, Text, text, text_beq, length, retain, filter_map, find,
  max_or, sort, Result, ok, err,
}
use toradb.Storage.Manifest.{
  TableManifestFile, SegmentMeta, remove_segment, push_segment_meta, next_generation, saved,
}
use toradb.Storage.Compaction.Policy.{
  CompactMode, CompactPolicy, should_compact_tiered, tier_for_bytes,
}
use toradb.Storage.Compaction.Scores.{Float}
use toradb.Storage.Compaction.Names.{next_segment_name}
use toradb.Storage.Compaction.Pick.{MergeGroup, group_of, is_auto, pick_merge_candidates}
use toradb.Storage.Compaction.Merge.{
  Disk, Merged, Attempt, went_on, failed, no_id, contains_id, merge_segments_streaming,
}

pub record CompactReport : Type 0 where
  pub merges : ℕ
  pub segments_before : ℕ
  pub segments_after : ℕ
  pub removed : List Text
  pub added : List Text
  pub tier_transitions : List (Text × ℕ)

abbrev pub empty_report : CompactReport
empty_report = record {
  merges = 0;
  segments_before = 0;
  segments_after = 0;
  removed = [];
  added = [];
  tier_transitions = [];
}

-- What the system answers: the sizes and the presence of files, the clock, the calls of the merge
-- that writes a segment, the error of a deletion, if any, and that of writing the manifest file.
pub record System (C D : Type 0) : Type 0 where
  pub size : Text → Option ℕ
  pub exists : Text → Bool
  pub now : ℕ
  pub merging : Text → Disk C D
  pub written_size : Text → Option ℕ
  pub delete : Text → Option Text
  pub save : TableManifestFile → Option Text

-- The state of the loop over the groups.
pub record Compacting : Type 0 where
  pub manifest : TableManifestFile
  pub report : CompactReport
  pub reclaimed : List ℕ

-- What is left at the end: the manifest that is written, which is the one given where none is, and
-- the deleted ids.
pub record Compacted : Type 0 where
  pub manifest : TableManifestFile
  pub report : CompactReport
  pub tombstones : List ℕ

-- `iter().min()` with a value for the empty iterator.
pub min_or : ℕ → List ℕ → ℕ
min_or d [] = d
min_or d (x ∷ xs) = elim xs [ [] ↦ x | _ ∷ _ ↦ min x (min_or d xs) ]

abbrev meta_of : TableManifestFile → Text → Option SegmentMeta
meta_of m s = find (λ r. text_beq r.file s) m.segment_meta

-- The deleted ids between the smallest and the largest id of a group.
pub reclaimed_by : TableManifestFile → List Text → List ℕ → List ℕ
unfolding min_or
reclaimed_by m segments deleted =
    let metas = filter_map (meta_of m) segments in
    let group_min = min_or 0 (map (λ (s : SegmentMeta). s.min_id) metas) in
    let group_max = max_or no_id (map (λ (s : SegmentMeta). s.max_id) metas) in
    retain (λ i. leb group_min i && leb i group_max) deleted

abbrev pub removed_from : Text → Compacting → Compacting
removed_from old c = record c {
  manifest = remove_segment old c.manifest;
  report = record c.report { removed = c.report.removed ++ old ∷ [] };
}

-- `sort_unstable` on ids
abbrev above : ℕ → ℕ → Bool
above a b = ltb b a

pub remaining : List ℕ → List ℕ → List ℕ
unfolding contains_id
remaining [] deleted = deleted
remaining (r ∷ rs) deleted = sort above (retain (λ i. not (contains_id (r ∷ rs) i)) deleted)

module _ {C : Type 0} {D : Type 0} (sys : System C D) (p : CompactPolicy) where
  -- The sources of a merge leave the manifest and the disk.
  pub drop_sources : List Text → Compacting → Result Compacting
  drop_sources [] c = ok c
  drop_sources (old ∷ olds) c = elim (sys.delete old) [
    | some e ↦ err e
    | none ↦ drop_sources olds (removed_from old c)
  ]

  -- The meta of a new segment.
  pub new_meta : Text → ℕ → MergeGroup → Merged D → SegmentMeta
  new_meta name generation group w =
      let byte_size : ℕ = elim (sys.written_size name) [ none ↦ 0 | some n ↦ n ] in
      record {
        file = name;
        min_id = w.global_min;
        max_id = w.global_max;
        tier = max (tier_for_bytes byte_size p.tier) group.output_tier;
        generation = generation;
        created_at = sys.now;
        byte_size = byte_size;
        row_count = w.row_count;
        deleted_count = 0;
      }

  abbrev pub added_to : SegmentMeta → Compacting → Compacting
  added_to s c = record c {
    manifest = push_segment_meta s c.manifest;
    report = record c.report {
      tier_transitions = c.report.tier_transitions ++ (s.file, s.tier) ∷ [];
      added = c.report.added ++ s.file ∷ [];
      merges = suc c.report.merges;
    };
  }

  pub finish_group :
      MergeGroup → Text → Compacting → Option (Attempt (Merged D)) → Option (Result Compacting)
  unfolding drop_sources new_meta
  finish_group group name c none = none
  finish_group group name c (some (failed e gone)) = some (err e)
  finish_group group name c (some (went_on w)) =
      let s = new_meta name (next_generation c.manifest) group w in
      elim (drop_sources group.segments c) [
        | err e ↦ some (err e)
        | ok c' ↦ some (ok (added_to s c'))
      ]

  -- The body of the loop over the groups.
  pub merge_group : ℕ → List ℕ → MergeGroup → Compacting → Option (Result Compacting)
  unfolding finish_group reclaimed_by
  merge_group fuel deleted group c =
      let name = next_segment_name c.manifest in
      let more = reclaimed_by c.manifest group.segments deleted in
      if ltb (length group.segments) 2
      then some (ok c)
      else elim (find (λ s. not (sys.exists s)) group.segments) [
        | some s ↦ some (err (text "missing segment file " ++ s))
        | none ↦
            finish_group group name (record c { reclaimed = c.reclaimed ++ more })
              (merge_segments_streaming (sys.merging name) deleted fuel group.segments)
      ]

  pub merge_groups : ℕ → List ℕ → List MergeGroup → Compacting → Option (Result Compacting)
  unfolding merge_group
  merge_groups fuel deleted [] c = some (ok c)
  merge_groups fuel deleted (g ∷ gs) c = elim (merge_group fuel deleted g c) [
    | none ↦ none
    | some (err e) ↦ some (err e)
    | some (ok c') ↦ merge_groups fuel deleted gs c'
  ]

  -- The manifest is saved, in the form that `save` gives it, and the ids that were reclaimed are deleted no more.
  pub conclude : List ℕ → Compacting → Result Compacted
  unfolding remaining
  conclude deleted c = elim (sys.save (saved c.manifest)) [
    | some e ↦ err e
    | none ↦ ok (record {
      manifest = saved c.manifest;
      report = record c.report { segments_after = length c.manifest.segments };
      tombstones = remaining c.reclaimed deleted;
    })
  ]

  abbrev pub unchanged : TableManifestFile → List ℕ → Compacted
  unchanged m deleted = record {
    manifest = m;
    report = record empty_report {
      segments_before = length m.segments;
      segments_after = length m.segments;
    };
    tombstones = deleted;
  }

  abbrev pub concluded : List ℕ → Option (Result Compacting) → Option (Result Compacted)
  concluded deleted none = none
  concluded deleted (some (err e)) = some (err e)
  concluded deleted (some (ok c)) = some (conclude deleted c)

  pub compact_groups : ℕ → TableManifestFile → List ℕ → List MergeGroup → Option (Result Compacted)
  unfolding merge_groups conclude
  compact_groups fuel m deleted [] = some (ok (unchanged m deleted))
  compact_groups fuel m deleted (g ∷ gs) = concluded deleted (
      merge_groups fuel deleted (g ∷ gs) (record {
        manifest = m;
        report = record empty_report { segments_before = length m.segments };
        reclaimed = [];
      }))

  -- The groups that are picked, if the segments are enough and it is time.
  pub compact_table_segments :
      {F : Type 0}
      → Float F
      → ℕ
      → CompactMode
      → TableManifestFile
      → List ℕ
      → Option (Result Compacted)
  unfolding compact_groups
  compact_table_segments fl fuel mode m deleted =
      if ltb (length m.segments) 2
        || (is_auto fl p mode && not (should_compact_tiered sys.size p m))
      then some (ok (unchanged m deleted))
      else elim (pick_merge_candidates fl p sys.size mode m) [
        | none ↦ none
        | some candidates ↦ compact_groups fuel m deleted (map group_of candidates)
      ]

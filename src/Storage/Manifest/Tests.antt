-- ===== src/Storage/Manifest/Tests.antt =====
-- A manifest with two segments.
use toradb.Prelude.{
  ℕ, ◌<◌, ◌≡◌, refl, ◌⊎◌, inl, inr, true, false, [], ◌∷◌, Text, text, text_beq, arith,
  if◌then◌else◌, some, none, text_eq, Result, ok, max_or, find, update_first,
}
use toradb.Collections.Keys.{contains}
use toradb.Storage.Manifest.{
  SegmentMeta, TableManifestFile, default, push_segment_meta, remove_segment, segments_for_ids,
  saved, load, is_empty, next_generation, id_range_for_segment, upsert_range, upsert_meta,
}
use toradb.Storage.Manifest.Ranges.{Wanted, segments_for_ids_complete, segments_for_ids_sound}
use toradb.Storage.Manifest.Consistency.{
  IsConsistent, start, next, pushed, removed, Reach-IsConsistent, meta_files,
}
use toradb.Storage.Manifest.Lookup.{
  id_range_for_segment-push_segment_meta, id_range_for_segment-remove_segment,
}
use toradb.Storage.Manifest.Persistence.{load-saved, next_generation_fresh}

abbrev meta : Text → ℕ → ℕ → SegmentMeta
meta file low high = record {
  file = file;
  min_id = low;
  max_id = high;
  tier = 0;
  generation = 1;
  created_at = 5;
  byte_size = 100;
  row_count = 10;
  deleted_count = 0;
}

abbrev a : Text
a = text "a"

abbrev b : Text
b = text "b"

abbrev one : TableManifestFile
one = push_segment_meta (meta a 0 9) default

abbrev two : TableManifestFile
two = push_segment_meta (meta b 10 19) one

reads_one : segments_for_ids (12 ∷ []) two ≡ b ∷ []
unfolding segments_for_ids push_segment_meta upsert_range contains find update_first
reads_one = refl

segments_for_ids_complete_example : contains b (segments_for_ids (12 ∷ []) two) ≡ true
unfolding push_segment_meta upsert_range contains find update_first
segments_for_ids_complete_example =
    segments_for_ids_complete (12 ∷ []) two 12 (record { file = b; min_id = 10; max_id = 19 })
      (inl refl) (inr (inl refl)) (omega arith)

segments_for_ids_sound_example :
    (segments_for_ids (12 ∷ []) two ≡ two.segments)
    ⊎ ((f : Text)
        → contains f (segments_for_ids (12 ∷ []) two) ≡ true
        → Wanted f (12 ∷ []) two.segment_id_ranges)
segments_for_ids_sound_example = segments_for_ids_sound (12 ∷ []) two

Reach-IsConsistent_example : IsConsistent (remove_segment a two)
Reach-IsConsistent_example = Reach-IsConsistent (
    next (next (next start (pushed (meta a 0 9) default)) (pushed (meta b 10 19) one))
      (removed a two))

id_range_for_segment-push_segment_meta_example :
    id_range_for_segment b two
    ≡ (if text_beq b b then some (10, 19) else id_range_for_segment b one)
id_range_for_segment-push_segment_meta_example =
    id_range_for_segment-push_segment_meta (meta b 10 19) one b

id_range_for_segment-remove_segment_example :
    id_range_for_segment b (remove_segment a two)
    ≡ (if text_beq a b then none else id_range_for_segment b two)
id_range_for_segment-remove_segment_example = id_range_for_segment-remove_segment a two b

next_generation_fresh_example : 1 < next_generation two
unfolding push_segment_meta upsert_meta contains find update_first max_or
next_generation_fresh_example = next_generation_fresh two (meta a 0 9) (inl refl) (omega arith)

-- Documents that are the manifests themselves.
abbrev from_str : TableManifestFile → Result TableManifestFile
from_str m = ok m

load-saved_example :
    (n : TableManifestFile) × (load from_str (λ _. 0) 7 (saved two) ≡ ok n)
    × (n.segments
        ≡ (if is_empty two.segment_meta then two.segments else meta_files two.segment_meta))
    × (meta_files n.segment_meta ≡ n.segments)
    × (is_empty two.segment_meta ≡ false → n.segment_meta ≡ two.segment_meta)
    × (n.column_types ≡ two.column_types)
load-saved_example = load-saved (λ m. m) from_str (λ _. 0) 7 two (λ n. refl)

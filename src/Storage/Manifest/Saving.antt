-- ===== src/Storage/Manifest/Saving.antt =====
-- Manifests whose metas list the segments, in order, and what `save` makes of them.
use toradb.Prelude.{
  ◌≡◌, refl, sym, ap, ◌∙◌, Bool-cases, inl, inr, List, [], ◌∷◌, map, Text, text_eq, arith,
}
use mathlib.Core.Path.{subst}
use toradb.Collections.Keys.{without}
use toradb.Storage.Manifest.{
  SegmentIdRange, SegmentMeta, TableManifestFile, is_empty, remove_segment, push_once,
  push_segment_meta, saved,
}
use toradb.Storage.Manifest.Consistency.{
  Lists, IsConsistent, range_files, meta_files, meta_files-upsert, meta_files-retain,
  segments-retain,
}

-- As `load` gives a manifest.
abbrev pub HasMetas : TableManifestFile → Type 0
HasMetas m = meta_files m.segment_meta ≡ m.segments

pub remove_segment-HasMetas :
    (f : Text) (m : TableManifestFile) → HasMetas m → HasMetas (remove_segment f m)
unfolding remove_segment
remove_segment-HasMetas f m h =
    meta_files-retain f m.segment_meta ∙ ap (without f) h ∙ sym (segments-retain f m.segments)

pub push_segment_meta-HasMetas :
    (s : SegmentMeta) (m : TableManifestFile) → HasMetas m → HasMetas (push_segment_meta s m)
unfolding push_segment_meta
push_segment_meta-HasMetas s m h = meta_files-upsert s m.segment_meta ∙ ap (push_once s.file) h

pub saved-segment_meta : (m : TableManifestFile) → (saved m).segment_meta ≡ m.segment_meta
unfolding saved
saved-segment_meta m = ground arith

pub saved-segments : (m : TableManifestFile) → HasMetas m → (saved m).segments ≡ m.segments
unfolding saved
saved-segments m h = ground arith

abbrev range_of : SegmentMeta → SegmentIdRange
range_of s = record { file = s.file; min_id = s.min_id; max_id = s.max_id }

range_files-range_of :
    (metas : List SegmentMeta) → range_files (map range_of metas) ≡ meta_files metas
range_files-range_of [] = refl
range_files-range_of (s ∷ metas) = ap (λ fs. s.file ∷ fs) (range_files-range_of metas)

saved_ranges :
    (m : TableManifestFile)
    → HasMetas m
    → IsConsistent m
    → Lists (range_files (saved m).segment_id_ranges) m.segments
unfolding saved
saved_ranges m h k =
    let metas : Lists (range_files (map range_of m.segment_meta)) m.segments =
      subst (λ fs. Lists fs m.segments) (sym (range_files-range_of m.segment_meta)) k.metas in
    elim (Bool-cases (is_empty m.segment_meta)) [
      | inl e ↦ elim (Bool-cases (is_empty m.column_types)) [
        | inl t ↦ rw (e, t) k.ranges
        | inr t ↦ rw (e, t) k.ranges
      ]
      | inr e ↦ elim (Bool-cases (is_empty m.column_types)) [
        | inl t ↦ rw (e, t) metas
        | inr t ↦ rw (e, t) metas
      ]
    ]

pub saved-IsConsistent :
    (m : TableManifestFile) → HasMetas m → IsConsistent m → IsConsistent (saved m)
saved-IsConsistent m h k = record {
  segments = rw (saved-segments m h) k.segments;
  ranges = rw (saved-segments m h) (saved_ranges m h k);
  metas = rw (saved-segments m h, saved-segment_meta m) k.metas;
}

-- ===== src/Storage/Manifest/Lookup.antt =====
-- What a manifest answers about a segment after it was pushed or removed, and after a restart.
use toradb.Prelude.{
  ℕ, ◌≡◌, refl, not, none, some, List, [], ◌∷◌, ◌++◌, Text, text_beq, text_beq_iff, arith,
  if◌then◌else◌, text_eq, find, update_first, retain,
}
use toradb.Storage.Manifest.{
  SegmentIdRange, SegmentMeta, TableManifestFile, range_named, upsert_range, push_segment_meta,
  remove_segment, id_range_for_segment,
}

find-append :
    (f : Text) (rs : List SegmentIdRange) (r : SegmentIdRange)
    → find (range_named f) (rs ++ r ∷ []) ≡ elim (find (range_named f) rs) [
      | some q ↦ some q
      | none ↦ if text_beq r.file f then some r else none
    ]
unfolding find
find-append f [] r = refl
find-append f (q ∷ rs) r = ground (arith, find-append f rs r)

find-update :
    (f j : Text) (a b : ℕ) (rs : List SegmentIdRange)
    → find
        (range_named j)
        (update_first (range_named f) (λ r. record r { min_id = a; max_id = b }) rs)
      ≡ (if text_beq f j
          then elim (find (range_named f) rs) [
            | none ↦ none
            | some r ↦ some (record r { min_id = a; max_id = b })
          ]
          else find (range_named j) rs)
unfolding find update_first
find-update f j a b [] = ground arith
find-update f j a b (r ∷ rs) =
    ground (
      arith,
      find-update f j a b rs,
      text_beq_iff r.file f,
      text_beq_iff r.file j,
      text_beq_iff f j,
    )

find-retain :
    (f j : Text) (rs : List SegmentIdRange)
    → find (range_named j) (retain (λ r. not (text_beq r.file f)) rs)
      ≡ (if text_beq f j then none else find (range_named j) rs)
unfolding find retain
find-retain f j [] = ground arith
find-retain f j (r ∷ rs) =
    ground
      (arith, find-retain f j rs, text_beq_iff r.file f, text_beq_iff r.file j, text_beq_iff f j)

-- The range of a segment after a push is the pushed one, and no other segment's range changes.
pub id_range_for_segment-push_segment_meta :
    (s : SegmentMeta) (m : TableManifestFile) (j : Text)
    → id_range_for_segment j (push_segment_meta s m)
      ≡ (if text_beq s.file j then some (s.min_id, s.max_id) else id_range_for_segment j m)
unfolding id_range_for_segment push_segment_meta upsert_range
id_range_for_segment-push_segment_meta s m j = ground (
  arith,
  find-append j m.segment_id_ranges
      (record { file = s.file; min_id = s.min_id; max_id = s.max_id }),
  find-update s.file j s.min_id s.max_id m.segment_id_ranges,
  text_beq_iff s.file j,
)

-- A removed segment has no range, and no other segment's range changes.
pub id_range_for_segment-remove_segment :
    (f : Text) (m : TableManifestFile) (j : Text)
    → id_range_for_segment j (remove_segment f m)
      ≡ (if text_beq f j then none else id_range_for_segment j m)
unfolding id_range_for_segment remove_segment
id_range_for_segment-remove_segment f m j = ground (arith, find-retain f j m.segment_id_ranges)

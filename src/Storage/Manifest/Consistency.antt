-- ===== src/Storage/Manifest/Consistency.antt =====
-- The three lists of a manifest name the same segments, each once.
use toradb.Prelude.{
  ℕ, ◌+◌, ◌≤◌, ◌≡◌, ◌∙◌, refl, inl, inr, true, false, not, Bool-cases, none, some, Option-cases,
  List, [], ◌∷◌, map, Text, text_beq, text_beq_iff, arith, if◌then◌else◌, text_eq, find, any,
  update_first, retain,
}
use mathlib.Core.List.{map-append}
use toradb.Collections.Keys.{
  count, contains, without, count-append, count-without, contains-append, contains_single,
}
use toradb.Storage.Manifest.Ranges.{not_in_empty}
use toradb.Storage.Manifest.{
  SegmentIdRange, SegmentMeta, TableManifestFile, default, range_named, meta_named, upsert_range,
  upsert_meta, push_once, push_segment_meta, push_segment, remove_segment, record_segment_id_range,
}

abbrev pub range_files : List SegmentIdRange → List Text
range_files = map (λ r. r.file)

abbrev pub meta_files : List SegmentMeta → List Text
meta_files = map (λ r. r.file)

-- The names in the list are distinct, and are segments.
pub record Lists (files segments : List Text) : Type 0 where
  pub once : (f : Text) → count f files ≤ 1
  pub known : (f : Text) → contains f files ≡ true → contains f segments ≡ true

pub record IsConsistent (m : TableManifestFile) : Type 0 where
  pub segments : (f : Text) → count f m.segments ≤ 1
  pub ranges : Lists (range_files m.segment_id_ranges) m.segments
  pub metas : Lists (meta_files m.segment_meta) m.segments

count-push_once :
    (f j : Text) (xs : List Text)
    → count j (push_once f xs)
      ≡ (if contains f xs then count j xs else count j xs + (if text_beq f j then 1 else 0))
unfolding count
count-push_once f j xs = ground (arith, count-append j xs (f ∷ []))

pub contains-push_once :
    (f j : Text) (xs : List Text)
    → contains j (push_once f xs) ≡ (if text_beq f j then true else contains j xs)
contains-push_once f j xs =
    ground (arith, contains-append j xs (f ∷ []), contains_single j f, text_beq_iff f j)

contains-without :
    (f j : Text) (xs : List Text)
    → contains j (without f xs) ≡ (if text_beq f j then false else contains j xs)
unfolding contains without
contains-without f j [] = ground arith
contains-without f j (x ∷ xs) =
    ground (arith, contains-without f j xs, text_beq_iff x f, text_beq_iff x j, text_beq_iff f j)

count_absent : (f : Text) (xs : List Text) → contains f xs ≡ false → count f xs ≡ 0
unfolding contains count
count_absent f [] h = refl
count_absent f (x ∷ xs) h = ground (arith, count_absent f xs)

push_once_once :
    (f : Text) (xs : List Text)
    → ((j : Text) → count j xs ≤ 1)
    → (j : Text) → count j (push_once f xs) ≤ 1
push_once_once f xs h j =
    ground (arith, count-push_once f j xs, h j, count_absent f xs, text_beq_iff f j)

Lists-push :
    (f : Text) (files segments : List Text)
    → Lists files segments
    → Lists (push_once f files) (push_once f segments)
Lists-push f files segments h = record {
  once = push_once_once f files h.once;
  known = λ j p.
      ground (arith, contains-push_once f j files, contains-push_once f j segments, h.known j);
}

Lists-weaken :
    (f : Text) (files segments : List Text)
    → Lists files segments
    → Lists files (push_once f segments)
Lists-weaken f files segments h = record {
  once = h.once;
  known = λ j p. ground (arith, contains-push_once f j segments, h.known j);
}

Lists-without :
    (f : Text) (files segments : List Text)
    → Lists files segments
    → Lists (without f files) (without f segments)
Lists-without f files segments h = record {
  once = λ j. ground (arith, count-without f j files, h.once j);
  known =
      λ j p. ground (arith, contains-without f j files, contains-without f j segments, h.known j);
}

-- What the operations do to the names of the ranges and of the metas.
range_find :
    (f : Text) (rs : List SegmentIdRange)
    → contains f (range_files rs) ≡ elim (find (range_named f) rs) [ none ↦ false | some _ ↦ true ]
unfolding find contains
range_find f [] = refl
range_find f (r ∷ rs) = ground (arith, range_find f rs)

range_files-update :
    (f : Text) (a b : ℕ) (rs : List SegmentIdRange)
    → range_files (update_first (range_named f) (λ r. record r { min_id = a; max_id = b }) rs)
      ≡ range_files rs
unfolding update_first
range_files-update f a b [] = refl
range_files-update f a b (r ∷ rs) = ground (arith, range_files-update f a b rs)

range_files-upsert :
    (f : Text) (a b : ℕ) (rs : List SegmentIdRange)
    → range_files (upsert_range f a b rs) ≡ push_once f (range_files rs)
unfolding upsert_range
range_files-upsert f a b rs = elim (Option-cases (find (range_named f) rs)) [
  | inl missing ↦
      let absent : contains f (range_files rs) ≡ false = range_find f rs ∙ ground arith in
      rw (missing, absent, upsert_range) (map-append _ rs _)
  | inr (r, found) ↦
      let present : contains f (range_files rs) ≡ true = range_find f rs ∙ ground arith in
      rw (found, present, upsert_range) (range_files-update f a b rs)
]

range_files-retain :
    (f : Text) (rs : List SegmentIdRange)
    → range_files (retain (λ r. not (text_beq r.file f)) rs) ≡ without f (range_files rs)
unfolding retain without
range_files-retain f [] = refl
range_files-retain f (r ∷ rs) = ground (arith, range_files-retain f rs)

meta_find :
    (f : Text) (rs : List SegmentMeta)
    → contains f (meta_files rs) ≡ elim (find (meta_named f) rs) [ none ↦ false | some _ ↦ true ]
unfolding find contains
meta_find f [] = refl
meta_find f (r ∷ rs) = ground (arith, meta_find f rs)

meta_files-update :
    (s : SegmentMeta) (rs : List SegmentMeta)
    → meta_files (update_first (meta_named s.file) (λ _. s) rs) ≡ meta_files rs
unfolding update_first
meta_files-update s [] = refl
meta_files-update s (r ∷ rs) = ground (arith, meta_files-update s rs, text_beq_iff r.file s.file)

meta_files-update_range :
    (f : Text) (a b : ℕ) (rs : List SegmentMeta)
    → meta_files (update_first (meta_named f) (λ r. record r { min_id = a; max_id = b }) rs)
      ≡ meta_files rs
unfolding update_first
meta_files-update_range f a b [] = refl
meta_files-update_range f a b (r ∷ rs) = ground (arith, meta_files-update_range f a b rs)

pub meta_files-upsert :
    (s : SegmentMeta) (rs : List SegmentMeta)
    → meta_files (upsert_meta s rs) ≡ push_once s.file (meta_files rs)
unfolding upsert_meta
meta_files-upsert s rs = elim (Option-cases (find (meta_named s.file) rs)) [
  | inl missing ↦
      let absent : contains s.file (meta_files rs) ≡ false = meta_find s.file rs ∙ ground arith in
      rw (missing, absent, upsert_meta) (map-append _ rs _)
  | inr (r, found) ↦
      let present : contains s.file (meta_files rs) ≡ true = meta_find s.file rs ∙ ground arith in
      rw (found, present, upsert_meta) (meta_files-update s rs)
]

pub meta_files-retain :
    (f : Text) (rs : List SegmentMeta)
    → meta_files (retain (λ r. not (text_beq r.file f)) rs) ≡ without f (meta_files rs)
unfolding retain without
meta_files-retain f [] = refl
meta_files-retain f (r ∷ rs) = ground (arith, meta_files-retain f rs)

pub segments-retain :
    (f : Text) (xs : List Text) → retain (λ s. not (text_beq s f)) xs ≡ without f xs
unfolding retain without
segments-retain f [] = refl
segments-retain f (x ∷ xs) = ground (arith, segments-retain f xs)

meta_any : (f : Text) (rs : List SegmentMeta) → any (meta_named f) rs ≡ contains f (meta_files rs)
unfolding any contains
meta_any f [] = refl
meta_any f (r ∷ rs) = ground (arith, meta_any f rs)

pub push_segment_meta-IsConsistent :
    (s : SegmentMeta) (m : TableManifestFile)
    → IsConsistent m
    → IsConsistent (push_segment_meta s m)
unfolding push_segment_meta
push_segment_meta-IsConsistent s m h = record {
  segments = push_once_once s.file m.segments h.segments;
  ranges =
      rw (range_files-upsert s.file s.min_id s.max_id m.segment_id_ranges)
        (Lists-push s.file _ _ h.ranges);
  metas = rw (meta_files-upsert s m.segment_meta) (Lists-push s.file _ _ h.metas);
}

pub push_segment-IsConsistent :
    (f : Text) (m : TableManifestFile) → IsConsistent m → IsConsistent (push_segment f m)
unfolding push_segment
push_segment-IsConsistent f m h = record {
  segments = push_once_once f m.segments h.segments;
  ranges = Lists-weaken f _ _ h.ranges;
  metas = elim (Bool-cases (contains f (meta_files m.segment_meta))) [
    | inl present ↦ rw (meta_any f m.segment_meta, present) (Lists-weaken f _ _ h.metas)
    | inr absent ↦
        rw (meta_any f m.segment_meta, absent)
          (rw map-append (rw absent at (Lists-push f _ _ h.metas)))
  ];
}

pub remove_segment-IsConsistent :
    (f : Text) (m : TableManifestFile) → IsConsistent m → IsConsistent (remove_segment f m)
unfolding remove_segment
remove_segment-IsConsistent f m h = record {
  segments = λ j.
      rw (segments-retain f m.segments)
        (ground (arith, count-without f j m.segments, h.segments j));
  ranges =
      rw (segments-retain f m.segments, range_files-retain f m.segment_id_ranges)
        (Lists-without f _ _ h.ranges);
  metas =
      rw (segments-retain f m.segments, meta_files-retain f m.segment_meta)
        (Lists-without f _ _ h.metas);
}

pub record_segment_id_range-IsConsistent :
    (f : Text) (a b : ℕ) (m : TableManifestFile)
    → contains f m.segments ≡ true
    → IsConsistent m
    → IsConsistent (record_segment_id_range f a b m)
unfolding record_segment_id_range
record_segment_id_range-IsConsistent f a b m there h = record {
  segments = h.segments;
  ranges =
      rw (range_files-upsert f a b m.segment_id_ranges)
        (rw there at (Lists-push f (range_files m.segment_id_ranges) m.segments h.ranges));
  metas = rw (meta_files-update_range f a b m.segment_meta) h.metas;
}

-- The changes that the storage engine makes to a manifest; a range is recorded for a known segment.
pub data Change : TableManifestFile → TableManifestFile → Type 0 where
  pushed : (s : SegmentMeta) (m : TableManifestFile) → Change m (push_segment_meta s m)
  pushed_name : (f : Text) (m : TableManifestFile) → Change m (push_segment f m)
  removed : (f : Text) (m : TableManifestFile) → Change m (remove_segment f m)
  ranged :
      (f : Text) (a b : ℕ) (m : TableManifestFile)
      → contains f m.segments ≡ true
      → Change m (record_segment_id_range f a b m)

pub data Reach : TableManifestFile → Type 0 where
  start : Reach default
  next : {m n : TableManifestFile} → Reach m → Change m n → Reach n

Change-IsConsistent : {m n : TableManifestFile} → Change m n → IsConsistent m → IsConsistent n
Change-IsConsistent (pushed s m) h = push_segment_meta-IsConsistent s m h
Change-IsConsistent (pushed_name f m) h = push_segment-IsConsistent f m h
Change-IsConsistent (removed f m) h = remove_segment-IsConsistent f m h
Change-IsConsistent (ranged f a b m there) h = record_segment_id_range-IsConsistent f a b m there h

-- A manifest that is built from the empty one by pushing, ranging and removing segments, a range
-- being recorded for a listed segment, lists every segment once and has at most one range and one
-- meta a segment, for listed segments alone.
pub Reach-IsConsistent : {m : TableManifestFile} → Reach m → IsConsistent m
Reach-IsConsistent start = record {
  segments = λ f. unfold count in omega arith;
  ranges = record {
    once = λ f. unfold count in omega arith;
    known = λ f h. absurd (not_in_empty f h);
  };
  metas = record {
    once = λ f. unfold count in omega arith;
    known = λ f h. absurd (not_in_empty f h);
  };
}
Reach-IsConsistent (next r c) = Change-IsConsistent c (Reach-IsConsistent r)

-- ===== src/Storage/Manifest/Ranges.antt =====
-- Which segments are read for an id.
use toradb.Prelude.{
  ℕ, ◌≤◌, ◌≡◌, refl, ◌⊎◌, inl, inr, true, false, Bool-cases, List, [], ◌∷◌, ◌++◌, Text,
  text_beq_iff, arith, leb, ◌&&◌, if◌then◌else◌, In, text_eq,
}
use toradb.Collections.Keys.{contains, contains-append, contains_single}
use toradb.Storage.Manifest.{
  SegmentIdRange, TableManifestFile, files_with_id, files_with_ids, segments_for_ids, is_empty,
}

abbrev pub Covers : SegmentIdRange → ℕ → Type 0
Covers r id = (r.min_id ≤ id) × (id ≤ r.max_id)

abbrev next_out : ℕ → SegmentIdRange → List Text → List Text
next_out id r out =
    if leb r.min_id id && leb id r.max_id
    then (if contains r.file out then out else out ++ r.file ∷ [])
    else out

next_out_keeps :
    (f : Text) (id : ℕ) (r : SegmentIdRange) (out : List Text)
    → contains f out ≡ true
    → contains f (next_out id r out) ≡ true
next_out_keeps f id r out h = ground (arith, contains-append f out (r.file ∷ []))

next_out_adds :
    (id : ℕ) (r : SegmentIdRange) (out : List Text)
    → Covers r id
    → contains r.file (next_out id r out) ≡ true
next_out_adds id r out h = ground (
  arith,
  contains-append r.file out (r.file ∷ []),
  contains_single r.file r.file,
  text_beq_iff r.file r.file,
)

next_out_sound :
    (f : Text) (id : ℕ) (r : SegmentIdRange) (out : List Text)
    → contains f (next_out id r out) ≡ true
    → (contains f out ≡ true) ⊎ ((r.file ≡ f) × Covers r id)
next_out_sound f id r out h =
    ground
      (arith, contains-append f out (r.file ∷ []), contains_single f r.file, text_beq_iff r.file f)

files_with_id_keeps :
    (f : Text) (id : ℕ) (ranges : List SegmentIdRange) (out : List Text)
    → contains f out ≡ true
    → contains f (files_with_id id ranges out) ≡ true
unfolding files_with_id
files_with_id_keeps f id [] out h = h
files_with_id_keeps f id (r ∷ ranges) out h =
    files_with_id_keeps f id ranges (next_out id r out) (next_out_keeps f id r out h)

files_with_id_complete :
    (r : SegmentIdRange) (id : ℕ) (ranges : List SegmentIdRange) (out : List Text)
    → In r ranges
    → Covers r id
    → contains r.file (files_with_id id ranges out) ≡ true
unfolding files_with_id
files_with_id_complete r id [] out h c = elim h [ ]
files_with_id_complete r id (q ∷ ranges) out (inl e) c =
    files_with_id_keeps r.file id ranges (next_out id q out) (rw e (next_out_adds id r out c))
files_with_id_complete r id (q ∷ ranges) out (inr h) c =
    files_with_id_complete r id ranges (next_out id q out) h c

-- A range of the list that covers an id of the list, with its file.
abbrev pub Wanted : Text → List ℕ → List SegmentIdRange → Type 0
Wanted f ids ranges =
    (id : ℕ) × (r : SegmentIdRange) × In id ids × In r ranges × (r.file ≡ f) × Covers r id

files_with_id_sound :
    (f : Text) (id : ℕ) (ranges : List SegmentIdRange) (out : List Text)
    → contains f (files_with_id id ranges out) ≡ true
    → (contains f out ≡ true) ⊎ ((r : SegmentIdRange) × In r ranges × (r.file ≡ f) × Covers r id)
unfolding files_with_id
files_with_id_sound f id [] out h = inl h
files_with_id_sound f id (q ∷ ranges) out h =
    elim (files_with_id_sound f id ranges (next_out id q out) h) [
      | inr (r, m, e, c) ↦ inr (r, inr m, e, c)
      | inl before ↦ elim (next_out_sound f id q out before) [
        | inl old ↦ inl old
        | inr (e, c) ↦ inr (q, inl refl, e, c)
      ]
    ]

files_with_ids_keeps :
    (f : Text) (ids : List ℕ) (ranges : List SegmentIdRange) (out : List Text)
    → contains f out ≡ true
    → contains f (files_with_ids ids ranges out) ≡ true
unfolding files_with_ids
files_with_ids_keeps f [] ranges out h = h
files_with_ids_keeps f (id ∷ ids) ranges out h =
    files_with_ids_keeps f ids ranges (files_with_id id ranges out)
      (files_with_id_keeps f id ranges out h)

files_with_ids_complete :
    (r : SegmentIdRange) (id : ℕ) (ids : List ℕ) (ranges : List SegmentIdRange) (out : List Text)
    → In id ids
    → In r ranges
    → Covers r id
    → contains r.file (files_with_ids ids ranges out) ≡ true
unfolding files_with_ids
files_with_ids_complete r id [] ranges out h m c = elim h [ ]
files_with_ids_complete r id (j ∷ ids) ranges out (inl e) m c =
    files_with_ids_keeps r.file ids ranges (files_with_id j ranges out)
      (rw e (files_with_id_complete r id ranges out m c))
files_with_ids_complete r id (j ∷ ids) ranges out (inr h) m c =
    files_with_ids_complete r id ids ranges (files_with_id j ranges out) h m c

files_with_ids_sound :
    (f : Text) (ids : List ℕ) (ranges : List SegmentIdRange) (out : List Text)
    → contains f (files_with_ids ids ranges out) ≡ true
    → (contains f out ≡ true) ⊎ Wanted f ids ranges
unfolding files_with_ids
files_with_ids_sound f [] ranges out h = inl h
files_with_ids_sound f (j ∷ ids) ranges out h =
    elim (files_with_ids_sound f ids ranges (files_with_id j ranges out) h) [
      | inr (id, r, i, m, e, c) ↦ inr (id, r, inr i, m, e, c)
      | inl before ↦ elim (files_with_id_sound f j ranges out before) [
        | inl old ↦ inl old
        | inr (r, m, e, c) ↦ inr (j, r, inl refl, m, e, c)
      ]
    ]

is_empty-contains : (f : Text) (xs : List Text) → contains f xs ≡ true → is_empty xs ≡ false
unfolding contains
is_empty-contains f [] h = cc
is_empty-contains f (x ∷ xs) h = refl

pub not_in_empty : (f : Text) → contains f [] ≡ true → ⊥
unfolding contains
not_in_empty f h = cc

is_empty-In :
    (r : SegmentIdRange) (ranges : List SegmentIdRange) → In r ranges → is_empty ranges ≡ false
is_empty-In r [] h = elim h [ ]
is_empty-In r (q ∷ ranges) h = refl

-- Every segment whose recorded range covers one of the ids is among the segments to read.
pub segments_for_ids_complete :
    (ids : List ℕ) (m : TableManifestFile) (id : ℕ) (r : SegmentIdRange)
    → In id ids
    → In r m.segment_id_ranges
    → Covers r id
    → contains r.file (segments_for_ids ids m) ≡ true
unfolding segments_for_ids
segments_for_ids_complete ids m id r i mem c =
    let found = files_with_ids_complete r id ids m.segment_id_ranges [] i mem c in
    rw (is_empty-In r m.segment_id_ranges mem, is_empty-contains r.file _ found) found

-- The segments to read are all of the manifest's, or each is the file of a range that covers one of
-- the ids.
pub segments_for_ids_sound :
    (ids : List ℕ) (m : TableManifestFile)
    → (segments_for_ids ids m ≡ m.segments)
      ⊎ ((f : Text) → contains f (segments_for_ids ids m) ≡ true → Wanted f ids m.segment_id_ranges)
unfolding segments_for_ids
segments_for_ids_sound ids m = elim (Bool-cases (is_empty m.segment_id_ranges)) [
  | inl no_ranges ↦ rw no_ranges (inl refl)
  | inr ranges ↦ elim (Bool-cases (is_empty (files_with_ids ids m.segment_id_ranges []))) [
    | inl no_files ↦ rw (ranges, no_files) (inl refl)
    | inr files ↦
        rw (ranges, files)
          (inr λ f h. elim (files_with_ids_sound f ids m.segment_id_ranges [] h) [
            | inl before ↦ absurd (not_in_empty f before)
            | inr wanted ↦ wanted
          ])
  ]
]

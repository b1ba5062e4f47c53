-- ===== src/Storage/Manifest/Persistence.antt =====
-- A manifest through `save` and `load`, and the numbering of generations.
use toradb.Prelude.{
  ℕ, ◌+◌, ◌≤◌, ◌<◌, ◌^◌, ◌≡◌, ◌∙◌, refl, sym, ap, inl, inr, true, false, Bool-cases, List, [], ◌∷◌,
  map, Text, arith, Result, ok, max_or, In, if◌then◌else◌,
}
use toradb.Storage.Manifest.{
  SegmentIdRange, SegmentMeta, TableManifestFile, is_empty, saved, load, next_generation,
  migrated_meta, upgraded,
}
use toradb.Storage.Manifest.Consistency.{meta_files}
use toradb.Storage.Manifest.Saving.{saved-segment_meta}

migrated_files :
    (byte_size : Text → ℕ) (now : ℕ) (ranges : List SegmentIdRange) (names : List Text)
    → meta_files (map (migrated_meta byte_size now ranges) names) ≡ names
unfolding migrated_meta
migrated_files byte_size now ranges [] = refl
migrated_files byte_size now ranges (n ∷ names) =
    ground (arith, migrated_files byte_size now ranges names)

is_empty-nil {ℓ} : {A : Type ℓ} (xs : List A) → is_empty xs ≡ true → xs ≡ []
is_empty-nil [] h = refl
is_empty-nil (x ∷ xs) h = cc

module _ (byte_size : Text → ℕ) (now : ℕ) where
  upgraded_types :
      (m : TableManifestFile) → (upgraded byte_size now m).column_types ≡ m.column_types
  unfolding upgraded
  upgraded_types m = ground arith

  upgraded_segments : (m : TableManifestFile) → (upgraded byte_size now m).segments ≡ m.segments
  unfolding upgraded
  upgraded_segments m = ground arith

  upgraded_metas :
      (m : TableManifestFile)
      → is_empty m.segment_meta ≡ false
      → (upgraded byte_size now m).segment_meta ≡ m.segment_meta
  unfolding upgraded
  upgraded_metas m h = ground arith

  -- A manifest without metas gets one for each segment; any other stays as it is.
  upgraded_files :
      (m : TableManifestFile)
      → (is_empty m.segment_meta ≡ false → meta_files m.segment_meta ≡ m.segments)
      → meta_files (upgraded byte_size now m).segment_meta ≡ (upgraded byte_size now m).segments
  unfolding upgraded
  upgraded_files m synced = elim (Bool-cases (is_empty m.segment_meta)) [
    | inr metas ↦ rw metas (synced metas)
    | inl none_yet ↦ elim (Bool-cases (is_empty m.segments)) [
      | inr some_left ↦
          rw (none_yet, some_left) (migrated_files byte_size now m.segment_id_ranges m.segments)
      | inl nothing ↦
          rw (none_yet, nothing)
            (ap meta_files (is_empty-nil m.segment_meta none_yet)
              ∙ sym (is_empty-nil m.segments nothing))
    ]
  ]

saved_types : (m : TableManifestFile) → (saved m).column_types ≡ m.column_types
unfolding saved
saved_types m = ground arith

saved_segments :
    (m : TableManifestFile)
    → (saved m).segments
      ≡ (if is_empty m.segment_meta then m.segments else meta_files m.segment_meta)
unfolding saved
saved_segments m = ground arith

saved_files :
    (m : TableManifestFile)
    → is_empty m.segment_meta ≡ false
    → meta_files m.segment_meta ≡ (saved m).segments
unfolding saved
saved_files m h = ground arith

-- A manifest is written and read again, where the JSON parser reads back every manifest that the
-- printer wrote: the segments that are loaded are those that the metas name, in order, or those of
-- the manifest itself where it has no metas; the metas are those saved where there are some; they
-- name exactly the segments, in order, whether they were saved or had to be migrated; and the
-- column types are those saved.
pub load-saved :
    {J : Type 0} (to_str : TableManifestFile → J) (from_str : J → Result TableManifestFile)
    (byte_size : Text → ℕ) (now : ℕ) (m : TableManifestFile)
    → ((n : TableManifestFile) → from_str (to_str n) ≡ ok n)
    → (n : TableManifestFile) × (load from_str byte_size now (to_str (saved m)) ≡ ok n)
      × (n.segments ≡ (if is_empty m.segment_meta then m.segments else meta_files m.segment_meta))
      × (meta_files n.segment_meta ≡ n.segments)
      × (is_empty m.segment_meta ≡ false → n.segment_meta ≡ m.segment_meta)
      × (n.column_types ≡ m.column_types)
unfolding load
load-saved to_str from_str byte_size now m json = rw (json (saved m)) (
  upgraded byte_size now (saved m),
  refl,
  upgraded_segments byte_size now (saved m) ∙ saved_segments m,
  upgraded_files byte_size now (saved m) (λ metas.
      ap meta_files (saved-segment_meta m)
      ∙ saved_files m (sym (ap is_empty (saved-segment_meta m)) ∙ metas)),
  λ some_metas.
      upgraded_metas byte_size now (saved m) (ap is_empty (saved-segment_meta m) ∙ some_metas)
      ∙ saved-segment_meta m,
  upgraded_types byte_size now (saved m) ∙ saved_types m,
)

max_or-le :
    (metas : List SegmentMeta) (s : SegmentMeta)
    → In s metas
    → s.generation ≤ max_or 0 (map (λ t. t.generation) metas)
unfolding max_or
max_or-le [] s h = elim h [ ]
max_or-le (t ∷ []) s (inl e) = omega (arith, ap (λ (q : SegmentMeta). q.generation) e)
max_or-le (t ∷ []) s (inr h) = elim h [ ]
max_or-le (t ∷ u ∷ metas) s (inl e) = omega (arith, ap (λ (q : SegmentMeta). q.generation) e)
max_or-le (t ∷ u ∷ metas) s (inr h) = omega (arith, max_or-le (u ∷ metas) s h)

-- While the 32-bit counter does not overflow, the next generation is above that of every segment
-- of the manifest.
pub next_generation_fresh :
    (m : TableManifestFile) (s : SegmentMeta)
    → In s m.segment_meta
    → max_or 0 (map (λ t. t.generation) m.segment_meta) + 1 < 2 ^ 32
    → s.generation < next_generation m
unfolding next_generation
next_generation_fresh m s h small = omega (arith, max_or-le m.segment_meta s h)

-- ===== src/Storage/Manifest/Members.antt =====
-- Which segments a manifest lists after a change.
use toradb.Prelude.{
  ◌≡◌, refl, ◌∙◌, inl, inr, ◌⊎◌, Bool, true, not, Bool-cases, List, [], ◌∷◌, Text, text_beq,
  text_beq_iff, text_eq, retain, arith,
}
use toradb.Collections.Keys.{contains, contains-append, contains_single}
use toradb.Storage.Manifest.Consistency.{contains-push_once}
use toradb.Storage.Manifest.{TableManifestFile, SegmentMeta, push_segment_meta, remove_segment}

retained_is_old :
    (p : Text → Bool) (f : Text) (xs : List Text)
    → contains f (retain p xs) ≡ true
    → contains f xs ≡ true
unfolding contains retain
retained_is_old p f [] h = h
retained_is_old p f (x ∷ xs) h = elim (Bool-cases (p x)) [
  | inl e ↦ ground (arith, e, retained_is_old p f xs)
  | inr e ↦ ground (arith, e, retained_is_old p f xs)
]

old_is_retained :
    (old f : Text) (xs : List Text)
    → contains f xs ≡ true
    → (contains f (retain (λ s. not (text_beq s old)) xs) ≡ true) ⊎ (text_beq old f ≡ true)
unfolding contains retain
old_is_retained old f [] h = inl h
old_is_retained old f (x ∷ xs) h =
    ground
      (arith, old_is_retained old f xs, text_beq_iff x old, text_beq_iff x f, text_beq_iff old f)

pub remove_segment_keeps :
    (old f : Text) (m : TableManifestFile)
    → contains f (remove_segment old m).segments ≡ true
    → contains f m.segments ≡ true
unfolding remove_segment
remove_segment_keeps old f m h = retained_is_old (λ s. not (text_beq s old)) f m.segments h

pub remove_segment_leaves :
    (old f : Text) (m : TableManifestFile)
    → contains f m.segments ≡ true
    → (contains f (remove_segment old m).segments ≡ true) ⊎ (text_beq old f ≡ true)
unfolding remove_segment
remove_segment_leaves old f m h = old_is_retained old f m.segments h

pub push_segment_meta_keeps :
    (s : SegmentMeta) (f : Text) (m : TableManifestFile)
    → contains f m.segments ≡ true
    → contains f (push_segment_meta s m).segments ≡ true
unfolding push_segment_meta
push_segment_meta_keeps s f m h = ground (arith, contains-append f m.segments (s.file ∷ []))

pub push_segment_meta_adds :
    (s : SegmentMeta) (f : Text) (m : TableManifestFile)
    → contains f (push_segment_meta s m).segments ≡ true
    → (contains f m.segments ≡ true) ⊎ (text_beq s.file f ≡ true)
unfolding push_segment_meta
push_segment_meta_adds s f m h =
    ground (arith, contains-append f m.segments (s.file ∷ []), contains_single f s.file)

pub push_segment_meta_lists :
    (s : SegmentMeta) (f : Text) (m : TableManifestFile)
    → text_beq s.file f ≡ true
    → contains f (push_segment_meta s m).segments ≡ true
unfolding push_segment_meta
push_segment_meta_lists s f m h = contains-push_once s.file f m.segments ∙ rw h refl

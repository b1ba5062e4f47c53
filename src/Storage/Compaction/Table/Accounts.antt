-- ===== src/Storage/Compaction/Table/Accounts.antt =====
-- The manifest after a compaction, and the report.
use toradb.Prelude.{
  ℕ, ◌≡◌, ◌≢◌, refl, sym, ap, ◌∙◌, text_beq, text_beq_iff, length-append, inl, inr, ◌⊎◌, true, not,
  ◌&&◌, ◌||◌, Bool-cases, Option, none, some, Option-cases, List, [], ◌∷◌, ◌++◌, map, ltb, Text,
  text_eq, length, find, Result, ok, err, Result-cases, arith,
}
use mathlib.Core.Path.{subst}
use toradb.Collections.Keys.{contains, contains-append, contains_single}
use toradb.Storage.Manifest.{TableManifestFile, SegmentMeta, next_generation, saved}
use toradb.Storage.Manifest.Ranges.{not_in_empty}
use toradb.Storage.Manifest.Consistency.{
  IsConsistent, meta_files, remove_segment-IsConsistent, push_segment_meta-IsConsistent,
}
use toradb.Storage.Manifest.Members.{
  remove_segment_keeps, remove_segment_leaves, push_segment_meta_keeps, push_segment_meta_adds,
  push_segment_meta_lists,
}
use toradb.Storage.Compaction.Policy.{CompactMode, CompactPolicy, should_compact_tiered}
use toradb.Storage.Compaction.Scores.{Float}
use toradb.Storage.Compaction.Names.{next_segment_name}
use toradb.Storage.Compaction.Pick.{MergeGroup, group_of, is_auto, pick_merge_candidates}
use toradb.Storage.Compaction.Merge.{Merged, Attempt, went_on, failed, merge_segments_streaming}
use toradb.Storage.Manifest.Saving.{
  HasMetas, remove_segment-HasMetas, push_segment_meta-HasMetas, saved-segment_meta, saved-segments,
  saved-IsConsistent,
}
use toradb.Storage.Compaction.Table.{
  CompactReport, System, Compacting, Compacted, reclaimed_by, removed_from, drop_sources, new_meta,
  added_to, finish_group, merge_group, merge_groups, conclude, concluded, unchanged, compact_groups,
  compact_table_segments, empty_report,
}

-- A manifest is consistent, with a meta of each segment, and its segments are those of an older one,
-- less those that a report calls removed, and with those that it calls added.
pub record Accounts (old new : TableManifestFile) (r : CompactReport) : Type 0 where
  pub consistent : IsConsistent new
  pub metas : HasMetas new
  pub nothing_new :
      (f : Text)
      → contains f new.segments ≡ true
      → (contains f old.segments ≡ true) ⊎ (contains f r.added ≡ true)
  pub nothing_lost :
      (f : Text)
      → contains f old.segments ≡ true
      → (contains f new.segments ≡ true) ⊎ (contains f r.removed ≡ true)
  pub added_listed :
      (f : Text)
      → contains f r.added ≡ true
      → (contains f new.segments ≡ true) ⊎ (contains f r.removed ≡ true)
  pub counted : r.merges ≡ length r.added

-- Nothing is removed for nothing.
abbrev pub Replaced : CompactReport → Type 0
Replaced r = r.added ≡ [] → r.removed ≡ []

-- What holds of a run when it ends well.
abbrev pub Ends : {A : Type 0} → (A → Type 0) → Option (Result A) → Type 0
Ends P none = Unit {0}
Ends P (some (err e)) = Unit {0}
Ends P (some (ok a)) = P a

abbrev Kept : TableManifestFile → Compacting → Type 0
Kept m c = Accounts m c.manifest c.report

abbrev Held : TableManifestFile → Compacting → Type 0
Held m c = Kept m c × Replaced c.report

-- A segment that is listed or removed is so when one more is removed.
still_known :
    (old f : Text) (c : Compacting)
    → (contains f c.manifest.segments ≡ true) ⊎ (contains f c.report.removed ≡ true)
    → (contains f (removed_from old c).manifest.segments ≡ true)
      ⊎ (contains f (removed_from old c).report.removed ≡ true)
still_known old f c (inr gone) =
    inr (contains-append f c.report.removed (old ∷ []) ∙ ground (arith, gone))
still_known old f c (inl there) = elim (remove_segment_leaves old f c.manifest there) [
  | inl still ↦ inl still
  | inr same ↦
      inr (
        contains-append f c.report.removed (old ∷ []) ∙ ground (arith, same, contains_single f old))
]

removed_from-Kept :
    (m : TableManifestFile) (old : Text) (c : Compacting) → Kept m c → Kept m (removed_from old c)
removed_from-Kept m old c h = record {
  consistent = remove_segment-IsConsistent old c.manifest h.consistent;
  metas = remove_segment-HasMetas old c.manifest h.metas;
  nothing_new = λ f e. h.nothing_new f (remove_segment_keeps old f c.manifest e);
  nothing_lost = λ f e. still_known old f c (h.nothing_lost f e);
  added_listed = λ f e. still_known old f c (h.added_listed f e);
  counted = h.counted;
}

append_one : {A : Type 0} (xs : List A) (x : A) → xs ++ x ∷ [] ≢ []
append_one [] x e = ground arith
append_one (y ∷ xs) x e = ground arith

module _ {C : Type 0} {D : Type 0} (sys : System C D) (p : CompactPolicy) where
  added_to-Kept :
      (m : TableManifestFile) (s : SegmentMeta) (c : Compacting)
      → Kept m c
      → Kept m (added_to sys p s c)
  added_to-Kept m s c h = record {
    consistent = push_segment_meta-IsConsistent s c.manifest h.consistent;
    metas = push_segment_meta-HasMetas s c.manifest h.metas;
    nothing_new = λ f e. elim (push_segment_meta_adds s f c.manifest e) [
      | inr same ↦ inr (
          contains-append f c.report.added (s.file ∷ [])
          ∙ ground (arith, same, contains_single f s.file))
      | inl there ↦ elim (h.nothing_new f there) [
        | inl old ↦ inl old
        | inr new ↦ inr (contains-append f c.report.added (s.file ∷ []) ∙ ground (arith, new))
      ]
    ];
    nothing_lost = λ f e. elim (h.nothing_lost f e) [
      | inl there ↦ inl (push_segment_meta_keeps s f c.manifest there)
      | inr gone ↦ inr gone
    ];
    added_listed = λ f e. elim (Bool-cases (text_beq s.file f)) [
      | inl same ↦ inl (push_segment_meta_lists s f c.manifest same)
      | inr other ↦
          let before : contains f c.report.added ≡ true = ground (
            arith,
            e,
            other,
            contains-append f c.report.added (s.file ∷ []),
            contains_single f s.file,
            text_beq_iff s.file f,
          ) in
          elim (h.added_listed f before) [
            | inl there ↦ inl (push_segment_meta_keeps s f c.manifest there)
            | inr gone ↦ inr gone
          ]
    ];
    counted = omega (arith, h.counted, length-append c.report.added (s.file ∷ []));
  }

  added_to-Held :
      (m : TableManifestFile) (s : SegmentMeta) (c : Compacting)
      → Kept m c
      → Held m (added_to sys p s c)
  added_to-Held m s c h = (added_to-Kept m s c h, λ e. absurd (append_one c.report.added s.file e))

  drop_sources-Kept :
      (m : TableManifestFile) (olds : List Text) (c : Compacting)
      → Kept m c
      → Ends (Kept m) (some (drop_sources sys p olds c))
  unfolding drop_sources
  drop_sources-Kept m [] c h = h
  drop_sources-Kept m (old ∷ olds) c h = elim (Option-cases (sys.delete old)) [
    | inr (e, k) ↦ rw (k, drop_sources) tt
    | inl k ↦
        rw (k, drop_sources)
          (drop_sources-Kept m olds (removed_from old c) (removed_from-Kept m old c h))
  ]

  finish_group-Held :
      (m : TableManifestFile) (g : MergeGroup) (name : Text) (c : Compacting)
      (done : Option (Attempt (Merged D)))
      → Held m c
      → Ends (Held m) (finish_group sys p g name c done)
  unfolding finish_group
  finish_group-Held m g name c none h = tt
  finish_group-Held m g name c (some (failed e gone)) h = tt
  finish_group-Held m g name c (some (went_on w)) h =
      let s = new_meta sys p name (next_generation c.manifest) g w in
      elim (Result-cases (drop_sources sys p g.segments c)) [
        | inr (e, k) ↦ rw (k, finish_group) tt
        | inl (c', k) ↦
            rw (k, finish_group)
              (added_to-Held m s c' (
                subst (λ (r : Result Compacting). Ends (Kept m) (some r)) k
                  (drop_sources-Kept m g.segments c (h.0))))
      ]

  merge_group-Held :
      (m : TableManifestFile) (fuel : ℕ) (deleted : List ℕ) (g : MergeGroup) (c : Compacting)
      → Held m c
      → Ends (Held m) (merge_group sys p fuel deleted g c)
  unfolding merge_group
  merge_group-Held m fuel deleted g c h = elim (Bool-cases (ltb (length g.segments) 2)) [
    | inl e ↦ rw (e, merge_group) h
    | inr e ↦ elim (Option-cases (find (λ s. not (sys.exists s)) g.segments)) [
      | inr (s, k) ↦ rw (e, k, merge_group) tt
      | inl k ↦
          let name = next_segment_name c.manifest in
          let more = reclaimed_by c.manifest g.segments deleted in
          rw (e, k, merge_group)
            (finish_group-Held m g name (record c { reclaimed = c.reclaimed ++ more })
              (merge_segments_streaming (sys.merging name) deleted fuel g.segments) h)
    ]
  ]

  merge_groups-Held :
      (m : TableManifestFile) (fuel : ℕ) (deleted : List ℕ) (gs : List MergeGroup) (c : Compacting)
      → Held m c
      → Ends (Held m) (merge_groups sys p fuel deleted gs c)
  unfolding merge_groups
  merge_groups-Held m fuel deleted [] c h = h
  merge_groups-Held m fuel deleted (g ∷ gs) c h =
      let this = merge_group-Held m fuel deleted g c h in
      elim (Option-cases (merge_group sys p fuel deleted g c)) [
        | inl k ↦ rw (k, merge_groups) tt
        | inr (err e, k) ↦ rw (k, merge_groups) tt
        | inr (ok c', k) ↦
            rw (k, merge_groups)
              (merge_groups-Held m fuel deleted gs c'
                (subst (λ (r : Option (Result Compacting)). Ends (Held m) r) k this))
      ]

  abbrev Settled : TableManifestFile → Compacted → Type 0
  Settled m r = Accounts m r.manifest r.report × Replaced r.report

  -- What `save` writes lists the same segments.
  saved-Accounts :
      (m : TableManifestFile) (n : ℕ) (c : Compacting)
      → Kept m c
      → Accounts m (saved c.manifest) (record c.report { segments_after = n })
  saved-Accounts m n c h =
      let same = saved-segments c.manifest h.metas in
      record {
        consistent = saved-IsConsistent c.manifest h.metas h.consistent;
        metas = ap meta_files (saved-segment_meta c.manifest) ∙ h.metas ∙ sym same;
        nothing_new = rw same h.nothing_new;
        nothing_lost = rw same h.nothing_lost;
        added_listed = rw same h.added_listed;
        counted = h.counted;
      }

  conclude-Settled :
      (m : TableManifestFile) (deleted : List ℕ) (c : Compacting)
      → Held m c
      → Ends (Settled m) (some (conclude sys p deleted c))
  unfolding conclude
  conclude-Settled m deleted c h = elim (Option-cases (sys.save (saved c.manifest))) [
    | inr (e, k) ↦ rw (k, conclude) tt
    | inl k ↦ rw (k, conclude) (saved-Accounts m (length c.manifest.segments) c (h.0), h.1)
  ]

  concluded-Settled :
      (m : TableManifestFile) (deleted : List ℕ) (c : Option (Result Compacting))
      → Ends (Held m) c
      → Ends (Settled m) (concluded sys p deleted c)
  concluded-Settled m deleted none h = tt
  concluded-Settled m deleted (some (err e)) h = tt
  concluded-Settled m deleted (some (ok c)) h = conclude-Settled m deleted c h

  -- A report of nothing.
  fresh :
      (m : TableManifestFile) (r : CompactReport)
      → IsConsistent m
      → HasMetas m
      → r.added ≡ []
      → r.merges ≡ 0
      → Accounts m m r
  fresh m r h k no_added no_merges = record {
    consistent = h;
    metas = k;
    nothing_new = λ f e. inl e;
    nothing_lost = λ f e. inl e;
    added_listed = λ f e. absurd (not_in_empty f (ap (contains f) (sym no_added) ∙ e));
    counted = no_merges ∙ sym (ap (λ (fs : List Text). length fs) no_added);
  }

  unchanged-Settled :
      (m : TableManifestFile) (deleted : List ℕ)
      → IsConsistent m
      → HasMetas m
      → Settled m (unchanged sys p m deleted)
  unchanged-Settled m deleted h k =
      (fresh m (unchanged sys p m deleted).report h k refl refl, λ e. refl)

  compact_groups-Settled :
      (fuel : ℕ) (m : TableManifestFile) (deleted : List ℕ) (gs : List MergeGroup)
      → IsConsistent m
      → HasMetas m
      → Ends (Settled m) (compact_groups sys p fuel m deleted gs)
  unfolding compact_groups
  compact_groups-Settled fuel m deleted [] h k = unchanged-Settled m deleted h k
  compact_groups-Settled fuel m deleted (g ∷ gs) h k =
      let c : Compacting = record {
        manifest = m;
        report = record empty_report { segments_before = length m.segments };
        reclaimed = [];
      } in
      concluded-Settled m deleted (merge_groups sys p fuel deleted (g ∷ gs) c)
        (merge_groups-Held m fuel deleted (g ∷ gs) c (fresh m c.report h k refl refl, λ e. refl))

  compact_table_segments-Settled :
      {F : Type 0} (fl : Float F) (fuel : ℕ) (mode : CompactMode) (m : TableManifestFile)
      (deleted : List ℕ)
      → IsConsistent m
      → HasMetas m
      → Ends (Settled m) (compact_table_segments sys p fl fuel mode m deleted)
  unfolding compact_table_segments
  compact_table_segments-Settled fl fuel mode m deleted h metas =
      elim (Bool-cases (
        ltb (length m.segments) 2
        || (is_auto fl p mode && not (should_compact_tiered sys.size p m)))) [
          | inl e ↦ rw (e, compact_table_segments) (unchanged-Settled m deleted h metas)
          | inr e ↦ elim (Option-cases (pick_merge_candidates fl p sys.size mode m)) [
            | inl k ↦ rw (e, k, compact_table_segments) tt
            | inr (cs, k) ↦
                rw (e, k, compact_table_segments)
                  (compact_groups-Settled fuel m deleted (map group_of cs) h metas)
          ]
        ]

  -- When a table is compacted without an error, from a consistent manifest whose metas name its
  -- segments in order, as a loaded one does: the manifest as `save` writes it, or the one given
  -- where none is written, is consistent and its metas name its segments in order; every segment
  -- it lists was listed before or is reported as added, every segment that was listed before or is
  -- reported as added is listed or is reported as removed, there are as many merges as segments
  -- that are reported as added, and where none is so reported none is removed.
  pub compact_table_segments-Accounts :
      {F : Type 0} (fl : Float F) (fuel : ℕ) (mode : CompactMode) (m : TableManifestFile)
      (deleted : List ℕ) (r : Compacted)
      → IsConsistent m
      → HasMetas m
      → compact_table_segments sys p fl fuel mode m deleted ≡ some (ok r)
      → Accounts m r.manifest r.report × Replaced r.report
  compact_table_segments-Accounts fl fuel mode m deleted r h metas e =
      subst (λ (a : Option (Result Compacted)). Ends (Settled m) a) e
        (compact_table_segments-Settled fl fuel mode m deleted h metas)

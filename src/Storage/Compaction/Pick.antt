-- ===== src/Storage/Compaction/Pick.antt =====
-- Which segments are merged. `none` is a panic: of a score, or of pieces of no segments.
pub mod Groups
mod Tests
use toradb.Prelude.{
  ℕ, zero, suc, ◌+◌, max, Bool, true, false, not, ◌&&◌, Option, none, some, List, [], ◌∷◌, ◌++◌,
  map, ltb, leb, ◌==◌, if◌then◌else◌, Text, text_beq, length, take, retain, filter_map, find,
  max_or, sort, chunks,
}
use toradb.Storage.Manifest.{TableManifestFile, SegmentMeta}
use toradb.Storage.Compaction.Policy.{
  CompactMode, CompactPolicy, segment_size, tier_is, tiers, output_tier,
}
use toradb.Storage.Compaction.Scores.{Float, group_score}

pub record MergeGroup : Type 0 where
  pub segments : List Text
  pub input_tier : ℕ
  pub output_tier : ℕ

pub record MergeCandidate (F : Type 0) : Type 0 where
  pub group : MergeGroup
  pub score : F

abbrev pub file_of : SegmentMeta → Text
file_of s = s.file

abbrev pub group_of : {F : Type 0} → MergeCandidate F → MergeGroup
group_of c = c.group

-- `sort_by_key(|m| m.created_at)`
abbrev pub created_after : SegmentMeta → SegmentMeta → Bool
created_after a b = ltb b.created_at a.created_at

-- One candidate in front of those of a later step, or a panic.
abbrev pub put_first {ℓ} : {A : Type ℓ} → Option A → Option (List A) → Option (List A)
put_first none rest = none
put_first (some c) none = none
put_first (some c) (some rest) = some (c ∷ rest)

abbrev pub both_lists {ℓ} : {A : Type ℓ} → Option (List A) → Option (List A) → Option (List A)
both_lists none ys = none
both_lists (some xs) none = none
both_lists (some xs) (some ys) = some (xs ++ ys)

abbrev pub small_group : {F : Type 0} → List Text → F → MergeCandidate F
small_group segments score = record {
  group = record { segments = segments; input_tier = 0; output_tier = 1 };
  score = score;
}

module _ {F : Type 0} (fl : Float F) (p : CompactPolicy) where
  pub candidate_at : ℕ → List SegmentMeta → Option (MergeCandidate F)
  candidate_at tier chunk = elim (group_score fl chunk p.tier) [
    | none ↦ none
    | some score ↦ some (record {
      group = record {
        segments = map file_of chunk;
        input_tier = tier;
        output_tier = output_tier tier;
      };
      score = score;
    })
  ]

  -- The loop over the pieces of a tier: those that are full.
  pub full_pieces : ℕ → List (List SegmentMeta) → Option (List (MergeCandidate F))
  unfolding candidate_at
  full_pieces tier [] = some []
  full_pieces tier (chunk ∷ rest) =
      let later = full_pieces tier rest in
      let this = candidate_at tier chunk in
      if length chunk == p.tier.tier_merge_threshold then put_first this later else later

  -- The loop over the tiers. `chunks(0)` panics.
  pub tier_candidates : List SegmentMeta → List ℕ → Option (List (MergeCandidate F))
  unfolding full_pieces
  tier_candidates metas [] = some []
  tier_candidates metas (t ∷ ts) =
      let pieces =
        chunks p.tier.tier_merge_threshold (sort created_after (retain (tier_is t) metas)) in
      let rest = tier_candidates metas ts in
      let this = full_pieces t pieces in
      if p.tier.tier_merge_threshold == 0 then none else both_lists this rest

  abbrev lower_score : MergeCandidate F → MergeCandidate F → Bool
  lower_score a b = fl.is_less a.score b.score

  abbrev tier_of_file : List SegmentMeta → Text → Option ℕ
  tier_of_file metas f = elim (find (λ s. text_beq s.file f) metas) [
    | none ↦ none
    | some s ↦ some s.tier
  ]

  -- The fallback of `Auto`: the oldest segments, whatever their tiers.
  pub oldest_candidate : List SegmentMeta → List (MergeCandidate F)
  oldest_candidate metas =
      let n = max p.min_segments_to_merge 2 in
      let oldest = map file_of (take n (sort created_after metas)) in
      let tier = max_or 0 (filter_map (tier_of_file metas) oldest) in
      if leb 2 (length oldest)
      then record {
        group = record { segments = oldest; input_tier = tier; output_tier = output_tier tier };
        score = fl.tenths 1;
      }
        ∷ []
      else []

  abbrev pub is_auto : CompactMode → Bool
  is_auto CompactMode.auto = true
  is_auto CompactMode.normal = false
  is_auto CompactMode.full = false

  abbrev no_candidates : List (MergeCandidate F) → Bool
  no_candidates [] = true
  no_candidates (_ ∷ _) = false

  pub pick_tiered : CompactMode → List SegmentMeta → Option (List (MergeCandidate F))
  unfolding tier_candidates oldest_candidate
  pick_tiered mode metas = elim (tier_candidates metas tiers) [
    | none ↦ none
    | some found ↦
        let candidates = sort lower_score found in
        if is_auto mode && no_candidates candidates && leb p.max_segments (length metas)
        then some (candidates ++ oldest_candidate metas)
        else some candidates
  ]

  -- The loop over the segments of a manifest without sizes: runs of small ones.
  pub small_runs : (Text → Option ℕ) → List Text → List Text → List (MergeCandidate F)
  unfolding segment_size
  small_runs size run [] =
      if leb p.min_segments_to_merge (length run) then small_group run (fl.of_nat 1) ∷ [] else []
  small_runs size run (seg ∷ segs) =
      let grown = small_runs size (run ++ seg ∷ []) segs in
      let fresh = small_runs size [] segs in
      if ltb (segment_size size seg) p.small_segment_bytes
      then grown
      else (if leb p.min_segments_to_merge (length run)
          then small_group run (fl.of_nat 1) ∷ fresh
          else fresh)

  -- The fallback there: pieces of the list.
  pub pieces_of_two : List (List Text) → List (MergeCandidate F)
  pieces_of_two [] = []
  pieces_of_two (window ∷ windows) =
      let rest = pieces_of_two windows in
      if leb 2 (length window) then small_group window (fl.tenths 5) ∷ rest else rest

  pub pick_untiered : (Text → Option ℕ) → CompactMode → List Text → List (MergeCandidate F)
  unfolding small_runs pieces_of_two
  pick_untiered size mode segments =
      let candidates = small_runs size [] segments in
      if is_auto mode && no_candidates candidates && leb p.max_segments (length segments)
      then candidates ++ pieces_of_two (chunks (max p.min_segments_to_merge 2) segments)
      else candidates

  abbrev pub everything : List Text → List (MergeCandidate F)
  everything segments =
      record {
        group = record { segments = segments; input_tier = 0; output_tier = 3 };
        score = fl.largest;
      }
      ∷ []

  -- With sizes in the manifest or without.
  pub pick_partial :
      (Text → Option ℕ)
      → CompactMode
      → List SegmentMeta
      → List Text
      → Option (List (MergeCandidate F))
  unfolding pick_tiered pick_untiered
  pick_partial size mode [] segments = some (pick_untiered size mode segments)
  pick_partial size mode (s ∷ ss) segments = pick_tiered mode (s ∷ ss)

  unfoldable pub pick_merge_candidates :
      (Text → Option ℕ) → CompactMode → TableManifestFile → Option (List (MergeCandidate F))
  unfolding pick_partial
  pick_merge_candidates size mode m = if ltb (length m.segments) 2 then some [] else elim mode [
    | CompactMode.full ↦ some (everything m.segments)
    | other ↦ pick_partial size other m.segment_meta m.segments
  ]

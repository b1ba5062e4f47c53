-- ===== src/Storage/Compaction/Policy.antt =====
-- When a table is compacted: `CompactPolicy` and the tests that start a compaction.
use toradb.Prelude.{
  ℕ, suc, ◌+◌, ◌-◌, ◌*◌, ◌^◌, min, Bool, true, false, Option, none, some, List, [], ◌∷◌, ltb, leb,
  ◌==◌, if◌then◌else◌, Text, length, retain,
}
use toradb.Storage.Manifest.{TableManifestFile, SegmentMeta}

pub data CompactMode : Type 0 where
  auto normal full : CompactMode

pub record TierPolicy : Type 0 where
  pub tier_bounds : List ℕ
  pub tier_merge_threshold : ℕ

abbrev pub default_tiers : TierPolicy
default_tiers = record {
  tier_bounds = 4 * 1024 * 1024 ∷ 16 * 1024 * 1024 ∷ 64 * 1024 * 1024 ∷ (2 ^ 64 - 1) ∷ [];
  tier_merge_threshold = 4;
}

-- The loop over the bounds, from tier `i` on.
pub tier_below : ℕ → ℕ → List ℕ → ℕ
tier_below bytes i [] = 3
tier_below bytes i (bound ∷ bounds) =
    let rest = tier_below bytes (suc i) bounds in if ltb bytes bound then i else rest

unfoldable pub tier_for_bytes : ℕ → TierPolicy → ℕ
unfolding tier_below
tier_for_bytes bytes p = tier_below bytes 0 p.tier_bounds

-- The tiers that are merged are below the largest `u8`.
unfoldable pub output_tier : ℕ → ℕ
output_tier input_tier = min (input_tier + 1) 3

pub record CompactPolicy : Type 0 where
  pub max_segments : ℕ
  pub min_segments_to_merge : ℕ
  pub small_segment_bytes : ℕ
  pub tier : TierPolicy
  pub merge_batch_size : ℕ

abbrev pub default_policy : CompactPolicy
default_policy = record {
  max_segments = 8;
  min_segments_to_merge = 3;
  small_segment_bytes = 4 * 1024 * 1024;
  tier = default_tiers;
  merge_batch_size = 65536;
}

-- `segment_size`, by what `metadata` answers.
unfoldable pub segment_size : (Text → Option ℕ) → Text → ℕ
segment_size size name = elim (size name) [ none ↦ 0 | some n ↦ n ]

pub should_compact : (Text → Option ℕ) → CompactPolicy → TableManifestFile → Bool
unfolding segment_size
should_compact size p m =
    let small = retain (λ s. ltb (segment_size size s) p.small_segment_bytes) m.segments in
    if ltb (length m.segments) 2
    then false
    else (if leb p.max_segments (length m.segments)
        then true
        else leb p.min_segments_to_merge (length small))

abbrev pub tier_is : ℕ → SegmentMeta → Bool
tier_is t s = s.tier == t

-- The loop over the tiers.
pub tier_is_full : ℕ → List SegmentMeta → List ℕ → Bool
tier_is_full threshold metas [] = false
tier_is_full threshold metas (t ∷ ts) =
    let rest = tier_is_full threshold metas ts in
    if leb threshold (length (retain (tier_is t) metas)) then true else rest

abbrev pub tiers : List ℕ
tiers = 0 ∷ 1 ∷ 2 ∷ 3 ∷ []

pub should_compact_tiered : (Text → Option ℕ) → CompactPolicy → TableManifestFile → Bool
unfolding should_compact tier_is_full
should_compact_tiered size p m = elim m.segment_meta [
  | [] ↦ should_compact size p m
  | s ∷ ss ↦
      if ltb (length m.segment_meta) 2
      then false
      else (if tier_is_full p.tier.tier_merge_threshold m.segment_meta tiers
          then true
          else leb p.max_segments (length m.segment_meta))
]

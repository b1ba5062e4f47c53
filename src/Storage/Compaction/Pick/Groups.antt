-- ===== src/Storage/Compaction/Pick/Groups.antt =====
-- How often a segment stands in the groups that are picked.
use toradb.Prelude.{
  ℕ, ◌+◌, ◌≤◌, ◌<◌, ◌≡◌, refl, ap, inl, inr, max, Bool, true, ◌&&◌, Bool-cases, Option, none, some,
  Option-cases, List, [], ◌∷◌, ◌++◌, map, ltb, leb, ◌==◌, if◌then◌else◌, Text, text_beq, text_eq,
  length, take, retain, sort, chunks, arith, sum_of, sum_of-sort, sum_of-append, sum_of-chunks,
  sum_of-take-drop,
}
use toradb.Collections.Keys.{count, count-append, contains, contains-eq_of_pos}
use toradb.Storage.Manifest.{TableManifestFile, SegmentMeta}
use toradb.Storage.Manifest.Consistency.{IsConsistent, meta_files}
use toradb.Storage.Compaction.Policy.{CompactMode, CompactPolicy, tier_is, tiers}
use toradb.Storage.Compaction.Scores.{Float}
use toradb.Storage.Compaction.Pick.{
  MergeCandidate, file_of, created_after, is_auto, no_candidates, both_lists, candidate_at,
  full_pieces, tier_candidates, lower_score, oldest_candidate, pick_tiered, small_runs,
  pieces_of_two, pick_untiered, pick_partial, everything, pick_merge_candidates,
}

abbrev is_named : Text → Text → ℕ
is_named f x = if text_beq x f then 1 else 0

abbrev is_file : Text → SegmentMeta → ℕ
is_file f s = is_named f s.file

count-sum : (f : Text) (xs : List Text) → count f xs ≡ sum_of (is_named f) xs
unfolding count sum_of
count-sum f [] = refl
count-sum f (x ∷ xs) = ground (arith, count-sum f xs)

count_nil : (f : Text) → count f [] ≡ 0
unfolding count
count_nil f = refl

count_present : (f : Text) (xs : List Text) → contains f xs ≡ true → 0 < count f xs
unfolding contains count
count_present f [] h = absurd (ground arith)
count_present f (x ∷ xs) h = ground (arith, count_present f xs)

count-files : (f : Text) (ss : List SegmentMeta) → count f (map file_of ss) ≡ sum_of (is_file f) ss
unfolding count sum_of
count-files f [] = refl
count-files f (s ∷ ss) = ground (arith, count-files f ss)

module _ {F : Type 0} where
  -- How often a file stands in a group.
  abbrev pub in_group : Text → MergeCandidate F → ℕ
  in_group f c = count f c.group.segments

  both_lists-some :
      (x y : Option (List (MergeCandidate F))) (cs : List (MergeCandidate F))
      → both_lists x y ≡ some cs
      → (xs : List (MergeCandidate F)) × (ys : List (MergeCandidate F)) × (x ≡ some xs)
        × (y ≡ some ys)
        × (cs ≡ xs ++ ys)
  both_lists-some none y cs h = absurd (ground arith)
  both_lists-some (some xs) none cs h = absurd (ground arith)
  both_lists-some (some xs) (some ys) cs h = (xs, ys, refl, refl, ground arith)

-- The metas of a tier and of those that come later in the list of tiers.
abbrev on_tiers : Text → List SegmentMeta → List ℕ → ℕ
on_tiers f metas [] = 0
on_tiers f metas (t ∷ ts) = sum_of (is_file f) (retain (tier_is t) metas) + on_tiers f metas ts

on_tiers-le :
    (f : Text) (metas : List SegmentMeta) → on_tiers f metas tiers ≤ sum_of (is_file f) metas
unfolding sum_of retain
on_tiers-le f [] = omega arith
on_tiers-le f (s ∷ metas) = ground (arith, on_tiers-le f metas)

module _ {F : Type 0} (fl : Float F) (p : CompactPolicy) where
  candidate_at-files :
      (t : ℕ) (chunk : List SegmentMeta) (c : MergeCandidate F) (f : Text)
      → candidate_at fl p t chunk ≡ some c
      → in_group f c ≡ sum_of (is_file f) chunk
  unfolding candidate_at
  candidate_at-files t chunk c f h = ground (arith, count-files f chunk)

  full_pieces-files :
      (t : ℕ) (pieces : List (List SegmentMeta)) (cs : List (MergeCandidate F)) (f : Text)
      → full_pieces fl p t pieces ≡ some cs
      → sum_of (in_group f) cs ≤ sum_of (sum_of (is_file f)) pieces
  unfolding full_pieces sum_of
  full_pieces-files t [] cs f h = ground arith
  full_pieces-files t (chunk ∷ pieces) cs f h = elim (Option-cases (full_pieces fl p t pieces)) [
    | inl e ↦ ground (arith, e)
    | inr (later, e) ↦ elim (Option-cases (candidate_at fl p t chunk)) [
      | inl k ↦ ground (arith, full_pieces-files t pieces later f e)
      | inr (c, k) ↦
          ground (arith, full_pieces-files t pieces later f e, candidate_at-files t chunk c f k)
    ]
  ]

  tier_candidates-files :
      (metas : List SegmentMeta) (ts : List ℕ) (cs : List (MergeCandidate F)) (f : Text)
      → tier_candidates fl p metas ts ≡ some cs
      → sum_of (in_group f) cs ≤ on_tiers f metas ts
  unfolding tier_candidates
  tier_candidates-files metas [] cs f h = (unfold sum_of in ground arith)
  tier_candidates-files metas (t ∷ ts) cs f h =
      elim (Bool-cases (p.tier.tier_merge_threshold == 0)) [
        | inl e ↦ absurd (ground arith)
        | inr e ↦
            let own = sort created_after (retain (tier_is t) metas) in
            let pieces = chunks p.tier.tier_merge_threshold own in
            let (xs, ys, hx, hy, hc) =
              both_lists-some (full_pieces fl p t pieces) (tier_candidates fl p metas ts) cs
                (ground arith) in
            omega (
              arith,
              ap (sum_of (in_group f)) hc,
              sum_of-append (in_group f) xs ys,
              full_pieces-files t pieces xs f hx,
              tier_candidates-files metas ts ys f hy,
              sum_of-chunks (is_file f) p.tier.tier_merge_threshold own,
              sum_of-sort (is_file f) created_after (retain (tier_is t) metas),
            )
      ]

  -- A fallback is added to no candidates only.
  fallback-files :
      (mode : CompactMode) (b : Bool) (cs more : List (MergeCandidate F)) (f : Text) (n : ℕ)
      → sum_of (in_group f) cs ≤ n
      → sum_of (in_group f) more ≤ n
      → sum_of
          (in_group f)
          (if is_auto fl p mode && no_candidates fl p cs && b then cs ++ more else cs)
        ≤ n
  fallback-files mode b [] more f n h k = ground arith
  fallback-files mode b (c ∷ cs) more f n h k = ground arith

  oldest-files :
      (metas : List SegmentMeta) (f : Text)
      → sum_of (in_group f) (oldest_candidate fl p metas) ≤ sum_of (is_file f) metas
  unfolding oldest_candidate sum_of
  oldest-files metas f =
      let own = sort created_after metas in
      let n = max p.min_segments_to_merge 2 in
      ground (
        arith,
        count-files f (take n own),
        sum_of-take-drop (is_file f) n own,
        sum_of-sort (is_file f) created_after metas,
      )

  pick_tiered-files :
      (mode : CompactMode) (metas : List SegmentMeta) (cs : List (MergeCandidate F)) (f : Text)
      → pick_tiered fl p mode metas ≡ some cs
      → sum_of (in_group f) cs ≤ sum_of (is_file f) metas
  unfolding pick_tiered
  pick_tiered-files mode metas cs f h = elim (Option-cases (tier_candidates fl p metas tiers)) [
    | inl e ↦ absurd (ground arith)
    | inr (found, e) ↦
        let all_tiers = tier_candidates-files metas tiers found f e in
        let cs' = sort (lower_score fl p) found in
        let few =
          fallback-files mode (leb p.max_segments (length metas)) cs' (oldest_candidate fl p metas)
            f (sum_of (is_file f) metas)
            (omega (arith, sum_of-sort (in_group f) (lower_score fl p) found, on_tiers-le f metas))
            (oldest-files metas f) in
        ground (arith, few)
  ]

  small_runs-files :
      (size : Text → Option ℕ) (run segs : List Text) (f : Text)
      → sum_of (in_group f) (small_runs fl p size run segs) ≤ count f run + count f segs
  unfolding small_runs sum_of count
  small_runs-files size run [] f = ground arith
  small_runs-files size run (seg ∷ segs) f = ground (
    arith,
    small_runs-files size (run ++ seg ∷ []) segs f,
    small_runs-files size [] segs f,
    count-append f run (seg ∷ []),
  )

  pieces_of_two-files :
      (windows : List (List Text)) (f : Text)
      → sum_of (in_group f) (pieces_of_two fl p windows) ≤ sum_of (sum_of (is_named f)) windows
  unfolding pieces_of_two sum_of
  pieces_of_two-files [] f = omega arith
  pieces_of_two-files (w ∷ ws) f = ground (arith, pieces_of_two-files ws f, count-sum f w)

  pick_untiered-files :
      (size : Text → Option ℕ) (mode : CompactMode) (segs : List Text) (f : Text)
      → sum_of (in_group f) (pick_untiered fl p size mode segs) ≤ count f segs
  unfolding pick_untiered
  pick_untiered-files size mode segs f =
      let n = max p.min_segments_to_merge 2 in
      fallback-files mode (leb p.max_segments (length segs)) (small_runs fl p size [] segs)
        (pieces_of_two fl p (chunks n segs)) f (count f segs)
        (omega (arith, small_runs-files size [] segs f, count_nil f))
        (omega (
          arith,
          pieces_of_two-files (chunks n segs) f,
          sum_of-chunks (is_named f) n segs,
          count-sum f segs,
        ))

  pick_partial-files :
      (size : Text → Option ℕ) (mode : CompactMode) (metas : List SegmentMeta) (segs : List Text)
      (cs : List (MergeCandidate F)) (f : Text)
      → sum_of (is_file f) metas ≤ count f segs
      → pick_partial fl p size mode metas segs ≡ some cs
      → sum_of (in_group f) cs ≤ count f segs
  unfolding pick_partial
  pick_partial-files size mode [] segs cs f h e =
      ground (arith, pick_untiered-files size mode segs f)
  pick_partial-files size mode (s ∷ ss) segs cs f h e =
      omega (arith, pick_tiered-files mode (s ∷ ss) cs f e)

  metas_listed :
      (m : TableManifestFile) (f : Text)
      → IsConsistent m
      → sum_of (is_file f) m.segment_meta ≤ count f m.segments
  metas_listed m f h = ground (
    arith,
    h.metas.once f,
    h.metas.known f,
    count-files f m.segment_meta,
    count_present f m.segments,
    contains-eq_of_pos f (meta_files m.segment_meta),
  )

  none_picked :
      (cs : List (MergeCandidate F)) (f : Text) (n : ℕ) → cs ≡ [] → sum_of (in_group f) cs ≤ n
  unfolding sum_of
  none_picked cs f n e = ground (arith, e)

  everything_files :
      (m : TableManifestFile) (cs : List (MergeCandidate F)) (f : Text)
      → (if ltb (length m.segments) 2 then some [] else some (everything fl p m.segments)) ≡ some cs
      → sum_of (in_group f) cs ≤ count f m.segments
  unfolding sum_of
  everything_files m cs f e = ground arith

  -- Whatever the mode, where the metas of a manifest are consistent with its segments: a segment
  -- stands in the groups that are picked, all together, at most as often as in the manifest, so no
  -- segment is merged twice and none is merged that the manifest does not list.
  pub pick_merge_candidates-files :
      (size : Text → Option ℕ) (mode : CompactMode) (m : TableManifestFile)
      (cs : List (MergeCandidate F)) (f : Text)
      → IsConsistent m
      → pick_merge_candidates fl p size mode m ≡ some cs
      → sum_of (in_group f) cs ≤ count f m.segments
  unfolding pick_merge_candidates
  pick_merge_candidates-files size CompactMode.full m cs f h e = everything_files m cs f e
  pick_merge_candidates-files size CompactMode.auto m cs f h e =
      elim (Bool-cases (ltb (length m.segments) 2)) [
        | inl short ↦ none_picked cs f (count f m.segments) (ground arith)
        | inr long ↦
            pick_partial-files size CompactMode.auto m.segment_meta m.segments cs f
              (metas_listed m f h) (ground arith)
      ]
  pick_merge_candidates-files size CompactMode.normal m cs f h e =
      elim (Bool-cases (ltb (length m.segments) 2)) [
        | inl short ↦ none_picked cs f (count f m.segments) (ground arith)
        | inr long ↦
            pick_partial-files size CompactMode.normal m.segment_meta m.segments cs f
              (metas_listed m f h) (ground arith)
      ]

-- ===== src/Index/Tbm3/Cursor/Single.antt =====
-- The search for a single term, in one piece or in ranges.
use toradb.Prelude.{
  ℕ, zero, suc, ◌+◌, ◌-◌, ◌*◌, ◌/◌, ◌<◌, ◌≤◌, ◌≡◌, refl, sym, ap, ◌∙◌, min, max, Bool, Bool-cases,
  inl, inr, Option, some, List, [], ◌∷◌, ◌++◌, take, drop, ltb, leb, concat, map, length,
  length-drop, arith,
}
use Prim.Native.Nat.{Ordering}
use mathlib.Core.Path.{subst}
use toradb.Core.Candidate.{empty}
use toradb.Index.Bytes.{Bytes}
use toradb.Index.Tbm3.Postings.{Float, Posting}
use toradb.Index.Tbm3.TopK.{ScoredDoc, above, push_all, best_first, push_docs, heap_to_candidates}
use toradb.Index.Tbm3.TopK.Insert.{IsLinear}
use toradb.Index.Tbm3.TopK.Best.{best_first-push_all}
use toradb.Index.Tbm3.TopK.Merge.{push_all-merged}
use toradb.Index.Tbm3.Cursor.{
  TermCursor, BlockStart, header_if, starts_from, block_starts, at_block, scored, score_blocks,
  score_range_into_heap, ranges_from, local_heaps, single_in_ranges, single_term_topk, div_ceil,
}
use toradb.Index.Tbm3.Cursor.Ranges.{concat-append, part, part-append, div_ceil_enough, start_at}
use toradb.Index.Tbm3.Cursor.Drain.{Blocks, before, scored-append, score_blocks-before}

module _ {F : Type 0} (fl : Float F) (partial_cmp : F → F → Option Ordering) (bytes : Bytes)
    (idf avg_dl : F) (total k off : ℕ) {cs : List (List Posting)}
    (blocks : Blocks fl bytes off 0 cs) where
  abbrev pub first_cursor : TermCursor F
  first_cursor = before idf total (length cs) 0 off (header_if fl bytes (ltb 0 (length cs)) off) 0

  abbrev scores_of : ℕ × ℕ → List (ScoredDoc F)
  scores_of r = scored fl idf avg_dl (concat (part (r.0) (r.1) cs))

  score_range-part :
      (lo hi : ℕ) (s : BlockStart)
      → lo < hi
      → hi ≤ length cs
      → Blocks fl bytes s.header_off s.prev_doc (drop lo cs)
      → score_range_into_heap fl partial_cmp bytes (at_block fl bytes first_cursor lo hi s) k avg_dl
        ≡ some (push_all (above partial_cmp) k [] (scores_of (lo, hi)))
  unfolding score_range_into_heap at_block header_if
  score_range-part lo hi s h l more =
      let width : lo + (hi - lo) ≡ hi = omega arith in
      let there : ltb 0 (hi - lo) ≡ ltb lo hi = ground arith in
      let few : hi - lo ≤ length (drop lo cs) = omega (arith, length-drop lo cs) in
      let found = some (push_all (above partial_cmp) k [] (scores_of (lo, hi))) in
      let at = λ (n : ℕ) (b : Bool).
        before idf total n lo s.header_off (header_if fl bytes b s.header_off) s.prev_doc in
      subst
        (λ (b : Bool). score_blocks fl partial_cmp bytes (hi - lo) k avg_dl [] (at hi b) ≡ found)
        there
        (subst
          (λ (n : ℕ).
            score_blocks fl partial_cmp bytes (hi - lo) k avg_dl [] (at n (ltb 0 (hi - lo)))
            ≡ found)
          width
          (score_blocks-before fl partial_cmp bytes idf avg_dl (hi - lo) k total lo [] more few))

  -- Ranges that are not empty and inside the blocks.
  abbrev AreInside : List (ℕ × ℕ) → Type 0
  AreInside [] = Unit {0}
  AreInside (r ∷ rs) = ((r.0 < r.1) × (r.1 ≤ length cs)) × AreInside rs

  local_heaps_lem :
      (rs : List (ℕ × ℕ))
      → AreInside rs
      → local_heaps fl partial_cmp bytes first_cursor
          (starts_from fl bytes (length cs) off 0)
          k
          avg_dl
          rs
        ≡ some (map (push_all (above partial_cmp) k []) (map scores_of rs))
  unfolding local_heaps
  local_heaps_lem [] h = refl
  local_heaps_lem ((lo, hi) ∷ rs) ((h, l), hs) =
      let (s, found, more) = start_at fl bytes lo (length cs) blocks (omega arith) (omega arith) in
      rw (local_heaps, found, score_range-part lo hi s h l more, local_heaps_lem rs hs) refl

  -- The ranges of the workers from the w-th on.
  ranges_from-AreInside : (n w per : ℕ) → AreInside (ranges_from n w per (length cs))
  unfolding ranges_from
  ranges_from-AreInside zero w per = _
  ranges_from-AreInside (suc n) w per =
      let lo = min (w * per) (length cs) in
      let hi = min (suc w * per) (length cs) in
      elim (Bool-cases (ltb lo hi)) [
        | inl e ↦ rw e ((ground arith, omega arith), ranges_from-AreInside n (suc w) per)
        | inr e ↦ rw e (ranges_from-AreInside n (suc w) per)
      ]

  -- Their documents are those from the first one's start on.
  scores_of-ranges_from :
      (n w per : ℕ)
      → concat (map scores_of (ranges_from n w per (length cs)))
        ≡ scores_of (min (w * per) (length cs), min ((w + n) * per) (length cs))
  unfolding ranges_from scored
  scores_of-ranges_from zero w per =
      let same : (w + 0) * per ≡ w * per = ap (λ (m : ℕ). m * per) (omega arith) in
      let none : min (w * per) (length cs) - min (w * per) (length cs) ≡ 0 = omega arith in
      rw (same, none) refl
  scores_of-ranges_from (suc n) w per =
      let lo = min (w * per) (length cs) in
      let mid = min (suc w * per) (length cs) in
      let hi = min ((w + suc n) * per) (length cs) in
      let end : (suc w + n) * per ≡ (w + suc n) * per = ap (λ (m : ℕ). m * per) (omega arith) in
      let up : lo ≤ mid = grind arith in
      let up' : mid ≤ hi = grind arith in
      let rest = scores_of-ranges_from n (suc w) per in
      let whole : scores_of (lo, hi) ≡ scores_of (lo, mid) ++ scores_of (mid, hi) =
        ap (λ (ds : List (List Posting)). scored fl idf avg_dl (concat ds))
          (part-append lo mid hi cs up up' (omega arith))
        ∙ ap (scored fl idf avg_dl) (concat-append (part lo mid cs) (part mid hi cs))
        ∙ scored-append fl idf avg_dl (concat (part lo mid cs)) (concat (part mid hi cs)) in
      elim (Bool-cases (ltb lo mid)) [
        | inl e ↦ rw (e, rest, end) (sym whole)
        | inr e ↦
            let same : mid ≡ lo = ground arith in
            rw (e, rest, end) (ap (λ (m : ℕ). scores_of (m, hi)) same)
      ]

  take_whole : {A : Type 0} (xs : List A) → take (length xs) xs ≡ xs
  take_whole [] = refl
  take_whole (x ∷ xs) = ap (λ (l : List _). x ∷ l) (take_whole xs)

  -- All at once.
  score_range-whole :
      score_range_into_heap fl partial_cmp bytes first_cursor k avg_dl
      ≡ some (push_all (above partial_cmp) k [] (scored fl idf avg_dl (concat cs)))
  unfolding score_range_into_heap
  score_range-whole =
      let n = length cs in
      let width : n - 0 ≡ n = omega arith in
      let num : 0 + n ≡ n = omega arith in
      let docs = take_whole cs in
      let at = λ (num : ℕ). before idf total num 0 off (header_if fl bytes (ltb 0 n) off) 0 in
      ap (λ (turns : ℕ). score_blocks fl partial_cmp bytes turns k avg_dl [] first_cursor) width
      ∙ subst
          (λ (num : ℕ).
            score_blocks fl partial_cmp bytes n k avg_dl [] (at num)
            ≡ some (push_all (above partial_cmp) k [] (scored fl idf avg_dl (concat (take n cs)))))
          num
          (score_blocks-before fl partial_cmp bytes idf avg_dl n k total 0 [] blocks (omega arith))
      ∙ ap
          (λ (ds : List (List Posting)).
            some (push_all (above partial_cmp) k [] (scored fl idf avg_dl (concat ds))))
          docs

  module _ (linear : IsLinear (above partial_cmp)) where
    candidates_lem :
        (xs : List (ScoredDoc F))
        → heap_to_candidates partial_cmp (push_all (above partial_cmp) k [] xs)
          ≡ push_docs (take k (best_first (above partial_cmp) xs)) empty
    unfolding heap_to_candidates
    candidates_lem xs =
        ap (λ (ds : List (ScoredDoc F)). push_docs ds empty)
          (best_first-push_all (above partial_cmp) linear k xs)

    single_in_ranges_lem :
        (workers : ℕ)
        → length cs ≤ workers * div_ceil (length cs) workers
        → single_in_ranges fl partial_cmp bytes workers first_cursor k avg_dl
          ≡ some (
              heap_to_candidates partial_cmp
                (push_all (above partial_cmp) k [] (scored fl idf avg_dl (concat cs))))
    unfolding single_in_ranges block_starts
    single_in_ranges_lem workers enough =
        let per = div_ceil (length cs) workers in
        let ranges = ranges_from workers 0 per (length cs) in
        let first : min (0 * per) (length cs) ≡ 0 = grind arith in
        let end : min ((0 + workers) * per) (length cs) ≡ length cs = grind arith in
        let all : concat (map scores_of ranges) ≡ scored fl idf avg_dl (concat cs) =
          scores_of-ranges_from workers 0 per
          ∙ rw (first, end)
              (let e : length cs - 0 ≡ length cs = omega arith in rw (e, take_whole cs) refl) in
        rw
          (
            single_in_ranges,
            local_heaps_lem ranges (ranges_from-AreInside workers 0 per),
            push_all-merged (above partial_cmp) linear k (map scores_of ranges),
            all,
          )
          refl

    -- Whatever the number of threads.
    pub single_term_topk-Blocks :
        (threads : ℕ)
        → single_term_topk fl partial_cmp bytes threads first_cursor k avg_dl
          ≡ some (
              push_docs
                (take k (best_first (above partial_cmp) (scored fl idf avg_dl (concat cs))))
                empty)
    unfolding single_term_topk
    single_term_topk-Blocks threads =
        let num = length cs in
        let workers = max (min threads (num / 512)) 1 in
        let candidates = candidates_lem (scored fl idf avg_dl (concat cs)) in
        elim (Bool-cases (leb num 2048)) [
          | inl few ↦ rw (few, score_range-whole) (ap some candidates)
          | inr many ↦ elim (Bool-cases (leb workers 1)) [
            | inl one ↦ rw (many, one, score_range-whole) (ap some candidates)
            | inr more ↦
                rw
                  (
                    many,
                    more,
                    single_in_ranges_lem workers (div_ceil_enough num workers (ground arith)),
                  )
                  (ap some candidates)
          ]
        ]

-- ===== src/Index/Tbm3/Cursor.antt =====
-- A cursor over the postings of a term, block by block, and the search for a single term, in one
-- piece or in ranges of blocks. `none` is a panic.
pub mod Drain
pub mod Ranges
pub mod Single
pub mod Search
mod Tests
use toradb.Prelude.{
  ℕ, zero, suc, ◌+◌, ◌-◌, ◌*◌, ◌/◌, min, max, Bool, true, false, Option, none, some, List, [], ◌∷◌,
  ◌++◌, ltb, leb, ◌==◌, if◌then◌else◌, concat, text, length, get_elem?, Result, ok, err, ◌>>=◌,
}
use Prim.Native.Nat.{Ordering}
use toradb.Core.Candidate.{CandidateSet}
use toradb.Index.Bytes.{Bytes, from_le, slice}
use toradb.Index.Tbm3.Postings.{
  Float, Posting, BlockHeader, read_block_header, block_at, block_size, idf_of, tf_component,
}
use toradb.Index.Tbm3.TopK.{ScoredDoc, above, push_topk, push_all, heap_to_candidates}

pub record TermCursor (F : Type 0) : Type 0 where
  pub total_docs : ℕ
  pub num_blocks : ℕ
  pub block_idx : ℕ
  pub next_block_off : ℕ
  pub current_header : Option (BlockHeader F)
  pub decoded : Option (List Posting)
  pub prev_doc : ℕ
  pub idf : F

pub record BlockStart : Type 0 where
  pub header_off : ℕ
  pub prev_doc : ℕ

-- `Result::ok`
abbrev pub to_option {ℓ} : {A : Type ℓ} → Result A → Option A
to_option (ok a) = some a
to_option (err m) = none

abbrev pub parallel_block_threshold : ℕ
parallel_block_threshold = 2048

abbrev pub min_blocks_per_worker : ℕ
min_blocks_per_worker = 512

-- `a.div_ceil(b)`, for `b` above 0.
abbrev pub div_ceil : ℕ → ℕ → ℕ
div_ceil a b = (a + b - 1) / b

-- The ranges of blocks of the workers from `w` on that are not empty.
unfoldable pub ranges_from : ℕ → ℕ → ℕ → ℕ → List (ℕ × ℕ)
ranges_from zero w per_worker num_blocks = []
ranges_from (suc n) w per_worker num_blocks =
    let rest = ranges_from n (suc w) per_worker num_blocks in
    let lo = min (w * per_worker) num_blocks in
    let hi = min (suc w * per_worker) num_blocks in if ltb lo hi then (lo, hi) ∷ rest else rest

module _ {F : Type 0} (fl : Float F) where
  -- The scores of the documents of a block.
  unfoldable pub scored : F → F → List Posting → List (ScoredDoc F)
  unfolding tf_component
  scored idf avg_dl [] = []
  scored idf avg_dl ((id, tf) ∷ ps) =
      record { score = fl.mul idf (tf_component fl (fl.of_nat tf) avg_dl); doc_id = id }
      ∷ scored idf avg_dl ps

module _ {F : Type 0} (fl : Float F) (bytes : Bytes) where
  unfoldable pub open_cursor : ℕ → ℕ → ℕ → Result (TermCursor F)
  open_cursor base df num_docs =
      let num_blocks = from_le (slice (base + 4) 4 bytes) in
      let cursor : Option (BlockHeader F) → TermCursor F = λ h. record {
        total_docs = from_le (slice base 4 bytes);
        num_blocks = num_blocks;
        block_idx = 0;
        next_block_off = base + 8;
        current_header = h;
        decoded = none;
        prev_doc = 0;
        idf = idf_of fl num_docs df;
      } in
      if ltb (length bytes) (base + 8)
      then err (text "truncated TBM3 postings header")
      else (if ltb 0 num_blocks
          then (read_block_header fl bytes (base + 8) >>= λ h. ok (cursor (some h)))
          else ok (cursor none))

  -- Without a header the cursor stays as it is. The payload of a header that was read is taken as
  -- `TermPostings::parse` takes it.
  unfoldable pub decode_current_block : TermCursor F → Option (TermCursor F)
  decode_current_block c = elim c.current_header [
    | none ↦ some c
    | some h ↦ elim (block_at fl bytes c.prev_doc h) [
      | err m ↦ none
      | ok (docs, last) ↦ some (record c { decoded = some docs })
    ]
  ]

  -- The header of the block after this one, if there is such a block and it can be read.
  unfoldable pub header_if : Bool → ℕ → Option (BlockHeader F)
  header_if there off = if there then to_option (read_block_header fl bytes off) else none

  unfoldable pub advance_block : TermCursor F → TermCursor F
  unfolding header_if
  advance_block c = elim c.current_header [
    | none ↦ record c {
      block_idx = suc c.block_idx;
      current_header = header_if (ltb (suc c.block_idx) c.num_blocks) c.next_block_off;
      decoded = none;
    }
    | some h ↦ record c {
      prev_doc = h.block_last_docid;
      next_block_off = h.next_block_off;
      block_idx = suc c.block_idx;
      current_header = header_if (ltb (suc c.block_idx) c.num_blocks) h.next_block_off;
      decoded = none;
    }
  ]

  -- Where each block starts, up to the first that cannot be read.
  unfoldable pub starts_from : ℕ → ℕ → ℕ → List BlockStart
  starts_from zero off prev = []
  starts_from (suc n) off prev =
      record { header_off = off; prev_doc = prev } ∷ elim (read_block_header fl bytes off) [
        | err m ↦ []
        | ok h ↦ starts_from n h.next_block_off h.block_last_docid
      ]

  unfoldable pub block_starts : TermCursor F → List BlockStart
  unfolding starts_from
  block_starts c = starts_from c.num_blocks c.next_block_off 0

  unfoldable pub at_block : TermCursor F → ℕ → ℕ → BlockStart → TermCursor F
  unfolding header_if
  at_block c block_idx end_block start = record c {
    num_blocks = end_block;
    block_idx = block_idx;
    next_block_off = start.header_off;
    current_header = header_if (ltb block_idx end_block) start.header_off;
    decoded = none;
    prev_doc = start.prev_doc;
  }

module _ {F : Type 0} (fl : Float F) (partial_cmp : F → F → Option Ordering) (bytes : Bytes) where
  -- The loop of `score_range_into_heap`, with `turns` blocks to come.
  unfoldable pub score_blocks :
      ℕ → ℕ → F → List (ScoredDoc F) → TermCursor F → Option (List (ScoredDoc F))
  unfolding decode_current_block advance_block scored push_all above
  score_blocks zero k avg_dl heap c = some heap
  score_blocks (suc turns) k avg_dl heap c = elim (decode_current_block fl bytes c) [
    | none ↦ none
    | some d ↦ elim d.decoded [
      | none ↦ none
      | some docs ↦
          score_blocks turns k avg_dl
            (push_all (above partial_cmp) k heap (scored fl d.idf avg_dl docs))
            (advance_block fl bytes d)
    ]
  ]

  unfoldable pub score_range_into_heap : TermCursor F → ℕ → F → Option (List (ScoredDoc F))
  unfolding score_blocks
  score_range_into_heap c k avg_dl = score_blocks (c.num_blocks - c.block_idx) k avg_dl [] c

  -- The heaps of the ranges, one after the other.
  unfoldable pub local_heaps :
      TermCursor F → List BlockStart → ℕ → F → List (ℕ × ℕ) → Option (List (List (ScoredDoc F)))
  unfolding at_block score_range_into_heap
  local_heaps c starts k avg_dl [] = some []
  local_heaps c starts k avg_dl ((lo, hi) ∷ rs) = elim (get_elem? starts lo) [
    | none ↦ none
    | some start ↦ elim (score_range_into_heap (at_block fl bytes c lo hi start) k avg_dl) [
      | none ↦ none
      | some heap ↦ elim (local_heaps c starts k avg_dl rs) [
        | none ↦ none
        | some heaps ↦ some (heap ∷ heaps)
      ]
    ]
  ]

  unfoldable pub single_in_ranges : ℕ → TermCursor F → ℕ → F → Option (CandidateSet F)
  unfolding ranges_from local_heaps block_starts push_all heap_to_candidates above
  single_in_ranges workers c k avg_dl =
      let ranges = ranges_from workers 0 (div_ceil c.num_blocks workers) c.num_blocks in
      elim (local_heaps c (block_starts fl bytes c) k avg_dl ranges) [
        | none ↦ none
        | some heaps ↦
            some (heap_to_candidates partial_cmp (push_all (above partial_cmp) k [] (concat heaps)))
      ]

  -- `single_term_topk`, with so many threads.
  unfoldable pub single_term_topk : ℕ → TermCursor F → ℕ → F → Option (CandidateSet F)
  unfolding single_in_ranges score_range_into_heap heap_to_candidates
  single_term_topk threads c k avg_dl =
      let workers = max (min threads (c.num_blocks / min_blocks_per_worker)) 1 in
      let sequential : Option (CandidateSet F) = elim (score_range_into_heap c k avg_dl) [
        | none ↦ none
        | some heap ↦ some (heap_to_candidates partial_cmp heap)
      ] in
      if leb c.num_blocks parallel_block_threshold
      then sequential
      else (if leb workers 1 then sequential else single_in_ranges workers c k avg_dl)

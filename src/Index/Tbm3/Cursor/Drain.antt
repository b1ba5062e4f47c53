-- ===== src/Index/Tbm3/Cursor/Drain.antt =====
-- A cursor over postings that were written sees their documents block by block.
use toradb.Prelude.{
  ℕ, zero, suc, ◌+◌, ◌^◌, ◌<◌, ◌≤◌, ◌≡◌, refl, sym, ap, ◌∙◌, Bool, true, Option, none, some, List,
  [], ◌∷◌, ◌++◌, take, ltb, concat, length, length-append, ok, arith, append_assoc,
}
use Prim.Native.Nat.{Ordering}
use mathlib.Core.Path.{subst}
use toradb.Index.Bytes.{Bytes}
use toradb.Index.Tbm3.Postings.{
  Float, Posting, BlockHeader, read_block_header, block_at, encode_block, encode_blocks, last_id,
  tf_payload,
}
use toradb.Index.Tbm3.Postings.Gaps.{FitsFrom, FitsFrom-append, last_id-FitsFrom}
use toradb.Index.Tbm3.Postings.Header.{header_at}
use toradb.Index.Tbm3.Postings.Blocks.{
  KeepsBytes, header_of, docid_payload, read_block_header-encode_block, block_at-encode_block,
  length-encode_block,
}
use toradb.Index.Tbm3.Postings.Chunks.{AreShort}
use toradb.Index.Tbm3.TopK.Insert.{push_all-append}
use toradb.Index.Tbm3.TopK.{ScoredDoc, above, push_all}
use toradb.Index.Tbm3.Cursor.{
  TermCursor, decode_current_block, advance_block, header_if, scored, score_blocks,
}

module _ {F : Type 0} (fl : Float F) (bytes : Bytes) where
  -- The blocks of a file from an offset on: each has a header that says where it ends and with
  -- which id, and its documents.
  pub data Blocks : ℕ → ℕ → List (List Posting) → Type 0 where
    done : {off prev : ℕ} → Blocks off prev []
    next :
        {off prev : ℕ} {docs : List Posting} {rest : List (List Posting)} (h : BlockHeader F)
        → read_block_header fl bytes off ≡ ok h
        → block_at fl bytes prev h ≡ ok (docs, h.block_last_docid)
        → Blocks h.next_block_off h.block_last_docid rest
        → Blocks off prev (docs ∷ rest)

module _ {F : Type 0} (fl : Float F) (keeps : KeepsBytes fl) (avg_dl : F) where
  pub encode_blocks-Blocks :
      (cs : List (List Posting)) (pre rest : Bytes) (prev : ℕ)
      → prev < 2 ^ 64
      → FitsFrom prev (concat cs)
      → AreShort cs
      → Blocks fl (pre ++ (encode_blocks fl avg_dl prev cs ++ rest)) (length pre) prev cs
  unfolding encode_blocks header_at
  encode_blocks-Blocks [] pre rest prev small fits short = Blocks.done
  encode_blocks-Blocks (c ∷ cs) pre rest prev small fits (short, shorts) =
      let parts = FitsFrom-append prev c (concat cs) fits in
      let last = last_id prev c in
      let later = encode_blocks fl avg_dl last cs in
      let block = encode_block fl avg_dl prev c in
      let bytes = pre ++ (block ++ (later ++ rest)) in
      let header =
        read_block_header-encode_block fl keeps avg_dl pre (later ++ rest) prev c small (parts.0)
          short in
      let docs =
        block_at-encode_block fl keeps avg_dl pre (later ++ rest) prev c small (parts.0) short in
      let again =
        encode_blocks-Blocks cs (pre ++ block) rest last (last_id-FitsFrom prev c small (parts.0))
          (parts.1) shorts in
      let following : length (pre ++ block)
          ≡ length pre + 25 + length (docid_payload prev c) + length (tf_payload c) =
        omega (arith, length-append pre block, length-encode_block fl keeps avg_dl prev c) in
      let tail : Blocks fl bytes
          (length pre + 25 + length (docid_payload prev c) + length (tf_payload c)) last cs =
        subst (λ (off : ℕ). Blocks fl bytes off last cs) following
          (subst (λ (bs : Bytes). Blocks fl bs (length (pre ++ block)) last cs)
            (append_assoc pre block (later ++ rest)) again) in
      subst (λ (bs : Bytes). Blocks fl (pre ++ bs) (length pre) prev (c ∷ cs))
        (sym (append_assoc block later rest))
        (Blocks.next (header_of fl keeps avg_dl (length pre) prev c) header docs tail)

module _ {F : Type 0} (fl : Float F) (idf avg_dl : F) where
  pub scored-append :
      (xs ys : List Posting)
      → scored fl idf avg_dl (xs ++ ys) ≡ scored fl idf avg_dl xs ++ scored fl idf avg_dl ys
  unfolding scored
  scored-append [] ys = refl
  scored-append (x ∷ xs) ys =
      ap (λ (l : List (ScoredDoc F)). scored fl idf avg_dl (x ∷ []) ++ l) (scored-append xs ys)

-- A cursor at a block, before it is decoded.
abbrev pub before : {F : Type 0} → F → ℕ → ℕ → ℕ → ℕ → Option (BlockHeader F) → ℕ → TermCursor F
before idf total num idx off header prev = record {
  total_docs = total;
  num_blocks = num;
  block_idx = idx;
  next_block_off = off;
  current_header = header;
  decoded = none;
  prev_doc = prev;
  idf = idf;
}

module _ {F : Type 0} (fl : Float F) (partial_cmp : F → F → Option Ordering) (bytes : Bytes)
    (idf avg_dl : F) where
  one_block :
      (turns k total num idx : ℕ) (heap : List (ScoredDoc F)) (off prev : ℕ) (h : BlockHeader F)
      (docs : List Posting)
      → block_at fl bytes prev h ≡ ok (docs, h.block_last_docid)
      → score_blocks fl partial_cmp bytes
          (suc turns)
          k
          avg_dl
          heap
          (before idf total num idx off (some h) prev)
        ≡ score_blocks fl partial_cmp bytes turns k avg_dl
            (push_all (above partial_cmp) k heap (scored fl idf avg_dl docs))
            (before idf total num
              (suc idx)
              h.next_block_off
              (header_if fl bytes (ltb (suc idx) num) h.next_block_off)
              h.block_last_docid)
  unfolding score_blocks decode_current_block advance_block
  one_block turns k total num idx heap off prev h docs at = rw (score_blocks, at) refl

  pub score_blocks-before :
      (turns k total idx : ℕ) (heap : List (ScoredDoc F)) {off prev : ℕ} {cs : List (List Posting)}
      → Blocks fl bytes off prev cs
      → turns ≤ length cs
      → score_blocks fl partial_cmp bytes turns k avg_dl heap
          (before idf total (idx + turns) idx off (header_if fl bytes (ltb 0 turns) off) prev)
        ≡ some (push_all (above partial_cmp) k heap (scored fl idf avg_dl (concat (take turns cs))))
  unfolding score_blocks push_all scored
  score_blocks-before zero k total idx heap blocks h = refl
  score_blocks-before (suc turns) k total idx heap Blocks.done h = absurd (omega arith)
  score_blocks-before (suc turns) k total idx heap
        (Blocks.next {off = off} {prev = prev} {docs = docs} {rest = rest} h read at more) few =
      let heap' = push_all (above partial_cmp) k heap (scored fl idf avg_dl docs) in
      let e : idx + suc turns ≡ suc idx + turns = omega arith in
      let there : ltb (suc idx) (suc idx + turns) ≡ ltb 0 turns = ground arith in
      let some_turn : ltb 0 (suc turns) ≡ true = ground arith in
      let header : header_if fl bytes (ltb 0 (suc turns)) off ≡ some h =
        unfold header_if in rw (some_turn, read) refl in
      rw (header, e)
        (one_block turns k total (suc idx + turns) idx heap off prev h docs at
          ∙ ap
              (λ (b : Bool). score_blocks fl partial_cmp bytes turns k avg_dl heap' (
                before idf total (suc idx + turns) (suc idx) h.next_block_off
                  (header_if fl bytes b h.next_block_off) h.block_last_docid))
              there
          ∙ score_blocks-before turns k total (suc idx) heap' more (omega arith)
          ∙ ap some (
              sym (
                push_all-append (above partial_cmp) k (scored fl idf avg_dl docs)
                  (scored fl idf avg_dl (concat (take turns rest))) heap)
              ∙ ap (push_all (above partial_cmp) k heap)
                  (sym (scored-append fl idf avg_dl docs (concat (take turns rest))))))

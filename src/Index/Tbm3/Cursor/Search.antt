-- ===== src/Index/Tbm3/Cursor/Search.antt =====
-- The search for a single term in postings that were written.
use toradb.Prelude.{
  ℕ, suc, ◌+◌, ◌^◌, ◌<◌, ◌≡◌, refl, sym, ap, ◌∙◌, true, false, some, List, [], ◌∷◌, ◌++◌, take, ltb,
  Option, concat, length, chunks, arith, ok, ◌>>=◌,
}
use Prim.Native.Nat.{Ordering}
use mathlib.Core.Path.{subst}
use toradb.Core.Candidate.{empty}
use toradb.Index.Bytes.{Bytes, le_bytes, from_le, slice}
use toradb.Index.Tbm3.Postings.{Float, Posting, in_order, posting_blob, block_size, idf_of}
use toradb.Index.Tbm3.Postings.Gaps.{FitsFrom}
use toradb.Index.Tbm3.Postings.Blocks.{KeepsBytes}
use toradb.Index.Tbm3.Postings.Chunks.{
  concat-chunks_within, chunks_within-AreShort, length-chunks_within,
}
use toradb.Index.Tbm3.Postings.RoundTrip.{counts_lem}
use toradb.Index.Tbm3.TopK.{above, best_first, push_docs}
use toradb.Index.Tbm3.TopK.Insert.{IsLinear}
use toradb.Index.Tbm3.Cursor.{open_cursor, header_if, scored, single_term_topk}
use toradb.Index.Tbm3.Cursor.Drain.{Blocks, encode_blocks-Blocks}
use toradb.Index.Tbm3.Cursor.Single.{first_cursor, single_term_topk-Blocks}

module _ {F : Type 0} (fl : Float F) (partial_cmp : F → F → Option Ordering) (avg_dl : F) where
  open_cursor-Blocks :
      (bytes : Bytes) (base df num_docs k : ℕ) {cs : List (List Posting)}
      (blocks : Blocks fl bytes (base + 8) 0 cs)
      → ltb (length bytes) (base + 8) ≡ false
      → from_le (slice (base + 4) 4 bytes) ≡ length cs
      → open_cursor fl bytes base df num_docs
        ≡ ok (
            first_cursor fl partial_cmp bytes
              (idf_of fl num_docs df)
              avg_dl
              (from_le (slice base 4 bytes))
              k
              (base + 8)
              blocks)
  unfolding open_cursor header_if
  open_cursor-Blocks bytes base df num_docs k {cs = []} blocks room number = rw (room, number) refl
  open_cursor-Blocks bytes base df num_docs k {cs = c ∷ cs} (Blocks.next h read at more) room
        number =
      let there : ltb 0 (suc (length cs)) ≡ true = ground arith in
      rw (room, number, there, read) refl

  -- For postings that were written anywhere in a file, where a float is four bytes that give it
  -- back, the ids are in order with gaps below 2 ^ 32, the frequencies are from 1 to 2 ^ 32 - 1,
  -- and documents are ordered linearly by score and id: the cursor opens, and with any number of
  -- threads the search for the single term returns what sorting the scores of all its documents
  -- and taking the first k gives.
  pub single_term_topk-posting_blob :
      (keeps : KeepsBytes fl) (linear : IsLinear (above partial_cmp)) (posts : List Posting)
      (pre rest : Bytes) (df num_docs k threads : ℕ)
      → FitsFrom 0 (in_order posts)
      → length (in_order posts) < 2 ^ 32
      → let bytes = pre ++ (posting_blob fl avg_dl posts ++ rest) in
        let scores = scored fl (idf_of fl num_docs df) avg_dl (in_order posts) in
        (open_cursor fl bytes (length pre) df num_docs >>= λ c.
        ok (single_term_topk fl partial_cmp bytes threads c k avg_dl))
        ≡ ok (some (push_docs (take k (best_first (above partial_cmp) scores)) empty))
  unfolding posting_blob chunks
  single_term_topk-posting_blob keeps linear posts pre rest df num_docs k threads fits few =
      let docs = in_order posts in
      let n = length docs in
      let cs = chunks block_size docs in
      let size : length cs < 2 ^ 32 = omega (arith, length-chunks_within n block_size docs) in
      let joined : concat cs ≡ docs =
        concat-chunks_within n block_size docs (omega arith) (omega arith) in
      let (whole, position, room, number) = counts_lem fl keeps avg_dl cs n pre rest size in
      let bytes = pre ++ (posting_blob fl avg_dl posts ++ rest) in
      let counts = le_bytes 4 n ++ le_bytes 4 (length cs) in
      let written =
        encode_blocks-Blocks fl keeps avg_dl cs (pre ++ counts) rest 0 (omega arith)
          (rw joined fits) (chunks_within-AreShort n docs) in
      let blocks : Blocks fl bytes (length pre + 8) 0 cs =
        subst (λ (off : ℕ). Blocks fl bytes off 0 cs) position
          (subst (λ (bs : Bytes). Blocks fl bs (length (pre ++ counts)) 0 cs) (sym whole)
            written) in
      let idf = idf_of fl num_docs df in
      rw (open_cursor-Blocks bytes (length pre) df num_docs k blocks room number) (
        ap ok (
          single_term_topk-Blocks fl partial_cmp bytes idf avg_dl
            (from_le (slice (length pre) 4 bytes)) k (length pre + 8) blocks linear threads)
        ∙ ap
            (λ (ds : List Posting). ok (
              some (
                push_docs (take k (best_first (above partial_cmp) (scored fl idf avg_dl ds)))
                  empty)))
            joined)

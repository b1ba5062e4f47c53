-- ===== src/Index/Tbm3/Segment/Tests.antt =====
-- A segment of two terms, the document frequency of one given.
use toradb.Prelude.{
  ◌%◌, ◌^◌, ◌<◌, ◌≡◌, [], ◌∷◌, arith, length, Text, text, text_eq, none, some, ok, sort,
  put_in_order, chunks, chunks_within,
}
use toradb.Collections.Dict.{lookup, keys}
use toradb.Index.Bytes.{le_bytes}
use toradb.Index.Tbm3.Varbyte.{varbyte_encode, varbyte_within}
use toradb.Index.Tbm3.Bitpack.{bits_needed, bits_within, bitpack, pack_loop, flush, flush_within}
use toradb.Index.Tbm3.Postings.{
  in_order, posting_blob, encode_blocks, encode_block, deltas_from, tf_payload, largest,
  header_bytes,
}
use toradb.Index.Tbm3.Postings.Tests.{Four, fixed, fixed-KeepsBytes, avg, some_posts}
use toradb.Index.Tbm3.Segment.{
  Snapshot, encode_tbm3, snapshot_from_tbm3, text_after, or_else, df_of, posts_of, blob_of,
}
use toradb.Index.Tbm3.Segment.Dictionary.{EntriesFit}
use toradb.Index.Tbm3.Segment.Loading.{PostingsFit}
use toradb.Index.Tbm3.Segment.RoundTrip.{sorted_terms, snapshot_from_tbm3-encode_tbm3}

abbrev two_terms : Snapshot Four
two_terms = record {
  postings = (text "zebra", some_posts) ∷ (text "apple", (7, 3) ∷ []) ∷ [];
  doc_len = [];
  doc_freq = (text "zebra", 5) ∷ [];
  num_docs = 4;
  avg_dl = avg;
}

few_terms : length (sorted_terms two_terms) < 2 ^ 32
unfolding sort put_in_order keys text_after
few_terms = omega arith

two_terms-EntriesFit : EntriesFit fixed two_terms 0 (sorted_terms two_terms)
unfolding sort put_in_order keys text_after lookup df_of posts_of blob_of posting_blob in_order
    chunks chunks_within encode_blocks encode_block header_bytes le_bytes deltas_from tf_payload
    largest bitpack pack_loop flush flush_within varbyte_encode varbyte_within bits_needed
    bits_within
two_terms-EntriesFit =
    ((omega arith, omega arith, omega arith), ((omega arith, omega arith, omega arith), _))

two_terms-PostingsFit : PostingsFit fixed two_terms (sorted_terms two_terms)
unfolding sort put_in_order keys text_after lookup posts_of in_order
two_terms-PostingsFit = (
  (((omega arith, omega arith, omega arith, omega arith, omega arith), _), omega arith),
  ((
    (
      (
        (omega arith, omega arith, omega arith, omega arith, omega arith),
        (
          (omega arith, omega arith, omega arith, omega arith, omega arith),
          ((omega arith, omega arith, omega arith, omega arith, omega arith), _),
        ),
      ),
      omega arith,
    ),
    _,
  )),
)

snapshot_from_tbm3-encode_tbm3_example :
    (s : Snapshot Four) × (snapshot_from_tbm3 fixed (encode_tbm3 fixed two_terms) ≡ ok s)
    × ((t : Text)
        → lookup t s.postings
          ≡ elim (lookup t two_terms.postings) [ none ↦ none | some ps ↦ some (in_order ps) ])
    × ((t : Text)
        → lookup t s.doc_freq ≡ elim (lookup t two_terms.postings) [
          | none ↦ none
          | some ps ↦ some (or_else (lookup t two_terms.doc_freq) (length ps % 2 ^ 32))
        ])
    × (s.num_docs ≡ 4)
    × (s.avg_dl ≡ avg)
snapshot_from_tbm3-encode_tbm3_example =
    snapshot_from_tbm3-encode_tbm3 fixed fixed-KeepsBytes two_terms few_terms (omega arith)
      two_terms-EntriesFit two_terms-PostingsFit

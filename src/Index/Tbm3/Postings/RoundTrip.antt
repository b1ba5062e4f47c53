-- ===== src/Index/Tbm3/Postings/RoundTrip.antt =====
-- A posting list that is written is read back.
use toradb.Prelude.{
  ℕ, suc, ◌+◌, ◌%◌, ◌^◌, ◌<◌, ◌≡◌, refl, sym, ap, ◌∙◌, false, List, [], ◌∷◌, ◌++◌, ltb, length,
  length-append, arith, ok, concat, append_assoc, append-nil, map, chunks,
}
use mathlib.Core.Path.{subst}
use toradb.Index.Bytes.{Bytes, le_bytes, from_le, slice, from_le-le_bytes_4}
use toradb.Index.Tbm3.Postings.{
  Float, Posting, in_order, last_id, block_max, encode_block, encode_blocks, posting_blob,
  TermPostings, with_block, parse_blocks, BlockHeader, read_block_header, block_at, tf_payload,
  parse_postings, block_size, idf_of,
}
use toradb.Index.Tbm3.Postings.Gaps.{FitsFrom, FitsFrom-append, last_id-FitsFrom}
use toradb.Index.Tbm3.Postings.Header.{header_at, slice-skip}
use toradb.Index.Tbm3.Postings.Blocks.{
  KeepsBytes, read_block_header-encode_block, block_at-encode_block, length-encode_block,
  docid_payload,
}
use toradb.Index.Tbm3.Postings.Chunks.{
  AreShort, concat-chunks_within, length-chunks_within, chunks_within-AreShort,
}

module _ {F : Type 0} (fl : Float F) (avg_dl : F) where
  with_blocks : TermPostings F → List (List Posting) → TermPostings F
  with_blocks p [] = p
  with_blocks p (c ∷ cs) = with_blocks (with_block fl p c (block_max fl avg_dl (fl.of_nat 0) c)) cs

module _ {F : Type 0} (fl : Float F) (keeps : KeepsBytes fl) (avg_dl : F) where
  next_block :
      (n : ℕ) (bytes : Bytes) (pos prev : ℕ) (p : TermPostings F) (h : BlockHeader F)
      (docs : List Posting) (last : ℕ)
      → read_block_header fl bytes pos ≡ ok h
      → block_at fl bytes prev h ≡ ok (docs, last)
      → parse_blocks fl (suc n) bytes pos prev p
        ≡ parse_blocks fl n bytes h.next_block_off last (with_block fl p docs h.block_max_tf)
  unfolding parse_blocks
  next_block n bytes pos prev p h docs last e d = rw (parse_blocks, e, d)

  parse_blocks-encode_blocks :
      (cs : List (List Posting)) (pre rest : Bytes) (prev : ℕ) (p : TermPostings F)
      → prev < 2 ^ 64
      → FitsFrom prev (concat cs)
      → AreShort cs
      → parse_blocks fl
          (length cs)
          (pre ++ (encode_blocks fl avg_dl prev cs ++ rest))
          (length pre)
          prev
          p
        ≡ ok (with_blocks fl avg_dl p cs)
  unfolding parse_blocks encode_blocks with_blocks header_at
  parse_blocks-encode_blocks [] pre rest prev p small fits short = refl
  parse_blocks-encode_blocks (c ∷ cs) pre rest prev p small fits (short, shorts) =
      let parts = FitsFrom-append prev c (concat cs) fits in
      let later = encode_blocks fl avg_dl (last_id prev c) cs in
      let block = encode_block fl avg_dl prev c in
      let bytes = pre ++ (block ++ (later ++ rest)) in
      let header =
        read_block_header-encode_block fl keeps avg_dl pre (later ++ rest) prev c small (parts.0)
          short in
      let docs =
        block_at-encode_block fl keeps avg_dl pre (later ++ rest) prev c small (parts.0) short in
      let whole = append_assoc block later rest in
      let again =
        parse_blocks-encode_blocks cs (pre ++ block) rest (last_id prev c)
          (with_block fl p c (block_max fl avg_dl (fl.of_nat 0) c))
          (last_id-FitsFrom prev c small (parts.0)) (parts.1) shorts in
      let assoc = append_assoc pre block (later ++ rest) in
      let p' = with_block fl p c (block_max fl avg_dl (fl.of_nat 0) c) in
      let n = length cs in
      let last = last_id prev c in
      let next : length (pre ++ block)
          ≡ length pre + 25 + length (docid_payload prev c) + length (tf_payload c) =
        omega (arith, length-append pre block, length-encode_block fl keeps avg_dl prev c) in
      ap (λ (bs : Bytes). parse_blocks fl (suc n) (pre ++ bs) (length pre) prev p) whole
      ∙ next_block n bytes (length pre) prev p _ c last header docs
      ∙ (subst (λ (pos : ℕ). parse_blocks fl n bytes pos last p' ≡ ok (with_blocks fl avg_dl p' cs))
          next
          (subst
            (λ (bs : Bytes).
              parse_blocks fl n bs (length (pre ++ block)) last p'
              ≡ ok (with_blocks fl avg_dl p' cs))
            assoc again))

-- The number of documents up to the end of every block.
abbrev pub ends_from : ℕ → List (List Posting) → List ℕ
ends_from n [] = []
ends_from n (c ∷ cs) = (n + length c) % 2 ^ 32 ∷ ends_from (n + length c) cs

module _ {F : Type 0} (fl : Float F) (avg_dl : F) where
  docs-with_blocks :
      (p : TermPostings F) (cs : List (List Posting))
      → (with_blocks fl avg_dl p cs).docs ≡ p.docs ++ concat cs
  unfolding with_blocks
  docs-with_blocks p [] = sym (append-nil p.docs)
  docs-with_blocks p (c ∷ cs) =
      docs-with_blocks (with_block fl p c (block_max fl avg_dl (fl.of_nat 0) c)) cs
      ∙ append_assoc p.docs c (concat cs)

  block_max_tf-with_blocks :
      (p : TermPostings F) (cs : List (List Posting))
      → (with_blocks fl avg_dl p cs).block_max_tf
        ≡ p.block_max_tf ++ map (λ (c : List Posting). block_max fl avg_dl (fl.of_nat 0) c) cs
  unfolding with_blocks
  block_max_tf-with_blocks p [] = sym (append-nil p.block_max_tf)
  block_max_tf-with_blocks p (c ∷ cs) =
      let best = block_max fl avg_dl (fl.of_nat 0) c in
      block_max_tf-with_blocks (with_block fl p c best) cs
      ∙ append_assoc p.block_max_tf (best ∷ []) _

  block_ends-with_blocks :
      (p : TermPostings F) (cs : List (List Posting))
      → (with_blocks fl avg_dl p cs).block_ends ≡ p.block_ends ++ ends_from (length p.docs) cs
  unfolding with_blocks
  block_ends-with_blocks p [] = sym (append-nil p.block_ends)
  block_ends-with_blocks p (c ∷ cs) =
      let best = block_max fl avg_dl (fl.of_nat 0) c in
      block_ends-with_blocks (with_block fl p c best) cs
      ∙ append_assoc p.block_ends (length (p.docs ++ c) % 2 ^ 32 ∷ []) _
      ∙ ap (λ (n : ℕ). p.block_ends ++ (n % 2 ^ 32 ∷ ends_from n cs)) (length-append p.docs c)

module _ {F : Type 0} (fl : Float F) (keeps : KeepsBytes fl) (avg_dl : F) where
  -- The two counts, and the blocks behind them.
  pub counts_lem :
      (cs : List (List Posting)) (n : ℕ) (pre rest : Bytes)
      → length cs < 2 ^ 32
      → let counts = le_bytes 4 n ++ le_bytes 4 (length cs) in
        let blocks = encode_blocks fl avg_dl 0 cs in
        let bytes = pre ++ ((le_bytes 4 n ++ (le_bytes 4 (length cs) ++ blocks)) ++ rest) in
        (bytes ≡ (pre ++ counts) ++ (blocks ++ rest))
        × (length (pre ++ counts) ≡ length pre + 8)
        × (ltb (length bytes) (length pre + 8) ≡ false)
        × (from_le (slice (length pre + 4) 4 bytes) ≡ length cs)
  unfolding le_bytes slice
  counts_lem cs n pre rest few =
      let counts = le_bytes 4 n ++ le_bytes 4 (length cs) in
      let blocks = encode_blocks fl avg_dl 0 cs ++ rest in
      (
        sym (append_assoc pre counts blocks),
        length-append pre counts,
        ground (arith, length-append pre (counts ++ blocks)),
        ap from_le (slice-skip pre (counts ++ blocks) 4 4) ∙ from_le-le_bytes_4 (length cs) few,
      )

  parse_postings-counts :
      (cs : List (List Posting)) (n : ℕ) (pre rest : Bytes) (num_docs df : ℕ)
      → length cs < 2 ^ 32
      → let counts = le_bytes 4 n ++ le_bytes 4 (length cs) in
        parse_postings fl
          (pre
            ++ ((le_bytes 4 n ++ (le_bytes 4 (length cs) ++ encode_blocks fl avg_dl 0 cs)) ++ rest))
          (length pre)
          num_docs
          df
        ≡ parse_blocks fl
            (length cs)
            ((pre ++ counts) ++ (encode_blocks fl avg_dl 0 cs ++ rest))
            (length (pre ++ counts))
            0
            (record { docs = []; block_ends = []; block_max_tf = []; idf = idf_of fl num_docs df })
  unfolding parse_postings
  parse_postings-counts cs n pre rest num_docs df few =
      let (whole, position, room, number) = counts_lem cs n pre rest few in
      rw (room, number, ← whole, position)

  -- Under the same conditions on floats and postings, the postings that are written anywhere in a
  -- file are read from there: the documents in order, the number of documents up to the end of
  -- each block of 128, and the best component of each block.
  pub parse_postings-posting_blob :
      (posts : List Posting) (pre rest : Bytes) (num_docs df : ℕ)
      → FitsFrom 0 (in_order posts)
      → length (in_order posts) < 2 ^ 32
      → (p : TermPostings F) × (parse_postings fl
            (pre ++ (posting_blob fl avg_dl posts ++ rest))
            (length pre)
            num_docs
            df
          ≡ ok p)
        × (p.docs ≡ in_order posts)
        × (p.block_ends ≡ ends_from 0 (chunks block_size (in_order posts)))
        × (p.block_max_tf
            ≡ map
                (λ (c : List Posting). block_max fl avg_dl (fl.of_nat 0) c)
                (chunks block_size (in_order posts)))
  unfolding posting_blob chunks
  parse_postings-posting_blob posts pre rest num_docs df fits few =
      let cs = chunks block_size (in_order posts) in
      let joined : concat cs ≡ in_order posts =
        concat-chunks_within (length (in_order posts)) block_size (in_order posts) (omega arith)
          (omega arith) in
      let p : TermPostings F = record {
        docs = [];
        block_ends = [];
        block_max_tf = [];
        idf = idf_of fl num_docs df;
      } in
      (
        with_blocks fl avg_dl p cs,
        ap (λ (bs : Bytes). parse_postings fl (pre ++ (bs ++ rest)) (length pre) num_docs df) refl
            ∙ parse_postings-counts cs (length (in_order posts)) pre rest num_docs df (
                omega (
                  arith,
                  length-chunks_within (length (in_order posts)) block_size (in_order posts),
                ))
            ∙ parse_blocks-encode_blocks fl keeps avg_dl cs _ rest 0 p (omega arith)
                (rw joined fits)
                (chunks_within-AreShort (length (in_order posts)) (in_order posts)),
        docs-with_blocks fl avg_dl p cs ∙ joined,
        block_ends-with_blocks fl avg_dl p cs,
        block_max_tf-with_blocks fl avg_dl p cs,
      )

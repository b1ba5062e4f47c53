-- ===== src/Index/Tbm3/Postings/Blocks.antt =====
-- A block that is written is read back.
use toradb.Prelude.{
  ℕ, ◌+◌, ◌-◌, ◌^◌, ◌≤◌, ◌<◌, ◌≡◌, refl, ap, ◌∙◌, false, some, List, [], ◌++◌, ltb, length,
  length-append, arith, ok, append_assoc, append-nil,
}
use mathlib.Core.Path.{subst}
use toradb.Index.Bytes.{Bytes, slice}
use toradb.Index.Tbm3.Bitpack.{bits_needed, bitpack}
use toradb.Index.Tbm3.Bitpack.Sizes.{length-bitpack, bits_needed_lem}
use toradb.Index.Tbm3.Postings.{
  Float, Posting, deltas_from, tf_payload, largest, last_id, block_docs, block_max, encode_block,
  read_block_header, block_at, BlockHeader,
}
use toradb.Index.Tbm3.Postings.Header.{
  header_at, laid_out, header_bytes-laid_out, read_block_header-laid_out, slice_at, slice-laid_out,
  length-laid_out,
}
use toradb.Index.Tbm3.Postings.Gaps.{
  FitsFrom, bitunpack-deltas_from, block_docs-deltas_from, length-tf_payload, length-deltas_from,
  last_id-FitsFrom, largest-deltas_from,
}

-- Four bytes hold a float, and give it back.
abbrev pub KeepsBytes : {F : Type 0} → Float F → Type 0
KeepsBytes {F = F} fl =
    ((x : F) → length (fl.to_le_bytes x) ≡ 4) × ((x : F) → fl.from_le_bytes (fl.to_le_bytes x) ≡ x)

abbrev pub docid_payload : ℕ → List Posting → Bytes
docid_payload prev chunk =
    bitpack (deltas_from prev chunk) (bits_needed (largest (deltas_from prev chunk)))

length-docid_payload :
    (prev : ℕ) (chunk : List Posting)
    → length chunk ≤ 128
    → length (docid_payload prev chunk) < 1000
length-docid_payload prev chunk k =
    let deltas = deltas_from prev chunk in
    length-bitpack (bits_needed (largest deltas)) deltas
      ((bits_needed_lem (largest deltas) (largest-deltas_from prev chunk)).1)
      (omega (arith, length-deltas_from prev chunk))

block_docs-whole :
    (prev : ℕ) (xs : List Posting)
    → FitsFrom prev xs
    → block_docs prev (deltas_from prev xs) (tf_payload xs) ≡ some (xs, last_id prev xs)
block_docs-whole prev xs h =
    subst (λ (bs : Bytes). block_docs prev (deltas_from prev xs) bs ≡ some (xs, last_id prev xs))
      (append-nil (tf_payload xs)) (block_docs-deltas_from prev xs [] h)

module _ {F : Type 0} (fl : Float F) (keeps : KeepsBytes fl) (avg_dl : F) where
  abbrev pub header_of : ℕ → ℕ → List Posting → BlockHeader F
  header_of pos prev chunk =
      header_at fl pos (last_id prev chunk) (length chunk) (block_max fl avg_dl (fl.of_nat 0) chunk)
        (bits_needed (largest (deltas_from prev chunk))) (length (docid_payload prev chunk))
        (length (tf_payload chunk))

  module _ (pre tail : Bytes) (prev : ℕ) (chunk : List Posting) (small : prev < 2 ^ 64)
      (fits : FitsFrom prev chunk) (short : length chunk ≤ 128) where
    encode_block-laid_out :
        pre ++ (encode_block fl avg_dl prev chunk ++ tail)
        ≡ pre
          ++ laid_out fl
              (last_id prev chunk)
              (length chunk)
              (fl.to_le_bytes (block_max fl avg_dl (fl.of_nat 0) chunk))
              (bits_needed (largest (deltas_from prev chunk)))
              (length (docid_payload prev chunk))
              (length (tf_payload chunk))
              (docid_payload prev chunk ++ (tf_payload chunk ++ tail))
    unfolding encode_block
    encode_block-laid_out =
        ap (λ (bs : Bytes). pre ++ bs)
          (append_assoc _ (docid_payload prev chunk ++ tf_payload chunk) tail
            ∙ header_bytes-laid_out fl (last_id prev chunk) (length chunk)
                (bits_needed (largest (deltas_from prev chunk))) (length (docid_payload prev chunk))
                (length (tf_payload chunk)) (block_max fl avg_dl (fl.of_nat 0) chunk)
                ((docid_payload prev chunk ++ tf_payload chunk) ++ tail)
            ∙ ap
                (λ (bs : Bytes).
                  laid_out fl (last_id prev chunk) (length chunk)
                    (fl.to_le_bytes (block_max fl avg_dl (fl.of_nat 0) chunk))
                    (bits_needed (largest (deltas_from prev chunk)))
                    (length (docid_payload prev chunk)) (length (tf_payload chunk)) bs)
                (append_assoc (docid_payload prev chunk) (tf_payload chunk) tail))

    pub read_block_header-encode_block :
        read_block_header fl (pre ++ (encode_block fl avg_dl prev chunk ++ tail)) (length pre)
        ≡ ok (header_of (length pre) prev chunk)
    read_block_header-encode_block =
        let best = block_max fl avg_dl (fl.of_nat 0) chunk in
        let bytes = docid_payload prev chunk ++ (tf_payload chunk ++ tail) in
        let last = last_id-FitsFrom prev chunk small fits in
        let docids = length-docid_payload prev chunk short in
        let tfs = length-tf_payload chunk in
        let long : length (docid_payload prev chunk) + length (tf_payload chunk) ≤ length bytes =
          omega (
            arith,
            length-append (docid_payload prev chunk) (tf_payload chunk ++ tail),
            length-append (tf_payload chunk) tail,
          ) in
        ap (λ (bs : Bytes). read_block_header fl bs (length pre)) encode_block-laid_out
        ∙ read_block_header-laid_out fl pre bytes (last_id prev chunk) (length chunk)
            (bits_needed (largest (deltas_from prev chunk))) (length (docid_payload prev chunk))
            (length (tf_payload chunk)) best (keeps.0 best) (keeps.1 best) last (omega arith)
            (omega arith) (omega arith) long

    -- The payloads follow the header of 25 bytes.
    slice-encode_block :
        (k n : ℕ)
        → slice (length pre + 25 + k) n (pre ++ (encode_block fl avg_dl prev chunk ++ tail))
          ≡ slice k n (docid_payload prev chunk ++ (tf_payload chunk ++ tail))
    slice-encode_block k n =
        let best = block_max fl avg_dl (fl.of_nat 0) chunk in
        ap (λ (bs : Bytes). slice (length pre + 25 + k) n bs) encode_block-laid_out
        ∙ slice-laid_out fl pre (fl.to_le_bytes best)
            (docid_payload prev chunk ++ (tf_payload chunk ++ tail)) (last_id prev chunk)
            (length chunk) (bits_needed (largest (deltas_from prev chunk)))
            (length (docid_payload prev chunk)) (length (tf_payload chunk)) (keeps.0 best) k n

    read_docids :
        slice
          (length pre + 25)
          (length (docid_payload prev chunk))
          (pre ++ (encode_block fl avg_dl prev chunk ++ tail))
        ≡ docid_payload prev chunk
    read_docids =
        let start : length pre + 25 ≡ length pre + 25 + 0 = omega arith in
        ap
          (λ (pos : ℕ).
            slice pos (length (docid_payload prev chunk))
              (pre ++ (encode_block fl avg_dl prev chunk ++ tail)))
          start
        ∙ slice-encode_block 0 (length (docid_payload prev chunk))
        ∙ slice_at [] (docid_payload prev chunk) (tf_payload chunk ++ tail) 0 _ refl refl

    read_tfs :
        slice
          (length pre + 25 + length (docid_payload prev chunk))
          (length (tf_payload chunk))
          (pre ++ (encode_block fl avg_dl prev chunk ++ tail))
        ≡ tf_payload chunk
    read_tfs =
        slice-encode_block (length (docid_payload prev chunk)) (length (tf_payload chunk))
        ∙ slice_at (docid_payload prev chunk) (tf_payload chunk) tail _ _ refl refl

    pub block_at-encode_block :
        block_at fl
          (pre ++ (encode_block fl avg_dl prev chunk ++ tail))
          prev
          (header_of (length pre) prev chunk)
        ≡ ok (chunk, last_id prev chunk)
    unfolding block_at header_at
    block_at-encode_block =
        let docids = length (docid_payload prev chunk) in
        let tfs = length (tf_payload chunk) in
        let width : length pre + 25 + docids + tfs - (length pre + 25) - tfs ≡ docids =
          omega arith in
        let count : ltb 128 (length chunk) ≡ false = ground arith in
        rw (width, read_docids, read_tfs, count, bitunpack-deltas_from prev chunk short)
          (rw (block_docs-whole prev chunk fits) refl)

  pub length-encode_block :
      (prev : ℕ) (chunk : List Posting)
      → length (encode_block fl avg_dl prev chunk)
        ≡ 25 + length (docid_payload prev chunk) + length (tf_payload chunk)
  unfolding encode_block
  length-encode_block prev chunk =
      let best = block_max fl avg_dl (fl.of_nat 0) chunk in
      let bits = bits_needed (largest (deltas_from prev chunk)) in
      let payloads = docid_payload prev chunk ++ tf_payload chunk in
      let docids = length (docid_payload prev chunk) in
      let tfs = length (tf_payload chunk) in
      let last = last_id prev chunk in
      ap length (header_bytes-laid_out fl last (length chunk) bits docids tfs best payloads)
      ∙ omega (
        arith,
        length-laid_out fl [] (fl.to_le_bytes best) payloads last (length chunk) bits docids tfs
            (keeps.0 best),
        length-append (docid_payload prev chunk) (tf_payload chunk),
      )

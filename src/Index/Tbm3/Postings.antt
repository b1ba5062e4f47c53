-- ===== src/Index/Tbm3/Postings.antt =====
-- The posting list of a term in blocks of 128 documents, and its parser. Floats are an interface;
-- an index past the end of an array, which panics, is an error here.
pub mod Header
pub mod Blocks
pub mod Chunks
pub mod Gaps
pub mod RoundTrip
pub mod Tests
use toradb.Prelude.{
  ℕ, zero, suc, ◌+◌, ◌-◌, ◌*◌, ◌/◌, ◌%◌, ◌^◌, min, max, Bool, true, false, Option, none, some, List,
  [], ◌∷◌, ◌++◌, map, ltb, leb, if◌then◌else◌, Text, text, length, sort, chunks, Result, ok, err,
}
use toradb.Index.Bytes.{Bytes, le_bytes, from_le, slice}
use toradb.Index.Tbm3.Varbyte.{varbyte_encode, varbyte_decode}
use toradb.Index.Tbm3.Bitpack.{bits_needed, bitpack, bitunpack}

-- `f32` with what the code does to it; `k1` and `b` are the constants of BM25.
pub record Float (F : Type 0) : Type 0 where
  pub of_nat : ℕ → F
  pub half : F
  pub k1 : F
  pub b : F
  pub add : F → F → F
  pub sub : F → F → F
  pub mul : F → F → F
  pub div : F → F → F
  pub max_of : F → F → F
  pub ln : F → F
  pub to_le_bytes : F → Bytes
  pub from_le_bytes : Bytes → F

abbrev pub Posting : Type 0
Posting = ℕ × ℕ

-- `postings_sorted_by_doc_id`
unfoldable pub postings_sorted_by_doc_id : List Posting → Bool
postings_sorted_by_doc_id [] = true
postings_sorted_by_doc_id (x ∷ []) = true
postings_sorted_by_doc_id (x ∷ y ∷ ys) =
    let rest = postings_sorted_by_doc_id (y ∷ ys) in if leb (x.0) (y.0) then rest else false

abbrev pub after : Posting → Posting → Bool
after x y = ltb (y.0) (x.0)

-- Postings of the same document stay as they were, which the code leaves open.
unfoldable pub in_order : List Posting → List Posting
unfolding postings_sorted_by_doc_id
in_order posts = if postings_sorted_by_doc_id posts then posts else sort after posts

unfoldable pub deltas_from : ℕ → List Posting → List ℕ
deltas_from prev [] = []
deltas_from prev (x ∷ xs) = (x.0 - prev) % 2 ^ 32 ∷ deltas_from (x.0) xs

unfoldable pub tf_payload : List Posting → Bytes
tf_payload [] = []
tf_payload (x ∷ xs) = varbyte_encode (x.1 - 1) ++ tf_payload xs

unfoldable pub largest : List ℕ → ℕ
largest [] = 0
largest (x ∷ xs) = max x (largest xs)

unfoldable pub last_id : ℕ → List Posting → ℕ
last_id prev [] = prev
last_id prev (x ∷ xs) = last_id (x.0) xs

abbrev pub block_size : ℕ
block_size = 128

module _ {F : Type 0} (fl : Float F) where
  unfoldable pub tf_component : F → F → F
  tf_component tf avg_dl =
      let dl = fl.div (fl.mul fl.b tf) (fl.max_of avg_dl (fl.of_nat 1)) in
      let denom = fl.add tf (fl.mul fl.k1 (fl.add (fl.sub (fl.of_nat 1) fl.b) dl)) in
      fl.div (fl.mul tf (fl.add fl.k1 (fl.of_nat 1))) denom

  unfoldable pub block_max : F → F → List Posting → F
  unfolding tf_component
  block_max avg_dl best [] = best
  block_max avg_dl best (x ∷ xs) =
      block_max avg_dl (fl.max_of best (tf_component (fl.of_nat (x.1)) avg_dl)) xs

  -- The header of a block, and its two payloads.
  abbrev pub header_bytes : ℕ → ℕ → F → ℕ → ℕ → ℕ → Bytes
  header_bytes last count best bits docid_len tf_len =
      le_bytes 8 last
      ++ (le_bytes 4 count
          ++ (fl.to_le_bytes best ++ (bits ∷ (le_bytes 4 docid_len ++ le_bytes 4 tf_len))))

  unfoldable pub encode_block : F → ℕ → List Posting → Bytes
  unfolding deltas_from tf_payload largest last_id block_max
  encode_block avg_dl prev chunk =
      let deltas = deltas_from prev chunk in
      let bits = bits_needed (largest deltas) in
      let docids = bitpack deltas bits in
      let tfs = tf_payload chunk in
      header_bytes (last_id prev chunk) (length chunk) (block_max avg_dl (fl.of_nat 0) chunk) bits
        (length docids) (length tfs)
      ++ (docids ++ tfs)

  unfoldable pub encode_blocks : F → ℕ → List (List Posting) → Bytes
  unfolding encode_block
  encode_blocks avg_dl prev [] = []
  encode_blocks avg_dl prev (chunk ∷ rest) =
      encode_block avg_dl prev chunk ++ encode_blocks avg_dl (last_id prev chunk) rest

  unfoldable pub posting_blob : F → List Posting → Bytes
  unfolding encode_blocks in_order
  posting_blob avg_dl posts =
      let blocks = chunks block_size (in_order posts) in
      le_bytes 4 (length (in_order posts))
      ++ (le_bytes 4 (length blocks) ++ encode_blocks avg_dl 0 blocks)

pub record BlockHeader (F : Type 0) : Type 0 where
  pub block_last_docid : ℕ
  pub count : ℕ
  pub block_max_tf : F
  pub docid_bits : ℕ
  pub docid_payload_off : ℕ
  pub tf_payload_off : ℕ
  pub tf_payload_len : ℕ
  pub next_block_off : ℕ

pub record TermPostings (F : Type 0) : Type 0 where
  pub docs : List Posting
  pub block_ends : List ℕ
  pub block_max_tf : List F
  pub idf : F

-- The documents of a block from the gaps between their ids, the last id too; `none` is a panic.
unfoldable pub block_docs : ℕ → List ℕ → Bytes → Option (List Posting × ℕ)
block_docs prev [] bytes = some ([], prev)
block_docs prev (d ∷ ds) bytes = elim (varbyte_decode bytes) [
  | none ↦ none
  | some (v, rest) ↦ elim (block_docs ((prev + d) % 2 ^ 64) ds rest) [
    | none ↦ none
    | some (docs, last) ↦ some (((prev + d) % 2 ^ 64, min (v + 1) (2 ^ 32 - 1)) ∷ docs, last)
  ]
]

module _ {F : Type 0} (fl : Float F) where
  unfoldable pub read_block_header : Bytes → ℕ → Result (BlockHeader F)
  read_block_header bytes pos =
      let docid_len = from_le (slice (pos + 17) 4 bytes) in
      let tf_len = from_le (slice (pos + 21) 4 bytes) in
      let docid_off = pos + 25 in
      if ltb (length bytes) (pos + 25)
      then err (text "truncated TBM3 block header")
      else (if ltb (length bytes) (docid_off + docid_len + tf_len)
          then err (text "truncated TBM3 block payload")
          else ok (record {
            block_last_docid = from_le (slice pos 8 bytes);
            count = from_le (slice (pos + 8) 4 bytes);
            block_max_tf = fl.from_le_bytes (slice (pos + 12) 4 bytes);
            docid_bits = from_le (slice (pos + 16) 1 bytes);
            docid_payload_off = docid_off;
            tf_payload_off = docid_off + docid_len;
            tf_payload_len = tf_len;
            next_block_off = docid_off + docid_len + tf_len;
          }))

  -- The state of the loop over the blocks.
  abbrev pub with_block : TermPostings F → List Posting → F → TermPostings F
  with_block p docs best = record p {
    docs = p.docs ++ docs;
    block_ends = p.block_ends ++ length (p.docs ++ docs) % 2 ^ 32 ∷ [];
    block_max_tf = p.block_max_tf ++ best ∷ [];
  }

  unfoldable pub block_at : Bytes → ℕ → BlockHeader F → Result (List Posting × ℕ)
  unfolding block_docs
  block_at bytes prev h =
      let docids =
        slice h.docid_payload_off (h.next_block_off - h.docid_payload_off - h.tf_payload_len)
          bytes in
      let tfs = slice h.tf_payload_off h.tf_payload_len bytes in
      if ltb block_size h.count
      then err (text "index out of bounds")
      else elim (block_docs prev (bitunpack docids h.docid_bits h.count) tfs) [
        | none ↦ err (text "index out of bounds")
        | some r ↦ ok r
      ]

  unfoldable pub parse_blocks : ℕ → Bytes → ℕ → ℕ → TermPostings F → Result (TermPostings F)
  unfolding read_block_header block_at
  parse_blocks zero bytes pos prev p = ok p
  parse_blocks (suc n) bytes pos prev p = elim (read_block_header bytes pos) [
    | err e ↦ err e
    | ok h ↦ elim (block_at bytes prev h) [
      | err e ↦ err e
      | ok (docs, last) ↦
          parse_blocks n bytes h.next_block_off last (with_block p docs h.block_max_tf)
    ]
  ]

  unfoldable pub idf_of : ℕ → ℕ → F
  idf_of num_docs df =
      let n = fl.of_nat (max num_docs 1) in
      let ratio =
        fl.div (fl.add (fl.sub n (fl.of_nat df)) fl.half) (fl.add (fl.of_nat df) fl.half) in
      fl.ln (fl.add ratio (fl.of_nat 1))

  -- `TermPostings::parse`
  unfoldable pub parse_postings : Bytes → ℕ → ℕ → ℕ → Result (TermPostings F)
  unfolding parse_blocks idf_of
  parse_postings bytes base num_docs df =
      if ltb (length bytes) (base + 8)
      then err (text "truncated TBM3 postings")
      else parse_blocks (from_le (slice (base + 4) 4 bytes)) bytes (base + 8) 0
          (record { docs = []; block_ends = []; block_max_tf = []; idf = idf_of num_docs df })

-- ===== src/Index/Tbm3/Segment.antt =====
-- A segment of BM25 in one file: the sorted terms with their entries, and the posting lists behind
-- them. A term is the bytes of its string; a hash map is a list of its entries.
pub mod Dictionary
pub mod Loading
pub mod Lookups
pub mod RoundTrip
mod Tests
use toradb.Prelude.{
  ℕ, zero, suc, ◌+◌, ◌-◌, ◌%◌, ◌^◌, min, Bool, true, false, Option, none, some, List, [], ◌∷◌, ◌++◌,
  ltb, ◌==◌, if◌then◌else◌, Text, text, text_beq, length, sort, get_elem?, take, Result, ok, err,
  ◌>>=◌, decimal, text_eq, nat_eq,
}
use toradb.Collections.Dict.{Dict, keys, lookup, insert}
use toradb.Index.Bytes.{Bytes, le_bytes, from_le, slice}
use toradb.Index.Tbm3.Postings.{Float, Posting, posting_blob, TermPostings, parse_postings}

pub record Snapshot (F : Type 0) : Type 0 where
  pub postings : Dict Text (List Posting)
  pub doc_len : Dict ℕ ℕ
  pub doc_freq : Dict Text ℕ
  pub num_docs : ℕ
  pub avg_dl : F

-- The order of strings, by their bytes.
unfoldable pub text_after : Text → Text → Bool
text_after [] t = false
text_after (a ∷ s) [] = true
text_after (a ∷ s) (b ∷ t) =
    let rest = text_after s t in if ltb b a then true else (if ltb a b then false else rest)

-- `unwrap_or`
abbrev pub or_else {ℓ} : {A : Type ℓ} → Option A → A → A
or_else none d = d
or_else (some a) d = a

-- Four numbers of a term: its length, the documents with it, and where its postings stand.
abbrev pub dict_entry : Text → ℕ → ℕ → ℕ → Bytes
dict_entry term df offset plen =
    let tlen = min (length term) 65535 % 2 ^ 16 in
    le_bytes 2 tlen ++ (take tlen term ++ (le_bytes 4 df ++ (le_bytes 4 offset ++ le_bytes 4 plen)))

abbrev pub tbm3_magic : Bytes
tbm3_magic = 84 ∷ 66 ∷ 77 ∷ 51 ∷ []

abbrev pub version : ℕ
version = 2

module _ {F : Type 0} (fl : Float F) (snap : Snapshot F) where
  -- `&snap.postings[term]`, of a key of the map.
  unfoldable pub posts_of : Text → List Posting
  posts_of term = or_else (lookup term snap.postings) []

  unfoldable pub df_of : Text → ℕ
  unfolding posts_of
  df_of term = or_else (lookup term snap.doc_freq) (length (posts_of term) % 2 ^ 32)

  unfoldable pub blob_of : Text → Bytes
  unfolding posts_of
  blob_of term = posting_blob fl snap.avg_dl (posts_of term)

  -- What the loop over the terms appends to the postings, and to the dictionary, where the postings
  -- have `at` bytes by then.
  unfoldable pub all_blobs : List Text → Bytes
  unfolding blob_of
  all_blobs [] = []
  all_blobs (t ∷ ts) = blob_of t ++ all_blobs ts

  unfoldable pub dict_from : ℕ → List Text → Bytes
  unfolding blob_of df_of
  dict_from at [] = []
  dict_from at (t ∷ ts) =
      let next = at + length (blob_of t) in
      dict_entry t (df_of t) (at % 2 ^ 32) ((next % 2 ^ 32 + 2 ^ 32 - at % 2 ^ 32) % 2 ^ 32)
      ++ dict_from next ts

  unfoldable pub encode_tbm3 : Bytes
  unfolding dict_from all_blobs
  encode_tbm3 =
      let terms = sort text_after (keys snap.postings) in
      tbm3_magic
      ++ (version
          ∷ 0
          ∷ 0
          ∷ 0
          ∷ (le_bytes 4 snap.num_docs
              ++ (fl.to_le_bytes snap.avg_dl
                  ++ (le_bytes 4 (length terms % 2 ^ 32)
                      ++ (dict_from 0 terms ++ all_blobs terms)))))

pub record DictEntry : Type 0 where
  pub term_off : ℕ
  pub term_len : ℕ
  pub df : ℕ
  pub post_off : ℕ
  pub post_len : ℕ

pub record Bm25Tbm3Meta (F : Type 0) : Type 0 where
  pub num_docs : ℕ
  pub avg_dl : F
  pub num_terms : ℕ
  pub postings_start : ℕ
  pub dict : List DictEntry

-- The entry at `pos` whose term has `tlen` bytes.
unfoldable pub entry_at : Bytes → ℕ → ℕ → DictEntry
entry_at bytes pos tlen = record {
  term_off = pos + 2;
  term_len = tlen;
  df = from_le (slice (pos + 2 + tlen) 4 bytes);
  post_off = from_le (slice (pos + 2 + tlen + 4) 4 bytes);
  post_len = from_le (slice (pos + 2 + tlen + 8) 4 bytes);
}

-- The loop of `Bm25Tbm3Meta::parse`, with `n` terms to come; the position at its end too.
unfoldable pub parse_dict : ℕ → ℕ → Bytes → Result (List DictEntry × ℕ)
unfolding entry_at
parse_dict zero pos bytes = ok ([], pos)
parse_dict (suc n) pos bytes =
    let tlen = from_le (slice pos 2 bytes) in
    let rest = parse_dict n (pos + 2 + tlen + 12) bytes in
    if ltb (length bytes) (pos + 2)
    then err (text "truncated TBM3 dict")
    else (if ltb (length bytes) (pos + 2 + tlen + 12)
        then err (text "truncated TBM3 dict entry")
        else rest >>= λ (es, end). ok (entry_at bytes pos tlen ∷ es, end))

module _ {F : Type 0} (fl : Float F) where
  unfoldable pub parse_meta : Bytes → Result (Bm25Tbm3Meta F)
  unfolding parse_dict
  parse_meta bytes =
      let num_terms = from_le (slice 16 4 bytes) in
      let found = or_else (get_elem? bytes 4) 0 in
      let parsed = parse_dict num_terms 20 bytes >>= λ (dict, end). ok (record {
        num_docs = from_le (slice 8 4 bytes);
        avg_dl = fl.from_le_bytes (slice 12 4 bytes);
        num_terms = num_terms;
        postings_start = end;
        dict = dict;
      }) in
      if ltb (length bytes) 20
      then err (text "invalid TBM3 magic")
      else (if text_beq (slice 0 4 bytes) tbm3_magic
          then (if found == version
              then parsed
              else err
                  (text "unsupported TBM3 version " ++ (decimal found ++ text " (expected 2)")))
          else err (text "invalid TBM3 magic"))

  -- A view is the bytes with what `parse_meta` found.
  unfoldable pub term_at : Bytes → Bm25Tbm3Meta F → ℕ → Result (Text × DictEntry)
  term_at bytes meta index = elim (get_elem? meta.dict index) [
    | none ↦ err (text "term index out of range")
    | some e ↦ ok (slice e.term_off e.term_len bytes, e)
  ]

  unfoldable pub load_term : Bytes → Bm25Tbm3Meta F → ℕ → ℕ → Result (TermPostings F)
  load_term bytes meta df rel_off =
      parse_postings fl bytes (meta.postings_start + rel_off) meta.num_docs df

  -- `*entry = entry.saturating_add(tf)` for every document of a term.
  unfoldable pub add_lengths : List Posting → Dict ℕ ℕ → Dict ℕ ℕ
  add_lengths [] m = m
  add_lengths ((id, tf) ∷ ps) m =
      add_lengths ps (insert id (min (or_else (lookup id m) 0 + tf) (2 ^ 32 - 1)) m)

  abbrev pub with_term : Snapshot F → Text → ℕ → List Posting → Snapshot F
  with_term s term df docs = record s {
    postings = insert term docs s.postings;
    doc_freq = insert term df s.doc_freq;
    doc_len = add_lengths docs s.doc_len;
  }

  -- The loop over the terms from `i` on, with `n` to come.
  unfoldable pub read_terms : Bytes → Bm25Tbm3Meta F → ℕ → ℕ → Snapshot F → Result (Snapshot F)
  unfolding term_at load_term add_lengths
  read_terms bytes meta zero i s = ok s
  read_terms bytes meta (suc n) i s = term_at bytes meta i >>= λ (term, e).
      (load_term bytes meta e.df e.post_off >>= λ list.
      (read_terms bytes meta n (suc i) (with_term s term e.df list.docs)))

  unfoldable pub snapshot_from_tbm3 : Bytes → Result (Snapshot F)
  unfolding parse_meta read_terms
  snapshot_from_tbm3 bytes = parse_meta bytes >>= λ meta.
      (read_terms bytes meta meta.num_terms 0 (record {
        postings = [];
        doc_len = [];
        doc_freq = [];
        num_docs = meta.num_docs;
        avg_dl = meta.avg_dl;
      }))

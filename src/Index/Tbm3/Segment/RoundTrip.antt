-- ===== src/Index/Tbm3/Segment/RoundTrip.antt =====
-- A segment that is written is read back.
use toradb.Prelude.{
  ℕ, ◌+◌, ◌%◌, ◌^◌, ◌<◌, ◌≡◌, refl, sym, ap, ◌∙◌, false, List, [], ◌∷◌, ◌++◌, append_assoc,
  append-nil, arith, length, length-append, Text, text_eq, ok, none, some, ltb, sort,
}
use mathlib.Core.Path.{subst}
use toradb.Collections.Dict.{lookup, keys, contains_key}
use toradb.Collections.Keys.{contains}
use toradb.Index.Bytes.{Bytes, le_bytes, from_le, slice, from_le-le_bytes_4}
use toradb.Index.Tbm3.Postings.{Float, in_order}
use toradb.Index.Tbm3.Postings.Header.{slice_past, slice_at}
use toradb.Index.Tbm3.Postings.Blocks.{KeepsBytes}
use toradb.Index.Tbm3.Segment.{
  Snapshot, or_else, all_blobs, dict_from, text_after, encode_tbm3, Bm25Tbm3Meta, parse_dict,
  parse_meta, snapshot_from_tbm3, tbm3_magic, version,
}
use toradb.Index.Tbm3.Segment.Dictionary.{EntriesFit, entries_from, parse_dict-dict_from}
use toradb.Index.Tbm3.Segment.Lookups.{
  contains-sort, contains-keys, postings-with_terms, doc_freq-with_terms, posts_of-lookup,
  df_of-lookup, num_docs-with_terms, avg_dl-with_terms,
}
use toradb.Index.Tbm3.Segment.Loading.{PostingsFit, with_terms, Stands, read_terms-with_terms}

module _ {F : Type 0} (fl : Float F) (keeps : KeepsBytes fl) (snap : Snapshot F)
    (terms : List Text) where
  -- The 20 bytes before the dictionary.
  abbrev head_bytes : Bytes
  head_bytes =
      tbm3_magic
      ++ (version
          ∷ 0
          ∷ 0
          ∷ 0
          ∷ (le_bytes 4 snap.num_docs ++ (fl.to_le_bytes snap.avg_dl ++ le_bytes 4 (length terms))))

  abbrev body_bytes : Bytes
  body_bytes = dict_from fl snap 0 terms ++ all_blobs fl snap terms

  abbrev meta_of : Bm25Tbm3Meta F
  meta_of = record {
    num_docs = snap.num_docs;
    avg_dl = snap.avg_dl;
    num_terms = length terms;
    postings_start = 20 + length (dict_from fl snap 0 terms);
    dict = entries_from fl snap 20 0 terms;
  }

  length-head_bytes : length head_bytes ≡ 20
  unfolding le_bytes
  length-head_bytes = omega (
    arith,
    length-append (fl.to_le_bytes snap.avg_dl) (le_bytes 4 (length terms)),
    keeps.0 snap.avg_dl,
  )

  parse_meta-head_bytes :
      length terms < 2 ^ 32
      → snap.num_docs < 2 ^ 32
      → EntriesFit fl snap 0 terms
      → parse_meta fl (head_bytes ++ body_bytes) ≡ ok meta_of
  unfolding parse_meta le_bytes slice
  parse_meta-head_bytes few docs fit =
      let bytes = head_bytes ++ body_bytes in
      let avg = fl.to_le_bytes snap.avg_dl in
      let four : 4 ≡ length avg = sym (keeps.0 snap.avg_dl) in
      let count = le_bytes 4 (length terms) in
      let apart : (avg ++ count) ++ body_bytes ≡ avg ++ (count ++ body_bytes) =
        append_assoc avg count body_bytes in
      let room : ltb (length bytes) 20 ≡ false =
        ground (arith, length-append head_bytes body_bytes, length-head_bytes) in
      let number : from_le (slice 16 4 bytes) ≡ length terms =
        ap from_le (
          ap (λ (bs : Bytes). slice 4 4 bs) apart ∙ slice_past avg (count ++ body_bytes) 4 0 4 four)
        ∙ from_le-le_bytes_4 (length terms) few in
      let many : from_le (slice 8 4 bytes) ≡ snap.num_docs =
        from_le-le_bytes_4 snap.num_docs docs in
      let average : fl.from_le_bytes (slice 12 4 bytes) ≡ snap.avg_dl =
        ap fl.from_le_bytes (
          ap (λ (bs : Bytes). slice 0 4 bs) apart
          ∙ slice_at [] avg (count ++ body_bytes) 0 4 refl four)
        ∙ keeps.1 snap.avg_dl in
      let dict : parse_dict (length terms) 20 bytes ≡ ok (meta_of.dict, meta_of.postings_start) =
        subst
          (λ (n : ℕ).
            parse_dict (length terms) n bytes
            ≡ ok (entries_from fl snap n 0 terms, n + length (dict_from fl snap 0 terms)))
          length-head_bytes
          (parse_dict-dict_from fl snap 0 terms head_bytes (all_blobs fl snap terms) fit) in
      rw (room, number, dict, many, average) refl

abbrev pub sorted_terms : {F : Type 0} → Snapshot F → List Text
sorted_terms snap = sort text_after (keys snap.postings)

-- The terms that were read so far, then nothing.
abbrev pub empty_snapshot : {F : Type 0} → ℕ → F → Snapshot F
empty_snapshot n avg = record {
  postings = [];
  doc_len = [];
  doc_freq = [];
  num_docs = n;
  avg_dl = avg;
}

module _ {F : Type 0} (fl : Float F) (keeps : KeepsBytes fl) (snap : Snapshot F) where
  encode_tbm3-bytes :
      length (sorted_terms snap) < 2 ^ 32
      → encode_tbm3 fl snap
        ≡ head_bytes fl keeps snap (sorted_terms snap)
          ++ body_bytes fl keeps snap (sorted_terms snap)
  unfolding encode_tbm3 le_bytes
  encode_tbm3-bytes few =
      let terms = sorted_terms snap in
      let count : length terms % 2 ^ 32 ≡ length terms = omega arith in
      let avg = fl.to_le_bytes snap.avg_dl in
      rw count (
        ap (λ (bs : Bytes). tbm3_magic ++ (version ∷ 0 ∷ 0 ∷ 0 ∷ (le_bytes 4 snap.num_docs ++ bs)))
          (sym (append_assoc avg (le_bytes 4 (length terms)) (body_bytes fl keeps snap terms))))

  snapshot_from_tbm3-terms :
      length (sorted_terms snap) < 2 ^ 32
      → snap.num_docs < 2 ^ 32
      → EntriesFit fl snap 0 (sorted_terms snap)
      → PostingsFit fl snap (sorted_terms snap)
      → snapshot_from_tbm3 fl (encode_tbm3 fl snap)
        ≡ ok (with_terms fl snap (sorted_terms snap) (empty_snapshot snap.num_docs snap.avg_dl))
  unfolding snapshot_from_tbm3
  snapshot_from_tbm3-terms few docs entries postings =
      let terms = sorted_terms snap in
      let head = head_bytes fl keeps snap terms in
      let blobs = all_blobs fl snap terms in
      let dict = dict_from fl snap 0 terms in
      let meta = meta_of fl keeps snap terms in
      let bytes = head ++ body_bytes fl keeps snap terms in
      let stands : Stands fl keeps snap bytes meta 0 20 0 terms = (
        ([], refl, refl),
        (head, blobs, length-head_bytes fl keeps snap terms, refl),
        (
          head ++ dict,
          [],
          length-append head dict ∙ omega (arith, length-head_bytes fl keeps snap terms),
          ap (λ (bs : Bytes). head ++ (dict ++ bs)) (sym (append-nil blobs))
              ∙ sym (append_assoc head dict (blobs ++ [])),
        ),
      ) in
      rw (encode_tbm3-bytes few, parse_meta-head_bytes fl keeps snap terms few docs entries)
        (read_terms-with_terms fl keeps snap bytes meta terms 0 20 0
          (empty_snapshot snap.num_docs snap.avg_dl) entries postings stands)

  sorted-contains_key : (t : Text) → contains t (sorted_terms snap) ≡ contains_key t snap.postings
  sorted-contains_key t =
      contains-sort t text_after (keys snap.postings) ∙ contains-keys t snap.postings

  -- A snapshot that is written as a segment is read back, where a float is four bytes that give it
  -- back, the numbers fit their fields, and the postings of each term have, in order, ids with
  -- gaps below 2 ^ 32 and frequencies from 1 to 2 ^ 32 - 1: every term has its postings, in order,
  -- its document frequency is the given one or else the number of its postings, other terms have
  -- neither, and the number of documents and the average length are the same.
  pub snapshot_from_tbm3-encode_tbm3 :
      length (sorted_terms snap) < 2 ^ 32
      → snap.num_docs < 2 ^ 32
      → EntriesFit fl snap 0 (sorted_terms snap)
      → PostingsFit fl snap (sorted_terms snap)
      → (s : Snapshot F) × (snapshot_from_tbm3 fl (encode_tbm3 fl snap) ≡ ok s)
        × ((t : Text)
            → lookup t s.postings
              ≡ elim (lookup t snap.postings) [ none ↦ none | some ps ↦ some (in_order ps) ])
        × ((t : Text)
            → lookup t s.doc_freq ≡ elim (lookup t snap.postings) [
              | none ↦ none
              | some ps ↦ some (or_else (lookup t snap.doc_freq) (length ps % 2 ^ 32))
            ])
        × (s.num_docs ≡ snap.num_docs)
        × (s.avg_dl ≡ snap.avg_dl)
  unfolding lookup
  snapshot_from_tbm3-encode_tbm3 few docs entries postings =
      let terms = sorted_terms snap in
      let start = empty_snapshot snap.num_docs snap.avg_dl in
      (
        with_terms fl snap terms start,
        snapshot_from_tbm3-terms few docs entries postings,
        λ t.
            postings-with_terms t fl snap terms start
            ∙ posts_of-lookup t fl snap _ (sorted-contains_key t),
        λ t.
            doc_freq-with_terms t fl snap terms start
            ∙ df_of-lookup t fl snap _ (sorted-contains_key t),
        num_docs-with_terms [] fl snap terms start,
        avg_dl-with_terms [] fl snap terms start,
      )

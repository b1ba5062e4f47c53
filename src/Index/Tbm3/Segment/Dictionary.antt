-- ===== src/Index/Tbm3/Segment/Dictionary.antt =====
-- The dictionary of a segment, read back entry by entry.
use toradb.Prelude.{
  ℕ, suc, ◌+◌, ◌-◌, ◌%◌, ◌^◌, ◌<◌, ◌≡◌, refl, sym, ap, ◌∙◌, min, false, List, [], ◌∷◌, ◌++◌,
  append_assoc, append-nil, arith, ltb, length, length-append, Text, ok, ◌>>=◌,
}
use toradb.Index.Bytes.{
  Bytes, le_bytes, slice, take_all, from_le-le_bytes_2, from_le-le_bytes_4, length-le_bytes,
}
use toradb.Index.Tbm3.Postings.{Float}
use toradb.Index.Tbm3.Postings.Header.{slice-skip, slice_past, slice_at}
use toradb.Index.Tbm3.Segment.{
  Snapshot, df_of, blob_of, dict_entry, dict_from, DictEntry, entry_at, parse_dict,
}

-- An entry whose term is short, and what follows it.
abbrev entry_bytes : Text → ℕ → ℕ → ℕ → Bytes → Bytes
entry_bytes term df offset plen tail =
    le_bytes 2 (length term)
    ++ (term ++ (le_bytes 4 df ++ (le_bytes 4 offset ++ (le_bytes 4 plen ++ tail))))

dict_entry-bytes :
    (term : Text) (df offset plen : ℕ) (tail : Bytes)
    → length term < 65536
    → dict_entry term df offset plen ++ tail ≡ entry_bytes term df offset plen tail
unfolding le_bytes
dict_entry-bytes term df offset plen tail h =
    let len : min (length term) 65535 % 2 ^ 16 ≡ length term = omega arith in
    rw (len, take_all term)
      (ap (λ (t : Bytes). le_bytes 2 (length term) ++ t) (append_assoc term _ tail))

module _ (pre term tail : Bytes) (df offset plen : ℕ) where
  -- The numbers behind the term.
  slice-entry_bytes :
      (j n : ℕ)
      → slice (length pre + 2 + length term + j) n (pre ++ entry_bytes term df offset plen tail)
        ≡ slice j n (le_bytes 4 df ++ (le_bytes 4 offset ++ (le_bytes 4 plen ++ tail)))
  slice-entry_bytes j n =
      let numbers = le_bytes 4 df ++ (le_bytes 4 offset ++ (le_bytes 4 plen ++ tail)) in
      let position : length pre + 2 + length term + j ≡ length pre + (2 + (length term + j)) =
        omega arith in
      rw (position, slice-skip pre (entry_bytes term df offset plen tail) (2 + (length term + j)) n)
        (slice_past (le_bytes 2 (length term)) (term ++ numbers) 2 (length term + j) n
            (sym (length-le_bytes 2 (length term)))
          ∙ slice-skip term numbers j n)

  read_df :
      slice (length pre + 2 + length term) 4 (pre ++ entry_bytes term df offset plen tail)
      ≡ le_bytes 4 df
  unfolding le_bytes slice
  read_df =
      let start : length pre + 2 + length term ≡ length pre + 2 + length term + 0 = omega arith in
      ap (λ (pos : ℕ). slice pos 4 (pre ++ entry_bytes term df offset plen tail)) start
      ∙ slice-entry_bytes 0 4

  read_offset :
      slice (length pre + 2 + length term + 4) 4 (pre ++ entry_bytes term df offset plen tail)
      ≡ le_bytes 4 offset
  unfolding le_bytes slice
  read_offset = slice-entry_bytes 4 4

  read_plen :
      slice (length pre + 2 + length term + 8) 4 (pre ++ entry_bytes term df offset plen tail)
      ≡ le_bytes 4 plen
  unfolding le_bytes slice
  read_plen = slice-entry_bytes 8 4

  length-entry_bytes :
      length (pre ++ entry_bytes term df offset plen tail)
      ≡ length pre + 2 + length term + 12 + length tail
  unfolding le_bytes
  length-entry_bytes = omega (
    arith,
    length-append pre (entry_bytes term df offset plen tail),
    length-append term (le_bytes 4 df ++ (le_bytes 4 offset ++ (le_bytes 4 plen ++ tail))),
  )

  read_tlen :
      slice (length pre) 2 (pre ++ entry_bytes term df offset plen tail) ≡ le_bytes 2 (length term)
  read_tlen =
      slice_at pre (le_bytes 2 (length term)) _ (length pre) 2 refl
        (sym (length-le_bytes 2 (length term)))

  pub read_term :
      slice (length pre + 2) (length term) (pre ++ entry_bytes term df offset plen tail) ≡ term
  read_term =
      let numbers = le_bytes 4 df ++ (le_bytes 4 offset ++ (le_bytes 4 plen ++ tail)) in
      slice-skip pre (entry_bytes term df offset plen tail) 2 (length term)
      ∙ slice_at (le_bytes 2 (length term)) term numbers 2 (length term)
          (sym (length-le_bytes 2 (length term))) refl

  entry_of : DictEntry
  entry_of = record {
    term_off = length pre + 2;
    term_len = length term;
    df = df;
    post_off = offset;
    post_len = plen;
  }

  parse_dict-entry_bytes :
      (n : ℕ)
      → length term < 65536
      → df < 2 ^ 32
      → offset < 2 ^ 32
      → plen < 2 ^ 32
      → parse_dict (suc n) (length pre) (pre ++ entry_bytes term df offset plen tail) ≡ (
          parse_dict n
            (length pre + 2 + length term + 12)
            (pre ++ entry_bytes term df offset plen tail)
          >>= λ (es, end). ok (entry_of ∷ es, end))
  unfolding parse_dict entry_at entry_of
  parse_dict-entry_bytes n ht hd ho hp =
      let bytes = length pre + 2 + length term + 12 + length tail in
      let head : ltb bytes (length pre + 2) ≡ false = ground arith in
      let whole : ltb bytes (length pre + 2 + length term + 12) ≡ false = ground arith in
      rw
        (
          read_tlen,
          from_le-le_bytes_2 (length term) ht,
          read_df,
          read_offset,
          read_plen,
          from_le-le_bytes_4 df hd,
          from_le-le_bytes_4 offset ho,
          from_le-le_bytes_4 plen hp,
          length-entry_bytes,
          head,
          whole,
        )
        refl

pub length-dict_entry :
    (term : Text) (df offset plen : ℕ)
    → length term < 65536
    → length (dict_entry term df offset plen) ≡ 2 + length term + 12
length-dict_entry term df offset plen h =
    ap length (
      sym (append-nil (dict_entry term df offset plen)) ∙ dict_entry-bytes term df offset plen [] h)
    ∙ length-entry_bytes [] term [] df offset plen
    ∙ omega arith

module _ {F : Type 0} (fl : Float F) (snap : Snapshot F) where
  -- What the numbers of an entry can hold, where the postings so far have `at` bytes.
  abbrev pub EntriesFit : ℕ → List Text → Type 0
  EntriesFit at [] = Unit {0}
  EntriesFit at (t ∷ ts) =
      ((length t < 65536) × (df_of fl snap t < 2 ^ 32) × (at + length (blob_of fl snap t) < 2 ^ 32))
      × EntriesFit (at + length (blob_of fl snap t)) ts

  -- The entries of the terms, where the dictionary begins at `pos`.
  unfoldable pub entries_from : ℕ → ℕ → List Text → List DictEntry
  entries_from pos at [] = []
  entries_from pos at (t ∷ ts) =
      record {
        term_off = pos + 2;
        term_len = length t;
        df = df_of fl snap t;
        post_off = at;
        post_len = length (blob_of fl snap t);
      }
      ∷ entries_from (pos + 2 + length t + 12) (at + length (blob_of fl snap t)) ts

  -- The first entry in the form that is read.
  pub dict_from-bytes :
      (pre : Bytes) (at : ℕ) (t : Text) (ts : List Text) (tail : Bytes)
      → EntriesFit at (t ∷ ts)
      → let plen = length (blob_of fl snap t) in
        (pre ++ (dict_from fl snap at (t ∷ ts) ++ tail)
          ≡ pre
            ++ entry_bytes t (df_of fl snap t) at plen (dict_from fl snap (at + plen) ts ++ tail))
        × (pre ++ (dict_from fl snap at (t ∷ ts) ++ tail)
            ≡ (pre ++ dict_entry t (df_of fl snap t) at plen)
              ++ (dict_from fl snap (at + plen) ts ++ tail))
  unfolding dict_from
  dict_from-bytes pre at t ts tail ((ht, hd, hp), h) =
      let plen = length (blob_of fl snap t) in
      let rest = dict_from fl snap (at + plen) ts in
      let entry = dict_entry t (df_of fl snap t) at plen in
      let offset : at % 2 ^ 32 ≡ at = omega arith in
      let width : ((at + plen) % 2 ^ 32 + 2 ^ 32 - at % 2 ^ 32) % 2 ^ 32 ≡ plen = omega arith in
      let first : pre ++ (dict_from fl snap at (t ∷ ts) ++ tail)
          ≡ pre ++ (entry ++ (rest ++ tail)) =
        rw (width, offset) (ap (λ (bs : Bytes). pre ++ bs) (append_assoc entry rest tail)) in
      (
        first
            ∙ ap (λ (bs : Bytes). pre ++ bs)
                (dict_entry-bytes t (df_of fl snap t) at plen (rest ++ tail) ht),
        first ∙ sym (append_assoc pre entry (rest ++ tail)),
      )

  pub parse_dict-dict_from :
      (at : ℕ) (ts : List Text) (pre tail : Bytes)
      → EntriesFit at ts
      → parse_dict (length ts) (length pre) (pre ++ (dict_from fl snap at ts ++ tail))
        ≡ ok (entries_from (length pre) at ts, length pre + length (dict_from fl snap at ts))
  unfolding entries_from parse_dict dict_from entry_of
  parse_dict-dict_from at [] pre tail fit =
      let e : length pre + 0 ≡ length pre = omega arith in rw e
  parse_dict-dict_from at (t ∷ ts) pre tail fit =
      let ((ht, hd, hp), h) = fit in
      let df = df_of fl snap t in
      let plen = length (blob_of fl snap t) in
      let entry = dict_entry t df at plen in
      let later = dict_from fl snap (at + plen) ts in
      let forms = dict_from-bytes pre at t ts tail fit in
      let again = parse_dict-dict_from (at + plen) ts (pre ++ entry) tail h in
      let next : length (pre ++ entry) ≡ length pre + 2 + length t + 12 =
        length-append pre entry ∙ omega (arith, length-dict_entry t df at plen ht) in
      let bytes = sym (forms.0) ∙ forms.1 in
      let first = entry_of pre t (later ++ tail) df at plen in
      let whole = dict_from fl snap at (t ∷ ts) in
      let total : length (pre ++ entry) + length later ≡ length pre + length whole = omega (
        arith,
        ap length (forms.1),
        length-append pre (whole ++ tail),
        length-append whole tail,
        length-append (pre ++ entry) (later ++ tail),
        length-append later tail,
      ) in
      ap (parse_dict (suc (length ts)) (length pre)) (forms.0)
      ∙ parse_dict-entry_bytes pre t (later ++ tail) df at plen (length ts) ht hd (omega arith)
          (omega arith)
      ∙ rw (bytes, ← next, again)
          (ap (λ (end : ℕ). ok (first ∷ entries_from (length (pre ++ entry)) (at + plen) ts, end))
            total)

-- ===== src/Index/Lexicon.antt =====
-- crates/toradb-index/src/sparse/bm25_lexicon.rs: the terms of a segment in a file. A term is a
-- string of the language, of which its bytes and the reading of UTF-8 are used.
mod RoundTrip
mod Tests
use toradb.Prelude.{
  ℕ, zero, suc, ◌+◌, ◌%◌, ◌^◌, ◌<◌, Bool, true, false, List, [], ◌∷◌, ◌++◌, min, length, ltb, take,
  if◌then◌else◌, Text, text, text_beq, Result, ok, err, ◌>>=◌,
}
use toradb.Index.Bytes.{Bytes, le_bytes, from_le, slice}

abbrev pub lexicon_magic : Bytes
lexicon_magic = 84 ∷ 76 ∷ 69 ∷ 88 ∷ []

pub record Utf8 (T : Type 0) : Type 0 where
  pub as_bytes : T → Bytes
  pub from_utf8 : Bytes → Result T

module _ {T : Type 0} (u : Utf8 T) where
  -- The length is a `u16`; what is longer is cut.
  pub encode_term : T → Bytes
  encode_term t =
      let len = min (length (u.as_bytes t)) 65535 % 2 ^ 16 in
      le_bytes 2 len ++ take len (u.as_bytes t)

  pub encode_terms : List T → Bytes
  encode_terms [] = []
  encode_terms (t ∷ ts) = encode_term t ++ encode_terms ts

  pub encode_lexicon : List T → Bytes
  encode_lexicon terms = lexicon_magic ++ (le_bytes 4 (length terms % 2 ^ 32) ++ encode_terms terms)

  -- The loop of `parse` from `pos` on, with `n` terms to come.
  pub parse_terms : ℕ → ℕ → Bytes → Result (List T)
  parse_terms zero pos bytes = ok []
  parse_terms (suc n) pos bytes =
      let len = from_le (slice pos 2 bytes) in
      let tail = parse_terms n (pos + 2 + len) bytes in
      if ltb (length bytes) (pos + 2)
      then err (text "truncated lexicon")
      else (if ltb (length bytes) (pos + 2 + len)
          then err (text "truncated lexicon term")
          else u.from_utf8 (slice (pos + 2) len bytes) >>= λ s. tail >>= λ terms. ok (s ∷ terms))

  pub parse : Bytes → Result (List T)
  unfolding parse_terms
  parse bytes =
      if ltb (length bytes) 8
      then err (text "invalid bm25 lexicon magic")
      else (if text_beq (slice 0 4 bytes) lexicon_magic
          then parse_terms (from_le (slice 4 4 bytes)) 8 bytes
          else err (text "invalid bm25 lexicon magic"))

-- ===== src/Index/Lexicon/RoundTrip.antt =====
-- Reading a lexicon from the bytes that it was written as.
use toradb.Prelude.{
  ℕ, suc, ◌+◌, ◌%◌, ◌^◌, ◌<◌, ◌≤◌, ◌≡◌, refl, sym, ap, ◌∙◌, true, false, List, [], ◌∷◌, ◌++◌,
  append_assoc, arith, min, length, length-append, ltb, text_beq, text_beq_iff, ok, In, inl, inr,
}
use toradb.Index.Bytes.{
  Bytes, le_bytes, from_le, slice, length-le_bytes, from_le-le_bytes_2, from_le-le_bytes_4,
  take_all, slice-append,
}
use toradb.Index.Lexicon.{
  Utf8, lexicon_magic, encode_term, encode_terms, encode_lexicon, parse_terms, parse,
}

module _ {T : Type 0} (u : Utf8 T)
    (from_utf8-as_bytes : (t : T) → u.from_utf8 (u.as_bytes t) ≡ ok t) where
  abbrev pub IsShort : List T → Type 0
  IsShort ts = (t : T) → In t ts → length (u.as_bytes t) < 65536

  encode_term-eq :
      (t : T)
      → length (u.as_bytes t) < 65536
      → encode_term u t ≡ le_bytes 2 (length (u.as_bytes t)) ++ u.as_bytes t
  unfolding encode_term
  encode_term-eq t h =
      let len : min (length (u.as_bytes t)) 65535 % 2 ^ 16 ≡ length (u.as_bytes t) = omega arith in
      rw len (ap (λ bs. le_bytes 2 (length (u.as_bytes t)) ++ bs) (take_all (u.as_bytes t)))

  encode_terms_cons :
      (t : T) (ts : List T) → encode_terms u (t ∷ ts) ≡ encode_term u t ++ encode_terms u ts
  unfolding encode_terms
  encode_terms_cons t ts = refl

  encode_lexicon_parts :
      (ts : List T)
      → encode_lexicon u ts
        ≡ lexicon_magic ++ (le_bytes 4 (length ts % 2 ^ 32) ++ encode_terms u ts)
  unfolding encode_lexicon
  encode_lexicon_parts ts = refl

  parse_parts :
      (n : ℕ) (bytes : Bytes) (ts : List T)
      → 8 ≤ length bytes
      → slice 0 4 bytes ≡ lexicon_magic
      → from_le (slice 4 4 bytes) ≡ n
      → parse_terms u n 8 bytes ≡ ok ts
      → parse u bytes ≡ ok ts
  unfolding parse
  parse_parts n bytes ts room magic count terms =
      let a : ltb (length bytes) 8 ≡ false = ground arith in
      let b : text_beq (slice 0 4 bytes) lexicon_magic ≡ true =
        (text_beq_iff (slice 0 4 bytes) lexicon_magic).1 magic in
      rw (a, b, count) terms

  -- One turn of the loop, where its length and its bytes are at `pos`.
  parse_terms_step :
      (n pos k : ℕ) (bytes : Bytes) (t : T) (ts : List T)
      → from_le (slice pos 2 bytes) ≡ k
      → pos + 2 + k ≤ length bytes
      → slice (pos + 2) k bytes ≡ u.as_bytes t
      → parse_terms u n (pos + 2 + k) bytes ≡ ok ts
      → parse_terms u (suc n) pos bytes ≡ ok (t ∷ ts)
  unfolding parse_terms
  parse_terms_step n pos k bytes t ts read room at tail =
      let a : ltb (length bytes) (pos + 2) ≡ false = ground arith in
      let b : ltb (length bytes) (pos + 2 + k) ≡ false = ground arith in
      rw (read, a, b, at, from_utf8-as_bytes t, tail) refl

  parse_terms-encode_terms :
      (ts : List T) (pre : Bytes)
      → IsShort ts
      → parse_terms u (length ts) (length pre) (pre ++ encode_terms u ts) ≡ ok ts
  parse_terms-encode_terms [] pre h = unfold parse_terms in refl
  parse_terms-encode_terms (t ∷ ts) pre h =
      let bs = u.as_bytes t in
      let k = length bs in
      let head = le_bytes 2 k in
      let short = h t (inl refl) in
      let rest = encode_terms u ts in
      let bytes = pre ++ (head ++ (bs ++ rest)) in
      let whole : pre ++ encode_terms u (t ∷ ts) ≡ bytes =
        ap (λ xs. pre ++ xs)
          (encode_terms_cons t ts
            ∙ ap (λ xs. xs ++ rest) (encode_term-eq t short)
            ∙ append_assoc head bs rest) in
      let two : length head ≡ 2 = length-le_bytes 2 k in
      let front : length (pre ++ head) ≡ length pre + 2 =
        length-append pre head ∙ omega (arith, two) in
      let read : from_le (slice (length pre) 2 bytes) ≡ k =
        ap from_le (slice-append pre head (bs ++ rest) 2 (sym two)) ∙ from_le-le_bytes_2 k short in
      let split : bytes ≡ (pre ++ head) ++ (bs ++ rest) =
        sym (append_assoc pre head (bs ++ rest)) in
      let split' : bytes ≡ ((pre ++ head) ++ bs) ++ rest =
        split ∙ sym (append_assoc (pre ++ head) bs rest) in
      let next : length ((pre ++ head) ++ bs) ≡ length pre + 2 + k =
        length-append (pre ++ head) bs ∙ omega (arith, front) in
      let room : length pre + 2 + k ≤ length bytes =
        omega (arith, next, length-append ((pre ++ head) ++ bs) rest, ap length split') in
      let at : slice (length pre + 2) k bytes ≡ bs =
        cc
          (ap (slice (length pre + 2) k) split, front, slice-append (pre ++ head) bs rest k refl) in
      let tail : parse_terms u (length ts) (length pre + 2 + k) bytes ≡ ok ts =
        cc (next, split', parse_terms-encode_terms ts ((pre ++ head) ++ bs) (λ q m. h q (inr m))) in
      ap (parse_terms u (suc (length ts)) (length pre)) whole
      ∙ parse_terms_step (length ts) (length pre) k bytes t ts read room at tail

  -- A lexicon of fewer than 2 ^ 32 terms, each of less than 2 ^ 16 bytes, is read back from its
  -- file, where the bytes of a string are read as that string.
  pub parse-encode_lexicon :
      (ts : List T) → IsShort ts → length ts < 2 ^ 32 → parse u (encode_lexicon u ts) ≡ ok ts
  parse-encode_lexicon ts h few =
      let n = length ts in
      let body = le_bytes 4 n ++ encode_terms u ts in
      let pre = lexicon_magic ++ le_bytes 4 n in
      let size : n % 2 ^ 32 ≡ n = omega arith in
      let four : length (le_bytes 4 n) ≡ 4 = length-le_bytes 4 n in
      let bytes = lexicon_magic ++ body in
      let whole : encode_lexicon u ts ≡ bytes =
        encode_lexicon_parts ts
        ∙ ap (λ (k : ℕ). lexicon_magic ++ (le_bytes 4 k ++ encode_terms u ts)) size in
      let room : 8 ≤ length bytes =
        omega (arith, length-append (le_bytes 4 n) (encode_terms u ts), four) in
      let magic : slice 0 4 bytes ≡ lexicon_magic = slice-append [] lexicon_magic body 4 refl in
      let count : from_le (slice 4 4 bytes) ≡ n =
        ap from_le (slice-append lexicon_magic (le_bytes 4 n) (encode_terms u ts) 4 (sym four))
        ∙ from_le-le_bytes_4 n few in
      let split : bytes ≡ pre ++ encode_terms u ts =
        sym (append_assoc lexicon_magic (le_bytes 4 n) (encode_terms u ts)) in
      let at : length pre ≡ 8 = omega (arith, four) in
      let terms : parse_terms u n 8 bytes ≡ ok ts =
        cc (at, split, parse_terms-encode_terms ts pre h) in
      ap (parse u) whole ∙ parse_parts n bytes ts room magic count terms

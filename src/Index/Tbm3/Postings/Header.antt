-- ===== src/Index/Tbm3/Postings/Header.antt =====
-- The header of a block, written and read at an offset.
use toradb.Prelude.{
  ℕ, zero, suc, ◌+◌, ◌^◌, ◌≤◌, ◌<◌, ◌≡◌, refl, sym, ap, ◌∙◌, false, List, [], ◌∷◌, ◌++◌, ltb,
  length, length-append, arith, ok, append_assoc,
}
use toradb.Index.Bytes.{
  Bytes, le_bytes, from_le, slice, from_le-le_bytes_4, length-le_bytes, slice-append,
}
use toradb.Index.Tbm3.Postings.{Float, header_bytes, read_block_header, BlockHeader}

pub slice-skip :
    {A : Type 0} (xs rest : List A) (k n : ℕ)
    → slice (length xs + k) n (xs ++ rest) ≡ slice k n rest
unfolding slice
slice-skip [] rest k n = let e : zero + k ≡ k = omega arith in rw e
slice-skip (x ∷ xs) rest k n =
    let e : suc (length xs) + k ≡ suc (length xs + k) = omega arith in rw e (slice-skip xs rest k n)

-- A field at a position that is the length of what stands before it.
pub slice_at :
    {A : Type 0} (pre xs rest : List A) (pos n : ℕ)
    → pos ≡ length pre
    → n ≡ length xs
    → slice pos n (pre ++ (xs ++ rest)) ≡ xs
slice_at pre xs rest pos n e h = rw e (slice-append pre xs rest n h)

pub slice_past :
    {A : Type 0} (xs rest : List A) (w k n : ℕ)
    → w ≡ length xs
    → slice (w + k) n (xs ++ rest) ≡ slice k n rest
slice_past xs rest w k n e = rw e (slice-skip xs rest k n)

from_le-le_bytes_8 : (v : ℕ) → v < 2 ^ 64 → from_le (le_bytes 8 v) ≡ v
unfolding le_bytes from_le
from_le-le_bytes_8 v h = omega arith

module _ {F : Type 0} (fl : Float F) where
  -- The fields of a header with its best score in bytes, and what follows.
  abbrev pub laid_out : ℕ → ℕ → Bytes → ℕ → ℕ → ℕ → Bytes → Bytes
  laid_out last count best bits docid_len tf_len tail =
      le_bytes 8 last
      ++ (le_bytes 4 count
          ++ (best ++ (bits ∷ (le_bytes 4 docid_len ++ (le_bytes 4 tf_len ++ tail)))))

  pub header_bytes-laid_out :
      (last count bits docid_len tf_len : ℕ) (best : F) (tail : Bytes)
      → header_bytes fl last count best bits docid_len tf_len ++ tail
        ≡ laid_out last count (fl.to_le_bytes best) bits docid_len tf_len tail
  unfolding le_bytes
  header_bytes-laid_out last count bits docid_len tf_len best tail =
      ap (λ (t : Bytes). le_bytes 8 last ++ (le_bytes 4 count ++ t))
        (append_assoc (fl.to_le_bytes best) _ tail)

  module _ (pre best tail : Bytes) (last count bits docid_len tf_len : ℕ)
      (four : length best ≡ 4) where
    read_last :
        slice (length pre) 8 (pre ++ laid_out last count best bits docid_len tf_len tail)
        ≡ le_bytes 8 last
    read_last = slice-append pre (le_bytes 8 last) _ 8 (sym (length-le_bytes 8 last))

    read_count :
        slice (length pre + 8) 4 (pre ++ laid_out last count best bits docid_len tf_len tail)
        ≡ le_bytes 4 count
    unfolding le_bytes slice
    read_count = slice-skip pre (laid_out last count best bits docid_len tf_len tail) 8 4

    read_best :
        slice (length pre + 12) 4 (pre ++ laid_out last count best bits docid_len tf_len tail)
        ≡ best
    unfolding le_bytes slice
    read_best =
        slice-skip pre (laid_out last count best bits docid_len tf_len tail) 12 4
        ∙ slice_at [] best (bits ∷ (le_bytes 4 docid_len ++ (le_bytes 4 tf_len ++ tail))) 0 4 refl
            (sym four)

    read_bits :
        slice (length pre + 16) 1 (pre ++ laid_out last count best bits docid_len tf_len tail)
        ≡ bits ∷ []
    unfolding le_bytes slice
    read_bits =
        slice-skip pre (laid_out last count best bits docid_len tf_len tail) 16 1
        ∙ slice_past best (bits ∷ (le_bytes 4 docid_len ++ (le_bytes 4 tf_len ++ tail))) 4 0 1
            (sym four)

    read_docid_len :
        slice (length pre + 17) 4 (pre ++ laid_out last count best bits docid_len tf_len tail)
        ≡ le_bytes 4 docid_len
    unfolding le_bytes slice
    read_docid_len =
        slice-skip pre (laid_out last count best bits docid_len tf_len tail) 17 4
        ∙ slice_past best (bits ∷ (le_bytes 4 docid_len ++ (le_bytes 4 tf_len ++ tail))) 4 1 4
            (sym four)

    read_tf_len :
        slice (length pre + 21) 4 (pre ++ laid_out last count best bits docid_len tf_len tail)
        ≡ le_bytes 4 tf_len
    unfolding le_bytes slice
    read_tf_len =
        slice-skip pre (laid_out last count best bits docid_len tf_len tail) 21 4
        ∙ slice_past best (bits ∷ (le_bytes 4 docid_len ++ (le_bytes 4 tf_len ++ tail))) 4 5 4
            (sym four)

    pub slice-laid_out :
        (k n : ℕ)
        → slice (length pre + 25 + k) n (pre ++ laid_out last count best bits docid_len tf_len tail)
          ≡ slice k n tail
    unfolding le_bytes slice
    slice-laid_out k n =
        let header = laid_out last count best bits docid_len tf_len [] in
        let fields = bits ∷ (le_bytes 4 docid_len ++ (le_bytes 4 tf_len ++ [])) in
        let width : 25 ≡ length header = omega (arith, length-append best fields, four) in
        let apart : header ++ tail ≡ laid_out last count best bits docid_len tf_len tail =
          ap (λ (t : Bytes). le_bytes 8 last ++ (le_bytes 4 count ++ t))
            (append_assoc best fields tail) in
        let position : length pre + 25 + k ≡ length pre + (25 + k) = omega arith in
        rw (position, ← apart, slice-skip pre (header ++ tail) (25 + k) n)
          (slice_past header tail 25 k n width)

    pub length-laid_out :
        length (pre ++ laid_out last count best bits docid_len tf_len tail)
        ≡ length pre + 25 + length tail
    unfolding le_bytes
    length-laid_out = omega (
      arith,
      length-append pre (laid_out last count best bits docid_len tf_len tail),
      length-append best (bits ∷ (le_bytes 4 docid_len ++ (le_bytes 4 tf_len ++ tail))),
      four,
    )

module _ {F : Type 0} (fl : Float F) where
  -- What a header says of a block whose own bytes begin at `pos`.
  unfoldable pub header_at : ℕ → ℕ → ℕ → F → ℕ → ℕ → ℕ → BlockHeader F
  header_at pos last count best bits docid_len tf_len = record {
    block_last_docid = last;
    count = count;
    block_max_tf = best;
    docid_bits = bits;
    docid_payload_off = pos + 25;
    tf_payload_off = pos + 25 + docid_len;
    tf_payload_len = tf_len;
    next_block_off = pos + 25 + docid_len + tf_len;
  }

  module _ (pre tail : Bytes) (last count bits docid_len tf_len : ℕ) (best : F)
      (four : length (fl.to_le_bytes best) ≡ 4)
      (same : fl.from_le_bytes (fl.to_le_bytes best) ≡ best) where
    pub read_block_header-laid_out :
        last < 2 ^ 64
        → count < 2 ^ 32
        → docid_len < 2 ^ 32
        → tf_len < 2 ^ 32
        → docid_len + tf_len ≤ length tail
        → read_block_header fl
            (pre ++ laid_out fl last count (fl.to_le_bytes best) bits docid_len tf_len tail)
            (length pre)
          ≡ ok (header_at (length pre) last count best bits docid_len tf_len)
    unfolding read_block_header header_at from_le
    read_block_header-laid_out hl hc hd ht fits =
        let long =
          length-laid_out fl pre (fl.to_le_bytes best) tail last count bits docid_len tf_len four in
        let one : bits + 0 ≡ bits = omega arith in
        let header : ltb (length pre + 25 + length tail) (length pre + 25) ≡ false = ground arith in
        let payload : ltb (length pre + 25 + length tail) (length pre + 25 + docid_len + tf_len)
            ≡ false =
          ground arith in
        rw (
          read_last fl pre (fl.to_le_bytes best) tail last count bits docid_len tf_len four,
          read_count fl pre (fl.to_le_bytes best) tail last count bits docid_len tf_len four,
          read_best fl pre (fl.to_le_bytes best) tail last count bits docid_len tf_len four,
          read_bits fl pre (fl.to_le_bytes best) tail last count bits docid_len tf_len four,
          read_docid_len fl pre (fl.to_le_bytes best) tail last count bits docid_len tf_len four,
          read_tf_len fl pre (fl.to_le_bytes best) tail last count bits docid_len tf_len four,
          from_le-le_bytes_8 last hl,
          from_le-le_bytes_4 count hc,
          from_le-le_bytes_4 docid_len hd,
          from_le-le_bytes_4 tf_len ht,
          same,
          long,
          header,
          payload,
          one,
        )

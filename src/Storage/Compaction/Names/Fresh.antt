-- ===== src/Storage/Compaction/Names/Fresh.antt =====
-- The new name, compared with the names of the manifest.
use toradb.Prelude.{
  ℕ, ◌+◌, ◌-◌, ◌%◌, ◌^◌, ◌≤◌, ◌<◌, ◌≡◌, ap, ◌∙◌, inl, inr, true, false, Bool-cases, Option, none,
  some, Option-cases, List, [], ◌∷◌, ◌++◌, Text, text, text_beq, text_beq_iff, text_eq, decimal,
  parse_uint, parse_uint_zeros, strip_prefix, length, filter_map, max_or, arith,
}
use mathlib.Core.List.{reverse, reverse-append, reverse-reverse}
use toradb.Collections.Keys.{contains}
use toradb.Storage.Manifest.{TableManifestFile}
use toradb.Storage.Compaction.Names.{strip_suffix, segment_number, padded, next_segment_name}

strip_suffix-append : (x : Text) → strip_suffix (text ".parquet") (x ++ text ".parquet") ≡ some x
unfolding strip_suffix
strip_suffix-append x =
    ap
      (λ (s : Text). elim (strip_prefix (reverse (text ".parquet")) s) [
        | none ↦ none
        | some r ↦ some (reverse r)
      ])
      (reverse-append x (text ".parquet"))
    ∙ (unfold strip_prefix in ap (λ (r : Text). some r) (reverse-reverse x))

name_of : ℕ → Text
name_of n = text "seg_" ++ (padded n ++ text ".parquet")

segment_number-name : (n : ℕ) → n < 2 ^ 32 → segment_number (name_of n) ≡ some n
unfolding segment_number name_of
segment_number-name n h =
    ap (λ (o : Option Text). elim o [ none ↦ none | some d ↦ parse_uint (2 ^ 32) d ])
      (strip_suffix-append (padded n))
    ∙ (unfold padded in parse_uint_zeros (2 ^ 32) (5 - length (decimal n)) n h)

max_or_bound : (d x : ℕ) (xs : List ℕ) → x ≤ max_or d (x ∷ xs)
unfolding max_or
max_or_bound d x [] = omega arith
max_or_bound d x (y ∷ xs) = omega arith

max_or_tail : (x : ℕ) (xs : List ℕ) → max_or 0 xs ≤ max_or 0 (x ∷ xs)
unfolding max_or
max_or_tail x [] = omega arith
max_or_tail x (y ∷ xs) = omega arith

-- The number of every listed segment is at most the largest.
number-le :
    (f : Text) (segs : List Text) (n : ℕ)
    → contains f segs ≡ true
    → segment_number f ≡ some n
    → n ≤ max_or 0 (filter_map segment_number segs)
unfolding contains filter_map
number-le f [] n h e = absurd (ground arith)
number-le f (s ∷ segs) n h e = elim (Bool-cases (text_beq s f)) [
  | inl same ↦
      let is : segment_number s ≡ some n = ap segment_number ((text_beq_iff s f).0 same) ∙ e in
      rw (is, filter_map) (max_or_bound 0 n (filter_map segment_number segs))
  | inr other ↦
      let rest = number-le f segs n (ground arith) e in
      elim (Option-cases (segment_number s)) [
        | inl u ↦ rw (u, filter_map) rest
        | inr (k, u) ↦
            rw (u, filter_map) (omega (arith, max_or_tail k (filter_map segment_number segs)))
      ]
]

-- While the number of the new segment fits 32 bits, its name is not in the manifest.
pub next_segment_name_fresh :
    (m : TableManifestFile)
    → max_or 0 (filter_map segment_number m.segments) + 1 < 2 ^ 32
    → contains (next_segment_name m) m.segments ≡ false
unfolding next_segment_name
next_segment_name_fresh m h =
    let top = max_or 0 (filter_map segment_number m.segments) in
    let wrap : (top + 1) % 2 ^ 32 ≡ top + 1 = omega arith in
    let number = segment_number-name (top + 1) h in
    elim (Bool-cases (contains (name_of (top + 1)) m.segments)) [
      | inl there ↦
          absurd (omega (arith, number-le (name_of (top + 1)) m.segments (top + 1) there number))
      | inr absent ↦ rw wrap (unfold name_of in absent)
    ]

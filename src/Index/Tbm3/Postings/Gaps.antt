-- ===== src/Index/Tbm3/Postings/Gaps.antt =====
-- The gaps between the ids of a block, and the documents that they and the frequencies give back.
use toradb.Prelude.{
  ℕ, suc, ◌+◌, ◌-◌, ◌*◌, ◌%◌, ◌^◌, ◌≤◌, ◌<◌, ◌≡◌, refl, ap, min, max, some, List, [], ◌∷◌, ◌++◌,
  length, length-append, arith, append_assoc,
}
use mathlib.Core.Path.{subst}
use toradb.Index.Bytes.{Bytes}
use toradb.Index.Tbm3.Varbyte.{varbyte_encode, varbyte_decode-encode, length-varbyte_encode}
use toradb.Index.Tbm3.Bitpack.{bits_needed, bitpack, bitunpack}
use toradb.Index.Tbm3.Bitpack.Fields.{AllBelow}
use toradb.Index.Tbm3.Bitpack.RoundTrip.{bitunpack-bitpack}
use toradb.Index.Tbm3.Bitpack.Sizes.{bits_needed_lem}
use toradb.Index.Tbm3.Postings.{Posting, deltas_from, tf_payload, largest, last_id, block_docs}

-- Ids in ascending order whose gaps fit 32 bits, and term frequencies that fit and are not zero.
abbrev pub FitsFrom : ℕ → List Posting → Type 0
FitsFrom prev [] = Unit {0}
FitsFrom prev (x ∷ xs) =
    ((prev ≤ x.0) × (x.0 < 2 ^ 64) × (x.0 < prev + 2 ^ 32) × (1 ≤ x.1) × (x.1 < 2 ^ 32))
    × FitsFrom (x.0) xs

pub length-deltas_from : (prev : ℕ) (xs : List Posting) → length (deltas_from prev xs) ≡ length xs
unfolding deltas_from
length-deltas_from prev [] = refl
length-deltas_from prev (x ∷ xs) = ap suc (length-deltas_from (x.0) xs)

AllBelow-mono : (m n : ℕ) (vs : List ℕ) → m ≤ n → AllBelow m vs → AllBelow n vs
unfolding AllBelow
AllBelow-mono m n [] h a = a
AllBelow-mono m n (v ∷ vs) h (k, a) = (omega arith, AllBelow-mono m n vs h a)

-- Every gap is below one more than the largest.
AllBelow-largest : (vs : List ℕ) → AllBelow (suc (largest vs)) vs
unfolding AllBelow largest
AllBelow-largest [] = _
AllBelow-largest (v ∷ vs) = (
  omega arith,
  AllBelow-mono (suc (largest vs)) (suc (max v (largest vs))) vs (omega arith)
      (AllBelow-largest vs),
)

pub largest-deltas_from : (prev : ℕ) (xs : List Posting) → largest (deltas_from prev xs) < 2 ^ 32
unfolding deltas_from largest
largest-deltas_from prev [] = omega arith
largest-deltas_from prev (x ∷ xs) = omega (arith, largest-deltas_from (x.0) xs)

pub block_docs-deltas_from :
    (prev : ℕ) (xs : List Posting) (rest : Bytes)
    → FitsFrom prev xs
    → block_docs prev (deltas_from prev xs) (tf_payload xs ++ rest) ≡ some (xs, last_id prev xs)
unfolding block_docs deltas_from tf_payload last_id
block_docs-deltas_from prev [] rest h = refl
block_docs-deltas_from prev ((id, tf) ∷ xs) rest ((h1, h2, h3, h4, h5), hs) =
    let gap : (prev + (id - prev) % 2 ^ 32) % 2 ^ 64 ≡ id = omega arith in
    let freq : min (tf - 1 + 1) (2 ^ 32 - 1) ≡ tf = omega arith in
    rw
      (
        append_assoc (varbyte_encode (tf - 1)) (tf_payload xs) rest,
        block_docs,
        varbyte_decode-encode (tf - 1) (tf_payload xs ++ rest) (omega arith),
        gap,
        block_docs-deltas_from id xs rest hs,
        gap,
      )
      (ap (λ (k : ℕ). some ((id, k) ∷ xs, last_id id xs)) freq)

pub length-tf_payload : (xs : List Posting) → length (tf_payload xs) ≤ 5 * length xs
unfolding tf_payload
length-tf_payload [] = omega arith
length-tf_payload (x ∷ xs) = omega (
  arith,
  length-append (varbyte_encode (x.1 - 1)) (tf_payload xs),
  length-varbyte_encode (x.1 - 1),
  length-tf_payload xs,
)

pub FitsFrom-append :
    (prev : ℕ) (xs ys : List Posting)
    → FitsFrom prev (xs ++ ys)
    → FitsFrom prev xs × FitsFrom (last_id prev xs) ys
unfolding last_id
FitsFrom-append prev [] ys h = (_, h)
FitsFrom-append prev (x ∷ xs) ys (hx, h) = let r = FitsFrom-append (x.0) xs ys h in ((hx, r.0), r.1)

pub last_id-FitsFrom :
    (prev : ℕ) (xs : List Posting) → prev < 2 ^ 64 → FitsFrom prev xs → last_id prev xs < 2 ^ 64
unfolding last_id
last_id-FitsFrom prev [] k h = k
last_id-FitsFrom prev (x ∷ xs) k ((h1, h2, h3, h4, h5), h) = last_id-FitsFrom (x.0) xs h2 h

-- The gaps of a block are what its packed payload holds.
pub bitunpack-deltas_from :
    (prev : ℕ) (xs : List Posting)
    → length xs ≤ 128
    → let deltas = deltas_from prev xs in
      let bits = bits_needed (largest deltas) in
      bitunpack (bitpack deltas bits) bits (length xs) ≡ deltas
bitunpack-deltas_from prev xs short =
    let deltas = deltas_from prev xs in
    let bits = bits_needed (largest deltas) in
    let (fits, few) = bits_needed_lem (largest deltas) (largest-deltas_from prev xs) in
    let below =
      AllBelow-mono (suc (largest deltas)) (2 ^ bits) deltas fits (AllBelow-largest deltas) in
    subst (λ (n : ℕ). bitunpack (bitpack deltas bits) bits n ≡ deltas) (length-deltas_from prev xs)
      (bitunpack-bitpack bits deltas few (omega (arith, length-deltas_from prev xs)) below)

-- ===== src/Index/Tbm3/Bitpack/Sizes.antt =====
-- How many bits a number needs, and how many bytes its fields take.
use toradb.Prelude.{
  ℕ, zero, suc, ◌+◌, ◌*◌, ◌/◌, ◌%◌, ◌^◌, ◌≤◌, ◌<◌, Bool-cases, inl, inr, List, [], ◌∷◌, ◌==◌, arith,
  length, length-append,
}
use native.Mathlib.Nat.{pow-suc}
use toradb.Index.Tbm3.Bitpack.{bits_within, bits_needed, flush_within, flush, pack_loop, bitpack}
use toradb.Index.Tbm3.Bitpack.Packing.{flush_within_lem}

pack_loop-length :
    (bits acc filled : ℕ) (vs : List ℕ)
    → bits ≤ 32
    → 8 * length (pack_loop bits acc filled vs) ≤ filled + 32 * length vs + 7
unfolding pack_loop flush
pack_loop-length bits acc filled [] h = ground arith
pack_loop-length bits acc filled (v ∷ vs) h =
    let a = acc + v % 2 ^ bits * 2 ^ filled % 2 ^ 64 in
    let p = flush_within_lem (filled + bits) a (filled + bits) (omega arith) in
    let q = flush_within (filled + bits) a (filled + bits) in
    omega (
      arith,
      p.count,
      pack_loop-length bits q.acc q.filled vs h,
      length-append q.bytes (pack_loop bits q.acc q.filled vs),
    )

-- The bytes of at most 128 numbers.
pub length-bitpack :
    (bits : ℕ) (vs : List ℕ) → bits ≤ 32 → length vs ≤ 128 → length (bitpack vs bits) < 1000
unfolding bitpack
length-bitpack bits vs h k = elim (Bool-cases (bits == 0)) [
  | inl e ↦ rw e (omega arith)
  | inr e ↦ rw e (omega (arith, pack_loop-length bits 0 0 vs h))
]

bits_within_lem :
    (turns v : ℕ) → v < 2 ^ turns → (v < 2 ^ bits_within turns v) × (bits_within turns v ≤ turns)
unfolding bits_within
bits_within_lem zero v h = (h, omega arith)
bits_within_lem (suc turns) v h = elim (Bool-cases (v == 0)) [
  | inl e ↦ rw e (ground arith, omega arith)
  | inr e ↦
      let (fits, few) = bits_within_lem turns (v / 2) (omega (arith, pow-suc 2 turns)) in
      rw e (omega (arith, fits, pow-suc 2 (bits_within turns (v / 2))), omega (arith, few))
]

-- A `u32` fits the bits that it needs, of which there are at most 32.
pub bits_needed_lem : (v : ℕ) → v < 2 ^ 32 → (v < 2 ^ bits_needed v) × (bits_needed v ≤ 32)
unfolding bits_needed
bits_needed_lem v h = bits_within_lem 32 v h

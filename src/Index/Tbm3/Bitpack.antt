-- ===== src/Index/Tbm3/Bitpack.antt =====
-- Numbers of so many bits, packed into bytes from the lowest bit on. The accumulator is a `u64`: bits
-- that are shifted beyond it are lost. A field is added to it, since its bits are disjoint from those
-- that are filled. The widths are below 64, at which the shifts of the source overflow.
pub mod Fields
pub mod Packing
pub mod RoundTrip
pub mod Sizes
mod Tests
use toradb.Prelude.{
  ℕ, zero, suc, ◌+◌, ◌-◌, ◌*◌, ◌/◌, ◌%◌, ◌^◌, Bool, List, [], ◌∷◌, ◌++◌, ltb, leb, ◌==◌,
  if◌then◌else◌, replicate, min,
}
use toradb.Index.Bytes.{Bytes}

-- The number of bits up to the highest; 32 turns suffice for a `u32`.
unfoldable pub bits_within : ℕ → ℕ → ℕ
bits_within zero v = 0
bits_within (suc turns) v = let rest = suc (bits_within turns (v / 2)) in if v == 0 then 0 else rest

unfoldable pub bits_needed : ℕ → ℕ
unfolding bits_within
bits_needed v = bits_within 32 v

-- The accumulator with the number of its bits, and the bytes that were written.
pub record Packed : Type 0 where
  pub bytes : Bytes
  pub acc : ℕ
  pub filled : ℕ

-- The loop over whole bytes; there are at most as many as bits.
unfoldable pub flush_within : ℕ → ℕ → ℕ → Packed
flush_within zero acc filled = record { bytes = []; acc = acc; filled = filled }
flush_within (suc turns) acc filled =
    let rest = flush_within turns (acc / 256) (filled - 8) in
    if leb 8 filled
    then record rest { bytes = acc % 256 ∷ rest.bytes }
    else record { bytes = []; acc = acc; filled = filled }

unfoldable pub flush : ℕ → ℕ → Packed
unfolding flush_within
flush acc filled = flush_within filled acc filled

unfoldable pub pack_loop : ℕ → ℕ → ℕ → List ℕ → Bytes
unfolding flush
pack_loop bits acc filled [] = if ltb 0 filled then acc % 256 ∷ [] else []
pack_loop bits acc filled (v ∷ vs) =
    let p = flush (acc + v % 2 ^ bits * 2 ^ filled % 2 ^ 64) (filled + bits) in
    p.bytes ++ pack_loop bits p.acc p.filled vs

unfoldable pub bitpack : List ℕ → ℕ → Bytes
unfolding pack_loop
bitpack values bits = if bits == 0 then [] else pack_loop bits 0 0 values

-- The accumulator and what is left of the payload.
pub record Reading : Type 0 where
  pub acc : ℕ
  pub filled : ℕ
  pub payload : Bytes

-- The loop that reads bytes, zeros past the end; there are at most as many as bits.
unfoldable pub fill_within : ℕ → ℕ → Reading → Reading
fill_within zero bits r = r
fill_within (suc turns) bits r =
    let more = fill_within turns bits (elim r.payload [
      | [] ↦ record r { filled = r.filled + 8 }
      | b ∷ bs ↦ record {
        acc = r.acc + b * 2 ^ r.filled % 2 ^ 64;
        filled = r.filled + 8;
        payload = bs;
      }
    ]) in
    if ltb r.filled bits then more else r

unfoldable pub unpack_loop : ℕ → ℕ → Reading → List ℕ
unfolding fill_within
unpack_loop bits zero r = []
unpack_loop bits (suc count) r =
    let f = fill_within bits bits r in
    f.acc % 2 ^ bits % 2 ^ 32
    ∷ unpack_loop bits count
        (record { acc = f.acc / 2 ^ bits; filled = f.filled - bits; payload = f.payload })

-- The slots of a block that are filled; there are 128.
unfoldable pub bitunpack : Bytes → ℕ → ℕ → List ℕ
unfolding unpack_loop
bitunpack payload bits count =
    let slots = min count 128 in
    if bits == 0
    then replicate slots 0
    else unpack_loop bits slots (record { acc = 0; filled = 0; payload = payload })

-- ===== src/Index/Tbm3/Bitpack/Packing.antt =====
-- The bytes that are written, as one number.
use toradb.Prelude.{
  ℕ, zero, suc, ◌+◌, ◌-◌, ◌*◌, ◌/◌, ◌%◌, ◌^◌, ◌≤◌, ◌<◌, ◌≡◌, ap, ◌∙◌, Bool-cases, inl, inr, List,
  [], ◌∷◌, ◌++◌, ltb, leb, arith, length,
}
use native.Mathlib.Nat.{one-le-pow, mul_comm, mul_assoc, mul-add, mod-eq_of_lt, pow-le-pow_right}
use toradb.Index.Bytes.{Bytes, from_le}
use toradb.Index.Tbm3.Bitpack.{Packed, flush_within, flush, pack_loop}
use toradb.Index.Tbm3.Bitpack.Fields.{pow-add, number, AllBelow, AllBelow-append}

byte_off : (f n : ℕ) → 8 ≤ f → 2 ^ f * n ≡ 256 * (2 ^ (f - 8) * n)
byte_off f n h =
    let split : f ≡ 8 + (f - 8) = omega arith in
    ap (λ (k : ℕ). 2 ^ k * n) split
    ∙ ap (λ (x : ℕ). x * n) (pow-add 2 8 (f - 8))
    ∙ mul_assoc 256 (2 ^ (f - 8)) n

byte_bound : (f acc : ℕ) → 8 ≤ f → acc < 2 ^ f → acc / 256 < 2 ^ (f - 8)
byte_bound f acc h k = omega (arith, byte_off f 1 h)

-- The accumulator with the bytes that follow is the number that it was.
pub record Flushed (acc filled : ℕ) (p : Packed) : Type 0 where
  pub value :
      (n : ℕ) (rest : Bytes)
      → from_le rest ≡ p.acc + 2 ^ p.filled * n
      → from_le (p.bytes ++ rest) ≡ acc + 2 ^ filled * n
  pub short : p.filled < 8
  pub fits : acc < 2 ^ filled → p.acc < 2 ^ p.filled
  pub count : 8 * length p.bytes + p.filled ≡ filled

pub flush_within_lem :
    (turns acc filled : ℕ) → filled ≤ turns → Flushed acc filled (flush_within turns acc filled)
unfolding flush_within from_le
flush_within_lem zero acc filled h = record {
  value = λ n rest e. e;
  short = omega arith;
  fits = λ k. k;
  count = omega arith;
}
flush_within_lem (suc turns) acc filled h = elim (Bool-cases (leb 8 filled)) [
  | inr e ↦
      rw e
        (record { value = λ n rest e. e; short = ground arith; fits = λ k. k; count = omega arith })
  | inl e ↦
      let eight : 8 ≤ filled = ground arith in
      let next = flush_within_lem turns (acc / 256) (filled - 8) (omega arith) in
      rw e (record {
        value = λ n rest k. omega (arith, next.value n rest k, byte_off filled n eight);
        short = next.short;
        fits = λ k. next.fits (byte_bound filled acc eight k);
        count = omega (arith, next.count);
      })
]

low_bits_small : (f acc : ℕ) → f < 8 → acc < 2 ^ f → acc < 256
low_bits_small f acc h k =
    omega (arith, pow-le-pow_right {n = 2} (omega arith) {i = f} {j = 8} (omega arith))

-- A field behind those that are filled.
field_bound :
    (bits filled acc v : ℕ)
    → acc < 2 ^ filled
    → v < 2 ^ bits
    → acc + v * 2 ^ filled < 2 ^ (filled + bits)
field_bound bits filled acc v h k = grind (arith, pow-add 2 filled bits)

field_value :
    (bits filled acc v n : ℕ)
    → acc + v * 2 ^ filled + 2 ^ (filled + bits) * n ≡ acc + 2 ^ filled * (v + 2 ^ bits * n)
field_value bits filled acc v n = omega (
  arith,
  ap (λ (x : ℕ). x * n) (pow-add 2 filled bits),
  mul_assoc (2 ^ filled) (2 ^ bits) n,
  mul-add (2 ^ filled) v (2 ^ bits * n),
  mul_comm v (2 ^ filled),
)

-- A shift that stays within 64 bits loses none.
pub shift_within :
    (bits filled v : ℕ)
    → v < 2 ^ bits
    → filled + bits ≤ 64
    → v * 2 ^ filled % 2 ^ 64 ≡ v * 2 ^ filled
shift_within bits filled v h k = mod-eq_of_lt (
    omega (
      arith,
      field_bound bits filled 0 v (one-le-pow filled 2 (omega arith)) h,
      pow-le-pow_right {n = 2} (omega arith) {i = filled + bits} {j = 64} k,
    ))

pub pack_loop_value :
    (bits acc filled : ℕ) (vs : List ℕ)
    → bits ≤ 32
    → filled < 8
    → acc < 2 ^ filled
    → AllBelow (2 ^ bits) vs
    → from_le (pack_loop bits acc filled vs) ≡ acc + 2 ^ filled * number bits vs
unfolding pack_loop number AllBelow flush from_le
pack_loop_value bits acc filled [] few short fits h = elim (Bool-cases (ltb 0 filled)) [
  | inl e ↦ rw e (omega (arith, low_bits_small filled acc short fits))
  | inr e ↦
      let none : filled ≡ 0 = ground arith in
      let nothing : acc < 1 = omega (arith, fits, ap (λ (x : ℕ). 2 ^ x) none) in rw e (omega arith)
]
pack_loop_value bits acc filled (v ∷ vs) few short fits h =
    let same : v % 2 ^ bits ≡ v = mod-eq_of_lt (h.0) in
    let p = flush_within_lem (filled + bits) (acc + v * 2 ^ filled) (filled + bits) (omega arith) in
    let inside = field_bound bits filled acc v fits (h.0) in
    let q = flush_within (filled + bits) (acc + v * 2 ^ filled) (filled + bits) in
    let whole = shift_within bits filled v (h.0) (omega arith) in
    rw (same, whole)
      (p.value (number bits vs) (pack_loop bits q.acc q.filled vs)
          (pack_loop_value bits q.acc q.filled vs few p.short (p.fits inside) (h.1))
        ∙ field_value bits filled acc v (number bits vs))

flush_within-AllBelow : (turns acc filled : ℕ) → AllBelow 256 (flush_within turns acc filled).bytes
unfolding flush_within AllBelow
flush_within-AllBelow zero acc filled = _
flush_within-AllBelow (suc turns) acc filled = elim (Bool-cases (leb 8 filled)) [
  | inl e ↦ rw e (omega arith, flush_within-AllBelow turns (acc / 256) (filled - 8))
  | inr e ↦ rw e tt
]

-- Bytes are written.
pub pack_loop-AllBelow :
    (bits acc filled : ℕ) (vs : List ℕ) → AllBelow 256 (pack_loop bits acc filled vs)
unfolding pack_loop flush AllBelow
pack_loop-AllBelow bits acc filled [] = elim (Bool-cases (ltb 0 filled)) [
  | inl e ↦ rw e (omega arith, _)
  | inr e ↦ rw e tt
]
pack_loop-AllBelow bits acc filled (v ∷ vs) =
    let a = acc + v % 2 ^ bits * 2 ^ filled % 2 ^ 64 in
    let q = flush_within (filled + bits) a (filled + bits) in
    AllBelow-append 256 q.bytes (pack_loop bits q.acc q.filled vs)
      (flush_within-AllBelow (filled + bits) a (filled + bits))
      (pack_loop-AllBelow bits q.acc q.filled vs)

-- ===== src/Index/Tbm3/Bitpack/RoundTrip.antt =====
-- What is packed, read back field by field.
use toradb.Prelude.{
  ℕ, zero, suc, ◌+◌, ◌-◌, ◌*◌, ◌/◌, ◌%◌, ◌^◌, ◌≤◌, ◌<◌, ◌≡◌, refl, sym, ap, ◌∙◌, Bool-cases, inl,
  inr, List, [], ◌∷◌, ltb, ◌==◌, arith, length, replicate, min,
}
use native.Mathlib.Nat.{
  one-le-pow, mul_comm, mul_assoc, add-mul-mod_self_left, mul-add, mod-eq_of_lt, add-mul-div_left,
  mod-lt, pow-le-pow_right,
}
use toradb.Index.Bytes.{Bytes, from_le}
use toradb.Index.Tbm3.Bitpack.{pack_loop, bitpack, Reading, fill_within, unpack_loop, bitunpack}
use toradb.Index.Tbm3.Bitpack.Packing.{shift_within, pack_loop_value, pack_loop-AllBelow}
use toradb.Index.Tbm3.Bitpack.Fields.{pow-add, number, fields, AllBelow, fields-number}

-- What is still to be read, as a number.
value_of : Reading → ℕ
value_of r = r.acc + 2 ^ r.filled * from_le r.payload

next_byte : Reading → Reading
next_byte r = elim r.payload [
  | [] ↦ record r { filled = r.filled + 8 }
  | b ∷ bs ↦ record { acc = r.acc + b * 2 ^ r.filled % 2 ^ 64; filled = r.filled + 8; payload = bs }
]

byte_read :
    (acc filled : ℕ) (payload : Bytes)
    → AllBelow 256 payload
    → filled ≤ 56
    → (value_of (next_byte (record { acc = acc; filled = filled; payload = payload }))
        ≡ value_of (record { acc = acc; filled = filled; payload = payload }))
      × ((next_byte (record { acc = acc; filled = filled; payload = payload })).filled ≡ filled + 8)
      × AllBelow 256 (next_byte (record { acc = acc; filled = filled; payload = payload })).payload
unfolding value_of next_byte from_le AllBelow
byte_read acc filled [] h k = (omega arith, refl, _)
byte_read acc filled (b ∷ bs) h k = (
  omega (
    arith,
    shift_within 8 filled b (h.0) (omega arith),
    ap (λ (x : ℕ). x * from_le bs) (pow-add 2 filled 8),
    mul_assoc (2 ^ filled) 256 (from_le bs),
    mul-add (2 ^ filled) b (256 * from_le bs),
    mul_comm b (2 ^ filled),
  ),
  refl,
  h.1,
)

fill_within_lem :
    (turns bits : ℕ) (r : Reading)
    → bits ≤ 32
    → AllBelow 256 r.payload
    → bits ≤ r.filled + turns
    → (value_of (fill_within turns bits r) ≡ value_of r)
      × (bits ≤ (fill_within turns bits r).filled)
      × AllBelow 256 (fill_within turns bits r).payload
unfolding fill_within next_byte
fill_within_lem zero bits r few bytes h = (refl, omega arith, bytes)
fill_within_lem (suc turns) bits r few bytes h = elim (Bool-cases (ltb r.filled bits)) [
  | inr e ↦ rw e (refl, ground arith, bytes)
  | inl e ↦
      let below : r.filled < bits = ground arith in
      let (same, more, left) = byte_read r.acc r.filled r.payload bytes (omega arith) in
      let (kept, full, rest) =
        fill_within_lem turns bits (next_byte r) few left (omega (arith, more)) in
      rw e (kept ∙ same, full, rest)
]

-- A field of the accumulator is one of the whole number.
field_read :
    (bits : ℕ) (r : Reading)
    → bits ≤ r.filled
    → (r.acc % 2 ^ bits ≡ value_of r % 2 ^ bits)
      × (value_of (record { acc = r.acc / 2 ^ bits; filled = r.filled - bits; payload = r.payload })
          ≡ value_of r / 2 ^ bits)
unfolding value_of
field_read bits r h =
    let split : r.filled ≡ bits + (r.filled - bits) = omega arith in
    let high : 2 ^ r.filled * from_le r.payload
        ≡ 2 ^ bits * (2 ^ (r.filled - bits) * from_le r.payload) =
      ap (λ (k : ℕ). 2 ^ k * from_le r.payload) split
      ∙ ap (λ (x : ℕ). x * from_le r.payload) (pow-add 2 bits (r.filled - bits))
      ∙ mul_assoc (2 ^ bits) (2 ^ (r.filled - bits)) (from_le r.payload) in
    rw high (
      sym (add-mul-mod_self_left r.acc (2 ^ bits) (2 ^ (r.filled - bits) * from_le r.payload)),
      sym (
          add-mul-div_left r.acc (2 ^ (r.filled - bits) * from_le r.payload)
            (one-le-pow bits 2 (omega arith))),
    )

unpack_loop-fields :
    (bits count : ℕ) (r : Reading)
    → bits ≤ 32
    → AllBelow 256 r.payload
    → unpack_loop bits count r ≡ fields bits count (value_of r)
unfolding unpack_loop fields
unpack_loop-fields bits zero r few bytes = refl
unpack_loop-fields bits (suc count) r few bytes =
    let (kept, full, left) = fill_within_lem bits bits r few bytes (omega arith) in
    let f = fill_within bits bits r in
    let (low, high) = field_read bits f full in
    let rest : Reading = record {
      acc = f.acc / 2 ^ bits;
      filled = f.filled - bits;
      payload = f.payload;
    } in
    let small : f.acc % 2 ^ bits % 2 ^ 32 ≡ f.acc % 2 ^ bits = mod-eq_of_lt (
      omega (
        arith,
        mod-lt (f.acc) (one-le-pow bits 2 (omega arith)),
        pow-le-pow_right {n = 2} (omega arith) {i = bits} {j = 32} few,
      )) in
    cc (low, high, kept, small, unpack_loop-fields bits count rest few left)

zero_fields :
    (bits : ℕ) (vs : List ℕ) → bits ≡ 0 → AllBelow (2 ^ bits) vs → replicate (length vs) 0 ≡ vs
unfolding AllBelow
zero_fields bits [] e h = refl
zero_fields bits (v ∷ vs) e h =
    let one : v < 1 = omega (arith, h.0, ap (λ (k : ℕ). 2 ^ k) e) in
    let none : 0 ≡ v = omega arith in
    ap (λ (x : ℕ). x ∷ replicate (length vs) 0) none
    ∙ ap (λ (xs : List ℕ). v ∷ xs) (zero_fields bits vs e (h.1))

-- At most 128 numbers that are packed in so many bits each, 32 at most, and fit them, are read
-- back in number and order: the 64-bit accumulator loses none of their bits.
pub bitunpack-bitpack :
    (bits : ℕ) (vs : List ℕ)
    → bits ≤ 32
    → length vs ≤ 128
    → AllBelow (2 ^ bits) vs
    → bitunpack (bitpack vs bits) bits (length vs) ≡ vs
unfolding bitunpack bitpack
bitunpack-bitpack bits vs few short h =
    let slots : min (length vs) 128 ≡ length vs = omega arith in
    elim (Bool-cases (bits == 0)) [
      | inl e ↦ rw (e, slots) (zero_fields bits vs (ground arith) h)
      | inr e ↦
          let packed = pack_loop_value bits 0 0 vs few (omega arith) (omega arith) h in
          let whole : value_of (record { acc = 0; filled = 0; payload = pack_loop bits 0 0 vs })
              ≡ number bits vs =
            unfold value_of in omega (arith, packed) in
          rw (e, slots)
            (unpack_loop-fields bits (length vs)
                (record { acc = 0; filled = 0; payload = pack_loop bits 0 0 vs }) few
                (pack_loop-AllBelow bits 0 0 vs)
              ∙ ap (fields bits (length vs)) whole
              ∙ fields-number bits vs h)
    ]

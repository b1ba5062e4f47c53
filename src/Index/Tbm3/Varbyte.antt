-- ===== src/Index/Tbm3/Varbyte.antt =====
-- Numbers in groups of seven bits. A group is added, since its bits are disjoint from those read.
use toradb.Prelude.{
  ℕ, zero, suc, ◌+◌, ◌*◌, ◌/◌, ◌%◌, ◌^◌, ◌≤◌, ◌<◌, ◌≡◌, refl, ap, ◌∙◌, true, false, Bool-cases, inl,
  inr, Option, none, some, [], ◌∷◌, ◌++◌, ltb, leb, if◌then◌else◌, arith, length,
}
use native.Mathlib.Nat.{div-add-mod, pow-suc}
use toradb.Index.Tbm3.Bitpack.Fields.{pow-add}
use toradb.Index.Bytes.{Bytes}

-- The loop of the encoder; four turns suffice for a `u32`.
unfoldable pub varbyte_within : ℕ → ℕ → Bytes
varbyte_within zero v = v % 256 ∷ []
varbyte_within (suc turns) v =
    let rest = varbyte_within turns (v / 128) in
    if leb 128 v then (v % 128 + 128) ∷ rest else v % 256 ∷ []

unfoldable pub varbyte_encode : ℕ → Bytes
unfolding varbyte_within
varbyte_encode v = varbyte_within 4 v

-- The number and what follows it; `none` is a panic, past the end or at a shift past 32 bits.
varbyte_loop : ℕ → ℕ → Bytes → Option (ℕ × Bytes)
varbyte_loop v shift [] = none
varbyte_loop v shift (b ∷ bs) =
    let v' = v + (b % 128 * 2 ^ shift) % 2 ^ 32 in
    let rest = varbyte_loop v' (shift + 7) bs in
    if leb 32 shift then none else (if ltb b 128 then some (v', bs) else rest)

unfoldable pub varbyte_decode : Bytes → Option (ℕ × Bytes)
unfolding varbyte_loop
varbyte_decode bs = varbyte_loop 0 0 bs

last_group :
    (b v shift : ℕ) (rest : Bytes)
    → b < 128
    → shift < 32
    → b * 2 ^ shift < 2 ^ 32
    → varbyte_loop v shift (b ∷ rest) ≡ some (v + b * 2 ^ shift, rest)
unfolding varbyte_loop
last_group b v shift rest h k fits =
    let low : b % 128 ≡ b = omega arith in
    let group : (b % 128 * 2 ^ shift) % 2 ^ 32 ≡ b * 2 ^ shift =
      ap (λ (x : ℕ). (x * 2 ^ shift) % 2 ^ 32) low ∙ omega arith in
    let near : leb 32 shift ≡ false = ground arith in
    let final : ltb b 128 ≡ true = ground arith in rw (near, final, group)

inner_group :
    (b v shift : ℕ) (rest : Bytes)
    → b < 128
    → shift < 32
    → b * 2 ^ shift < 2 ^ 32
    → varbyte_loop v shift ((b + 128) ∷ rest) ≡ varbyte_loop (v + b * 2 ^ shift) (shift + 7) rest
unfolding varbyte_loop
inner_group b v shift rest h k fits =
    let low : (b + 128) % 128 ≡ b = omega arith in
    let group : ((b + 128) % 128 * 2 ^ shift) % 2 ^ 32 ≡ b * 2 ^ shift =
      ap (λ (x : ℕ). (x * 2 ^ shift) % 2 ^ 32) low ∙ omega arith in
    let near : leb 32 shift ≡ false = ground arith in
    let more : ltb (b + 128) 128 ≡ false = ground arith in rw (near, more, group)

-- The value of the groups that are read, and of those to come, seven bits higher.
groups_lem :
    (unit shift v : ℕ) → unit ≡ 2 ^ shift → v % 128 * unit + v / 128 * 2 ^ (shift + 7) ≡ v * unit
groups_lem unit shift v e =
    let higher : 2 ^ (shift + 7) ≡ unit * 128 = pow-add 2 shift 7 ∙ omega (arith, e) in
    let scaled : (128 * (v / 128) + v % 128) * unit ≡ v * unit =
      ap (λ (n : ℕ). n * unit) (div-add-mod v 128) in
    rw higher (grind (arith, scaled))

varbyte_loop-within :
    (turns w v shift : ℕ) (rest : Bytes)
    → w < 128 * 128 ^ turns
    → shift + 7 * turns < 32
    → w * 2 ^ shift < 2 ^ 32
    → varbyte_loop v shift (varbyte_within turns w ++ rest) ≡ some (v + w * 2 ^ shift, rest)
unfolding varbyte_within
varbyte_loop-within zero w v shift rest h k fits =
    let small : w % 256 ≡ w = omega arith in
    rw small (last_group w v shift rest (omega arith) (omega arith) fits)
varbyte_loop-within (suc turns) w v shift rest h k fits = elim (Bool-cases (leb 128 w)) [
  | inr e ↦
      let short : w < 128 = ground arith in
      let small : w % 256 ≡ w = omega arith in
      rw (e, small) (last_group w v shift rest short (omega arith) fits)
  | inl e ↦
      let parts = groups_lem (2 ^ shift) shift w refl in
      let after =
        varbyte_loop-within turns (w / 128) (v + w % 128 * 2 ^ shift) (shift + 7) rest
          (omega (arith, pow-suc 128 turns)) (omega arith) (omega (arith, parts)) in
      let total : v + w % 128 * 2 ^ shift + w / 128 * 2 ^ (shift + 7) ≡ v + w * 2 ^ shift =
        omega (arith, parts) in
      rw e (
        inner_group (w % 128) v shift (varbyte_within turns (w / 128) ++ rest) (omega arith)
          (omega arith) (omega (arith, parts))
        ∙ after
        ∙ ap (λ (x : ℕ). some (x, rest)) total)
]

pub varbyte_decode-encode :
    (v : ℕ) (rest : Bytes) → v < 2 ^ 32 → varbyte_decode (varbyte_encode v ++ rest) ≡ some (v, rest)
unfolding varbyte_decode varbyte_encode
varbyte_decode-encode v rest h =
    varbyte_loop-within 4 v 0 0 rest (omega arith) (omega arith) (omega arith)
    ∙ ap (λ (x : ℕ). some (x, rest)) (omega arith)

length-varbyte_within : (turns v : ℕ) → length (varbyte_within turns v) ≤ suc turns
unfolding varbyte_within
length-varbyte_within zero v = omega arith
length-varbyte_within (suc turns) v = ground (arith, length-varbyte_within turns (v / 128))

pub length-varbyte_encode : (v : ℕ) → length (varbyte_encode v) ≤ 5
unfolding varbyte_encode
length-varbyte_encode v = length-varbyte_within 4 v

-- ===== src/Core/TypedCompare/Integers.antt =====
-- Integer columns: the values are the texts of 64-bit integers.
use Prim.Native.Nat.{compare, Ordering}
use toradb.Prelude.{
  ℕ, suc, ◌+◌, ◌-◌, ◌^◌, ◌<◌, ◌≡◌, refl, sym, ap, ◌∙◌, true, Option, some, [], ◌∷◌, Text, trim,
  arith, is_digit, decimal, decimal_digit, parse_digits, parse_digits-decimal, parse_uint,
  parse_uint-decimal, trim-decimal, trim-append_decimal,
}
use toradb.Core.Schema.{ColumnType}
use toradb.Core.TypedCompare.{ℤ, compare_int, parse_i64, typed_cmp, negated, as_int}

-- `n.to_string()` of an `i64`
unfoldable pub signed : ℤ → Text
signed (ℤ.pos n) = decimal n
signed (ℤ.negsuc n) = 45 ∷ decimal (suc n)

abbrev pub IsI64 : ℤ → Type 0
IsI64 (ℤ.pos n) = n < 2 ^ 63
IsI64 (ℤ.negsuc n) = n < 2 ^ 63

-- How far an `i64` is above the smallest.
abbrev pub above_least : ℤ → ℕ
above_least (ℤ.pos n) = 2 ^ 63 + n
above_least (ℤ.negsuc n) = 2 ^ 63 - suc n

parse_i64_digit :
    (c : ℕ) (t : Text)
    → is_digit c ≡ true
    → parse_i64 (c ∷ t) ≡ as_int (parse_uint (2 ^ 63) (c ∷ t))
unfolding parse_i64
parse_i64_digit c t h = ground arith

parse_i64_minus : (c : ℕ) (t : Text) → parse_i64 (45 ∷ c ∷ t) ≡ negated (parse_digits 0 (c ∷ t))
unfolding parse_i64
parse_i64_minus c t = refl

negated-suc : (n : ℕ) → n < 2 ^ 63 → negated (some (suc n)) ≡ some (ℤ.negsuc n)
negated-suc n h = ground arith

-- An integer is read back from its text.
parse_i64-signed : (x : ℤ) → IsI64 x → parse_i64 (trim (signed x)) ≡ some x
unfolding signed
parse_i64-signed (ℤ.pos n) h =
    let (c, t, e, d) = decimal_digit n in
    ap parse_i64 (trim-decimal n ∙ e)
    ∙ parse_i64_digit c t d
    ∙ ap (λ (s : Text). as_int (parse_uint (2 ^ 63) s)) (sym e)
    ∙ ap as_int (parse_uint-decimal (2 ^ 63) n h)
parse_i64-signed (ℤ.negsuc n) h =
    let (c, t, e, d) = decimal_digit (suc n) in
    ap parse_i64 (trim-append_decimal 45 [] (suc n) refl ∙ ap (λ (s : Text). 45 ∷ s) e)
    ∙ parse_i64_minus c t
    ∙ ap (λ (s : Text). negated (parse_digits 0 s)) (sym e)
    ∙ ap negated (parse_digits-decimal (suc n))
    ∙ negated-suc n h

compare_int-above_least :
    (x y : ℤ) → IsI64 x → IsI64 y → compare_int x y ≡ compare (above_least x) (above_least y)
compare_int-above_least (ℤ.pos a) (ℤ.pos b) h k = ground arith
compare_int-above_least (ℤ.pos a) (ℤ.negsuc b) h k = ground arith
compare_int-above_least (ℤ.negsuc a) (ℤ.pos b) h k = ground arith
compare_int-above_least (ℤ.negsuc a) (ℤ.negsuc b) h k = ground arith

module _ {F : Type 0} (parse_float : Text → Option F) (partial_cmp : F → F → Option Ordering)
    (parse_timestamp_millis : Text → Option ℤ) where
  -- Two 64-bit integers, written as decimal texts with a minus sign for a negative one, compare in
  -- a column of integers as the numbers do.
  pub typed_cmp-signed :
      (x y : ℤ)
      → IsI64 x
      → IsI64 y
      → typed_cmp parse_float partial_cmp parse_timestamp_millis ColumnType.int_type
          (signed x)
          (signed y)
        ≡ some (compare (above_least x) (above_least y))
  unfolding typed_cmp
  typed_cmp-signed x y h k =
      rw (parse_i64-signed x h, parse_i64-signed y k)
        (ap (λ (o : Ordering). some o) (compare_int-above_least x y h k))

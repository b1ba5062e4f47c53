-- ===== src/Prelude/Decimal.antt =====
-- Decimal numbers: `to_string` and `parse` of the unsigned integers.
use Prim.Native.Nat.{ℕ, zero, suc, ◌+◌, ◌-◌, ◌*◌, ◌/◌, ◌%◌, ◌<◌}
use mathlib.Core.Path.{◌≡◌, refl, sym, ◌∙◌, ap}
use mathlib.Core.Logic.{inl, inr}
use mathlib.Core.Bool.{true, false}
use mathlib.Core.List.{[], ◌∷◌, ◌++◌, append_assoc, append-nil}
use mathlib.Core.Option.{Option, none, some}
use native.Mathlib.Omega.{arith}
use toradb.Prelude.Tests.{◌==◌, ltb, if◌then◌else◌, Bool-cases}
use toradb.Prelude.Lists.{replicate}
use toradb.Prelude.Texts.{Text, is_digit, is_whitespace, trim, trim_stays}

-- Fuel above the number is enough: each round drops a digit.
decimal_fuel : ℕ → ℕ → Text
decimal_fuel zero n = []
decimal_fuel (suc f) n =
    let rest = decimal_fuel f (n / 10) in (if ltb n 10 then [] else rest) ++ (48 + n % 10) ∷ []

-- `n.to_string()`
unfoldable pub decimal : ℕ → Text
unfolding decimal_fuel
decimal n = decimal_fuel (suc n) n

unfoldable pub parse_digits : ℕ → Text → Option ℕ
parse_digits acc [] = some acc
parse_digits acc (c ∷ s) =
    let rest = parse_digits (acc * 10 + (c - 48)) s in if is_digit c then rest else none

unfoldable pub strip_plus : Text → Text
strip_plus [] = []
strip_plus (c ∷ s) = if c == b'+' then s else c ∷ s

unfoldable pub below : ℕ → Option ℕ → Option ℕ
below limit none = none
below limit (some n) = if ltb n limit then some n else none

-- `s.parse::<uN>()` with `limit` the number of values: an optional sign, digits, no overflow.
unfoldable pub parse_uint : ℕ → Text → Option ℕ
unfolding parse_digits strip_plus below
parse_uint limit s = elim (strip_plus s) [
  | [] ↦ none
  | c ∷ t ↦ below limit (parse_digits 0 (c ∷ t))
]

parse_digits_step :
    (acc n : ℕ) (rest : Text)
    → parse_digits acc ((48 + n % 10) ∷ rest) ≡ parse_digits (acc * 10 + n % 10) rest
unfolding parse_digits
parse_digits_step acc n rest = ground arith

parse_digits-decimal_fuel :
    (f n : ℕ) (rest : Text)
    → n < f
    → parse_digits 0 (decimal_fuel f n ++ rest) ≡ parse_digits n rest
unfolding decimal_fuel
parse_digits-decimal_fuel zero n rest h = absurd (omega arith)
parse_digits-decimal_fuel (suc f) n rest h = elim (Bool-cases (ltb n 10)) [
  | inl small ↦
      rw small (parse_digits_step 0 n rest ∙ ap (λ (k : ℕ). parse_digits k rest) (ground arith))
  | inr large ↦
      rw (large, append_assoc)
        (parse_digits-decimal_fuel f (n / 10) _ (ground arith)
          ∙ parse_digits_step (n / 10) n rest
          ∙ ap (λ (k : ℕ). parse_digits k rest) (omega arith))
]

-- The text of a number starts with a digit.
starts_with_digit :
    (f n : ℕ) (rest : Text)
    → n < f
    → (c : ℕ) × (t : Text) × (decimal_fuel f n ++ rest ≡ c ∷ t) × (is_digit c ≡ true)
unfolding decimal_fuel
starts_with_digit zero n rest h = absurd (omega arith)
starts_with_digit (suc f) n rest h = elim (Bool-cases (ltb n 10)) [
  | inl small ↦ rw small (48 + n % 10, rest, refl, ground arith)
  | inr large ↦ rw (large, append_assoc) (starts_with_digit f (n / 10) _ (ground arith))
]

below-some : (limit n : ℕ) → n < limit → below limit (some n) ≡ some n
unfolding below
below-some limit n h = ground arith

parse_uint_digit :
    (limit c : ℕ) (t : Text)
    → is_digit c ≡ true
    → parse_uint limit (c ∷ t) ≡ below limit (parse_digits 0 (c ∷ t))
unfolding parse_uint
parse_uint_digit limit c t h = ground arith

-- A number below the limit is read back from its text, whatever the limit.
pub parse_uint-decimal : (limit n : ℕ) → n < limit → parse_uint limit (decimal n) ≡ some n
unfolding decimal
parse_uint-decimal limit n h =
    let (c, t, e, d) = starts_with_digit (suc n) n [] (omega arith) in
    let whole : decimal_fuel (suc n) n ≡ c ∷ t = sym (append-nil _) ∙ e in
    let value : parse_digits 0 (c ∷ t) ≡ some n =
      sym (ap (parse_digits 0) e)
      ∙ parse_digits-decimal_fuel (suc n) n [] (omega arith)
      ∙ (unfold parse_digits in refl) in
    cc (
      ap (parse_uint limit) whole,
      parse_uint_digit limit c t d,
      ap (below limit) value,
      below-some limit n h,
    )

parse_digits_zeros : (k : ℕ) (s : Text) → parse_digits 0 (replicate k 48 ++ s) ≡ parse_digits 0 s
unfolding parse_digits
parse_digits_zeros zero s = refl
parse_digits_zeros (suc k) s = parse_digits_zeros k s

pub parse_digits-decimal : (n : ℕ) → parse_digits 0 (decimal n) ≡ some n
unfolding decimal
parse_digits-decimal n =
    ap (parse_digits 0) (sym (append-nil (decimal_fuel (suc n) n)))
    ∙ parse_digits-decimal_fuel (suc n) n [] (omega arith)
    ∙ (unfold parse_digits in refl)

-- Zeros in front change nothing.
pub parse_uint_zeros :
    (limit k n : ℕ) → n < limit → parse_uint limit (replicate k 48 ++ decimal n) ≡ some n
parse_uint_zeros limit zero n h = parse_uint-decimal limit n h
parse_uint_zeros limit (suc k) n h =
    parse_uint_digit limit 48 (replicate k 48 ++ decimal n) refl
    ∙ ap (below limit) (parse_digits_zeros (suc k) (decimal n) ∙ parse_digits-decimal n)
    ∙ below-some limit n h

decimal-last :
    (n : ℕ) → (s : Text) × (c : ℕ) × (decimal n ≡ s ++ c ∷ []) × (is_whitespace c ≡ false)
unfolding decimal
decimal-last n = (_, 48 + n % 10, refl, ground arith)

-- The first byte of a number is a digit.
pub decimal_digit : (n : ℕ) → (c : ℕ) × (t : Text) × (decimal n ≡ c ∷ t) × (is_digit c ≡ true)
unfolding decimal
decimal_digit n =
    let (c, t, e, d) = starts_with_digit (suc n) n [] (omega arith) in
    (c, t, sym (append-nil (decimal_fuel (suc n) n)) ∙ e, d)

decimal-head : (n : ℕ) → (c : ℕ) × (t : Text) × (decimal n ≡ c ∷ t) × (is_whitespace c ≡ false)
decimal-head n = let (c, t, e, d) = decimal_digit n in (c, t, e, ground arith)

-- There is no white space around the text of a number.
pub trim-decimal : (n : ℕ) → trim (decimal n) ≡ decimal n
trim-decimal n =
    let (c, t, starts, hc) = decimal-head n in
    let (s, k, ends, hk) = decimal-last n in trim_stays (decimal n) c t s k starts ends hc hk

pub trim-append_decimal :
    (c : ℕ) (xs : Text) (n : ℕ)
    → is_whitespace c ≡ false
    → trim (c ∷ (xs ++ decimal n)) ≡ c ∷ (xs ++ decimal n)
trim-append_decimal c xs n h =
    let (s, k, ends, hk) = decimal-last n in
    trim_stays _ c (xs ++ decimal n) (c ∷ (xs ++ s)) k refl
      (ap (λ (t : Text). c ∷ (xs ++ t)) ends
        ∙ ap (λ (t : Text). c ∷ t) (sym (append_assoc xs s (k ∷ []))))
      h hk

-- ===== src/Core/TypedCompare.antt =====
-- crates/toradb-core/src/typed_compare.rs: metadata values as texts, compared by the type of their
-- column. Floats are a parameter, integers have no bound but that of the parser.
pub mod Integers
mod Tests
use Prim.Native.Nat.{compare, Ordering}
use toradb.Prelude.{
  ℕ, zero, suc, ◌+◌, ◌-◌, ◌*◌, ◌/◌, ◌^◌, Bool, true, false, not, ◌&&◌, ◌||◌, Option, none, some,
  List, [], ◌∷◌, ◌++◌, ltb, leb, ◌==◌, if◌then◌else◌, Text, text, text_beq, text_eq, trim, trim_end,
  any, length, take, drop, replicate, get_or, parse_uint, parse_digits, to_ascii_lowercase,
}
use toradb.Core.Schema.{ColumnType}

-- `negsuc n` is -(n + 1).
pub data ℤ : Type 0 where
  pos : ℕ → ℤ
  negsuc : ℕ → ℤ

abbrev pub pos_part : ℤ → ℕ
pos_part (pos n) = n
pos_part (negsuc n) = 0

abbrev pub neg_part : ℤ → ℕ
neg_part (pos n) = 0
neg_part (negsuc n) = suc n

abbrev pub difference : ℕ → ℕ → ℤ
difference a b = if leb b a then pos (a - b) else negsuc (b - a - 1)

infixl 65 ◌+ℤ◌ ◌-ℤ◌
abbrev pub ◌+ℤ◌ : ℤ → ℤ → ℤ
a +ℤ b = difference (pos_part a + pos_part b) (neg_part a + neg_part b)

abbrev pub ◌-ℤ◌ : ℤ → ℤ → ℤ
a -ℤ b = difference (pos_part a + neg_part b) (neg_part a + pos_part b)

abbrev pub times : ℕ → ℤ → ℤ
times k a = difference (k * pos_part a) (k * neg_part a)

-- Division of an `i64`, which rounds towards 0.
abbrev pub divided : ℤ → ℕ → ℤ
divided a k = difference (pos_part a / k) (neg_part a / k)

abbrev pub compare_int : ℤ → ℤ → Ordering
compare_int a b = compare (pos_part a + neg_part b) (pos_part b + neg_part a)

abbrev pub is_negative : ℤ → Bool
is_negative (pos n) = false
is_negative (negsuc n) = true

-- `a.cmp(b)` on texts
unfoldable pub text_cmp : Text → Text → Ordering
text_cmp [] [] = Ordering.eq
text_cmp [] (b ∷ bs) = Ordering.lt
text_cmp (a ∷ s) [] = Ordering.gt
text_cmp (a ∷ s) (b ∷ t) =
    let rest = text_cmp s t in elim (compare a b) [ Ordering.eq ↦ rest | other ↦ other ]

abbrev negated : Option ℕ → Option ℤ
negated none = none
negated (some n) = if leb n (2 ^ 63) then some (difference 0 n) else none

abbrev as_int : Option ℕ → Option ℤ
as_int none = none
as_int (some n) = some (pos n)

-- `s.parse::<i64>()`
unfoldable pub parse_i64 : Text → Option ℤ
unfolding parse_uint parse_digits
parse_i64 [] = none
parse_i64 (c ∷ s) =
    if c == 45
    then (elim s [ [] ↦ none | d ∷ t ↦ negated (parse_digits 0 (d ∷ t)) ])
    else as_int (parse_uint (2 ^ 63) (c ∷ s))

unfoldable pub parse_bool : Text → Option Bool
unfolding trim to_ascii_lowercase any
parse_bool s =
    let w = to_ascii_lowercase (trim s) in
    if any (text_beq w) (text "true" ∷ text "t" ∷ text "1" ∷ text "yes" ∷ text "y" ∷ [])
    then some true
    else (if any (text_beq w) (text "false" ∷ text "f" ∷ text "0" ∷ text "no" ∷ text "n" ∷ [])
        then some false
        else none)

unfoldable pub days_from_civil : ℤ → ℕ → ℕ → ℤ
days_from_civil year m d =
    let y = if leb m 2 then year -ℤ pos 1 else year in
    let era = divided (if is_negative y then y -ℤ pos 399 else y) 400 in
    let yoe = y -ℤ times 400 era in
    let doy = (153 * (if leb m 2 then m + 9 else m - 3) + 2) / 5 + d - 1 in
    let doe = (times 365 yoe +ℤ divided yoe 4) -ℤ divided yoe 100 +ℤ pos doy in
    (times 146097 era +ℤ doe) -ℤ pos 719468

abbrev civil : Option ℤ → Option ℤ → Option ℤ → Option ℤ
civil (some y) (some (pos m)) (some (pos d)) =
    if (leb 1 m && leb m 12) && (leb 1 d && leb d 31) then some (days_from_civil y m d) else none
civil _ _ _ = none

abbrev piece : ℕ → ℕ → Text → Text
piece i n s = take n (drop i s)

unfoldable pub parse_date_days : Text → Option ℤ
unfolding trim parse_i64 days_from_civil
parse_date_days text_of =
    let s = trim text_of in
    let sep = get_or s 4 0 in
    if ltb (length s) 10
    then none
    else (if not (sep == 45 || sep == 47) || not (get_or s 7 0 == sep)
        then none
        else civil (parse_i64 (piece 0 4 s)) (parse_i64 (piece 5 2 s)) (parse_i64 (piece 8 2 s)))

-- Two values that could both be read.
abbrev pub both {ℓ} :
    {A : Type ℓ} → (A → A → Option Ordering) → Option A → Option A → Option Ordering
both cmp none b = none
both cmp (some x) none = none
both cmp (some x) (some y) = cmp x y

abbrev pub order_bool : Bool → Bool → Ordering
order_bool false false = Ordering.eq
order_bool false true = Ordering.lt
order_bool true false = Ordering.gt
order_bool true true = Ordering.eq

-- Times are compared as texts when one of them cannot be read.
abbrev pub time_cmp : Text → Text → Option ℤ → Option ℤ → Option Ordering
time_cmp a b (some x) (some y) = some (compare_int x y)
time_cmp a b none y = some (text_cmp a b)
time_cmp a b (some x) none = some (text_cmp a b)

module _ {F : Type 0} (parse_float : Text → Option F) (partial_cmp : F → F → Option Ordering)
    (parse_timestamp_millis : Text → Option ℤ) where
  unfoldable pub typed_cmp : ColumnType → Text → Text → Option Ordering
  unfolding trim parse_i64 parse_bool parse_date_days text_cmp
  typed_cmp ty a b = elim ty [
    | ColumnType.int_type ↦
        both (λ x y. some (compare_int x y)) (parse_i64 (trim a)) (parse_i64 (trim b))
    | ColumnType.float_type ↦ both partial_cmp (parse_float (trim a)) (parse_float (trim b))
    | ColumnType.bool_type ↦ both (λ x y. some (order_bool x y)) (parse_bool a) (parse_bool b)
    | ColumnType.date_type ↦
        both (λ x y. some (compare_int x y)) (parse_date_days a) (parse_date_days b)
    | ColumnType.timestamp_type ↦ time_cmp a b (parse_timestamp_millis a) (parse_timestamp_millis b)
    | _ ↦ some (text_cmp a b)
  ]

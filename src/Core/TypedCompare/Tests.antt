-- ===== src/Core/TypedCompare/Tests.antt =====
-- The comparisons of the source's tests.
use Prim.Native.Nat.{compare, Ordering}
use toradb.Prelude.{ℕ, ◌≡◌, refl, Option, none, some, Text, text, parse_uint, arith}
use toradb.Core.Schema.{ColumnType}
use toradb.Core.TypedCompare.{ℤ, days_from_civil, parse_date_days, typed_cmp}
use toradb.Core.TypedCompare.Integers.{signed, above_least, typed_cmp-signed}

abbrev lengths : Text → Option ℕ
lengths s = some 0

abbrev always : ℕ → ℕ → Option Ordering
always x y = some Ordering.eq

abbrev no_time : Text → Option ℤ
no_time s = none

epoch : days_from_civil (ℤ.pos 1970) 1 1 ≡ ℤ.pos 0
unfolding days_from_civil
epoch = refl

leap_day : parse_date_days (text "2024-02-29") ≡ some (ℤ.pos 19782)
unfolding parse_date_days parse_uint
leap_day = refl

before_christ : days_from_civil (ℤ.negsuc 0) 12 31 ≡ ℤ.negsuc 719528
unfolding days_from_civil
before_christ = refl

as_numbers :
    typed_cmp lengths always no_time ColumnType.int_type (text "9") (text "10") ≡ some Ordering.lt
unfolding typed_cmp parse_uint
as_numbers = refl

typed_cmp-signed_example :
    typed_cmp lengths always no_time ColumnType.int_type (signed (ℤ.negsuc 9)) (signed (ℤ.pos 9))
    ≡ some (compare (above_least (ℤ.negsuc 9)) (above_least (ℤ.pos 9)))
typed_cmp-signed_example =
    typed_cmp-signed lengths always no_time (ℤ.negsuc 9) (ℤ.pos 9) (omega arith) (omega arith)

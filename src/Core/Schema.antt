-- ===== src/Core/Schema.antt =====
-- Column types of crates/toradb-core/src/schema.rs, and their names in SQL and in the manifest.
-- Texts are bytes, and white space is that of the one-byte characters.
pub mod RoundTrip
mod Tests
use toradb.Prelude.{
  ℕ, ◌^◌, Bool, true, false, Option, none, some, List, [], ◌∷◌, ◌++◌, Text, text, text_beq, trim,
  trim_start, until, strip_prefix, strip_last, to_ascii_uppercase, decimal, parse_uint,
  if◌then◌else◌, any, drop,
}

pub data ColumnType : Type 0 where
  text_type int_type float_type bool_type date_type : ColumnType
  timestamp_type json_type uuid_type vector_type : ColumnType

unfoldable pub as_str : ColumnType → Text
as_str text_type = text "text"
as_str int_type = text "int"
as_str float_type = text "float"
as_str bool_type = text "bool"
as_str date_type = text "date"
as_str timestamp_type = text "timestamp"
as_str json_type = text "json"
as_str uuid_type = text "uuid"
as_str vector_type = text "vector"

abbrev one_of : List Text → Text → Bool
one_of names s = any (text_beq s) names

-- The name before a bracket, in any case.
unfoldable pub parse_base_type : Text → ColumnType
unfolding trim until to_ascii_uppercase any
parse_base_type s =
    let head = to_ascii_uppercase (trim (until b'(' (trim s))) in
    if one_of (text "INT" ∷ text "INTEGER" ∷ text "BIGINT" ∷ text "SMALLINT" ∷ text "TINYINT" ∷ [])
      head
    then int_type
    else if one_of
        (text "FLOAT" ∷ text "DOUBLE" ∷ text "REAL" ∷ text "DECIMAL" ∷ text "NUMERIC" ∷ []) head
    then float_type
    else if one_of (text "BOOL" ∷ text "BOOLEAN" ∷ []) head
    then bool_type
    else if one_of (text "DATE" ∷ []) head
    then date_type
    else if one_of (text "TIMESTAMP" ∷ text "DATETIME" ∷ []) head
    then timestamp_type
    else if one_of (text "JSON" ∷ text "JSONB" ∷ []) head
    then json_type
    else if one_of (text "UUID" ∷ []) head
    then uuid_type
    else if one_of (text "VECTOR" ∷ []) head
    then vector_type
    else text_type

-- `vector_dim` is a `u32`.
pub record ColumnTypeSpec : Type 0 where
  pub kind : ColumnType
  pub vector_dim : Option ℕ

pub new : ColumnType → ColumnTypeSpec
new kind = record { kind = kind; vector_dim = none }

or_else : Option Text → Option Text → Option Text
or_else none b = b
or_else (some a) b = some a

closed_dim : Option Text → Option ℕ
unfolding trim parse_uint
closed_dim none = none
closed_dim (some n) = parse_uint (2 ^ 32) (trim n)

-- The dimension between brackets: the number, or none if it is not one.
bracketed_dim : Text → Option ℕ
unfolding or_else strip_prefix strip_last closed_dim
bracketed_dim rest = elim (or_else (strip_prefix (text "(") rest) (strip_prefix (text "[") rest)) [
  | none ↦ none
  | some r ↦ closed_dim (or_else (strip_last b')' r) (strip_last b']' r))
]

-- The outer `none`: no vector type.
pub parse_vector_type_dim : Text → Option (Option ℕ)
unfolding to_ascii_uppercase strip_prefix trim_start bracketed_dim
parse_vector_type_dim s = elim (strip_prefix (text "VECTOR") (to_ascii_uppercase s)) [
  | none ↦ none
  | some _ ↦ elim (trim_start (drop 6 s)) [ [] ↦ some none | c ∷ r ↦ some (bracketed_dim (c ∷ r)) ]
]

-- `ColumnTypeSpec::parse` after the trim.
parse_trimmed : Text → ColumnTypeSpec
unfolding parse_vector_type_dim parse_base_type
parse_trimmed t = elim (parse_vector_type_dim t) [
  | some dim ↦ record { kind = vector_type; vector_dim = dim }
  | none ↦ record { kind = parse_base_type t; vector_dim = none }
]

pub parse : Text → ColumnTypeSpec
unfolding trim parse_trimmed
parse s = parse_trimmed (trim s)

-- `ColumnTypeSpec::from_manifest_str` after the trim.
from_manifest_trimmed : Text → ColumnTypeSpec
unfolding strip_prefix parse_uint parse new
from_manifest_trimmed t = elim (strip_prefix (text "vector:") t) [
  | some rest ↦ record { kind = vector_type; vector_dim = parse_uint (2 ^ 32) rest }
  | none ↦ if text_beq t (text "vector") then new vector_type else parse t
]

pub from_manifest_str : Text → ColumnTypeSpec
unfolding trim from_manifest_trimmed
from_manifest_str s = from_manifest_trimmed (trim s)

pub sql_name : ColumnTypeSpec → Text
unfolding as_str decimal
sql_name spec = elim spec.vector_dim [
  | none ↦ as_str spec.kind
  | some d ↦ elim spec.kind [
    | vector_type ↦ text "vector(" ++ (decimal d ++ text ")")
    | _ ↦ as_str spec.kind
  ]
]

pub manifest_str : ColumnTypeSpec → Text
unfolding as_str decimal
manifest_str spec = elim spec.vector_dim [
  | none ↦ as_str spec.kind
  | some d ↦ elim spec.kind [ vector_type ↦ text "vector:" ++ decimal d | _ ↦ as_str spec.kind ]
]

-- ===== src/Core/Schema/RoundTrip.antt =====
-- A column type is read back from its name in the manifest and from its name in SQL.
use toradb.Prelude.{
  ℕ, ◌^◌, ◌<◌, ◌≡◌, ◌∙◌, refl, sym, ap, Option, none, some, ◌∷◌, ◌++◌, Text, text, decimal,
  parse_uint, parse_uint-decimal, trim-append_decimal, trim-decimal, trim_stays, strip_last,
  strip_last-append, append_assoc,
}
use toradb.Core.Schema.{
  ColumnType, text_type, vector_type, ColumnTypeSpec, from_manifest_trimmed, from_manifest_str,
  or_else, closed_dim, bracketed_dim, parse_trimmed, parse, sql_name, manifest_str,
}

-- The types that the program builds: a dimension stands on a vector alone, and is a `u32`.
pub data IsSpec : ColumnTypeSpec → Type 0 where
  plain : (kind : ColumnType) → IsSpec (record { kind = kind; vector_dim = none })
  vector : (d : ℕ) → d < 2 ^ 32 → IsSpec (record { kind = vector_type; vector_dim = some d })

plain_round_trip :
    (kind : ColumnType)
    → from_manifest_str (manifest_str (record { kind = kind; vector_dim = none }))
      ≡ record { kind = kind; vector_dim = none }
unfolding from_manifest_str manifest_str
plain_round_trip text_type = refl
plain_round_trip _ = refl

vector_entry :
    (d : ℕ)
    → d < 2 ^ 32
    → from_manifest_trimmed (text "vector:" ++ decimal d)
      ≡ record { kind = vector_type; vector_dim = some d }
unfolding from_manifest_trimmed
vector_entry d h =
    ap (λ (dim : Option ℕ). record { kind = vector_type; vector_dim = dim })
      (parse_uint-decimal (2 ^ 32) d h)

vector_round_trip :
    (d : ℕ)
    → d < 2 ^ 32
    → from_manifest_str (manifest_str (record { kind = vector_type; vector_dim = some d }))
      ≡ record { kind = vector_type; vector_dim = some d }
unfolding from_manifest_str manifest_str
vector_round_trip d h =
    ap from_manifest_trimmed (trim-append_decimal b'v' (text "ector:") d refl) ∙ vector_entry d h

-- A column type of the program, a plain one or a vector with a 32-bit dimension or none, is read
-- back from its entry in the manifest.
pub from_manifest_str-manifest_str :
    (spec : ColumnTypeSpec) → IsSpec spec → from_manifest_str (manifest_str spec) ≡ spec
from_manifest_str-manifest_str _ (plain kind) = plain_round_trip kind
from_manifest_str-manifest_str _ (vector d h) = vector_round_trip d h

plain_sql :
    (kind : ColumnType)
    → parse (sql_name (record { kind = kind; vector_dim = none }))
      ≡ record { kind = kind; vector_dim = none }
unfolding parse sql_name
plain_sql text_type = refl
plain_sql _ = refl

closed_dim-decimal : (d : ℕ) → d < 2 ^ 32 → closed_dim (some (decimal d)) ≡ some d
unfolding closed_dim
closed_dim-decimal d h = ap (parse_uint (2 ^ 32)) (trim-decimal d) ∙ parse_uint-decimal (2 ^ 32) d h

dim_between : (d : ℕ) → d < 2 ^ 32 → bracketed_dim (b'(' ∷ (decimal d ++ text ")")) ≡ some d
unfolding bracketed_dim
dim_between d h =
    ap (λ (o : Option Text). closed_dim (or_else o (strip_last b']' (decimal d ++ text ")"))))
      (strip_last-append (decimal d) b')')
    ∙ closed_dim-decimal d h

vector_sql :
    (d : ℕ)
    → d < 2 ^ 32
    → parse (sql_name (record { kind = vector_type; vector_dim = some d }))
      ≡ record { kind = vector_type; vector_dim = some d }
unfolding parse sql_name
vector_sql d h =
    ap parse_trimmed (
      trim_stays _ b'v' (text "ector(" ++ (decimal d ++ text ")")) (text "vector(" ++ decimal d)
        b')' refl (sym (append_assoc (text "vector(") (decimal d) (text ")"))) refl refl)
    ∙ ap (λ (dim : Option ℕ). record { kind = vector_type; vector_dim = dim }) (dim_between d h)

-- A column type of the program, a plain one or a vector with a 32-bit dimension or none, is read
-- back from its SQL name.
pub parse-sql_name : (spec : ColumnTypeSpec) → IsSpec spec → parse (sql_name spec) ≡ spec
parse-sql_name _ (plain kind) = plain_sql kind
parse-sql_name _ (vector d h) = vector_sql d h

-- ===== src/Core/Schema/Tests.antt =====
-- The unit tests of schema.rs.
use toradb.Prelude.{◌≡◌, refl, some, text, arith}
use toradb.Core.Schema.{
  ColumnTypeSpec, vector_type, parse, sql_name, manifest_str, from_manifest_str,
}
use toradb.Core.Schema.RoundTrip.{vector, from_manifest_str-manifest_str, parse-sql_name}

parse_paren : parse (text "vector(384)") ≡ record { kind = vector_type; vector_dim = some 384 }
unfolding parse
parse_paren = refl

parse_bracket : (parse (text " Vector [768 ] ")).vector_dim ≡ some 768
unfolding parse
parse_bracket = refl

abbrev vec : ColumnTypeSpec
vec = record { kind = vector_type; vector_dim = some 768 }

from_manifest_str-manifest_str_example : from_manifest_str (manifest_str vec) ≡ vec
from_manifest_str-manifest_str_example =
    from_manifest_str-manifest_str vec (vector 768 (omega arith))

parse-sql_name_example : parse (sql_name vec) ≡ vec
parse-sql_name_example = parse-sql_name vec (vector 768 (omega arith))

-- ===== src/Pipe/Run/Tests.antt =====
-- Three rows in batches of two.
use toradb.Prelude.{
  ℕ, Bool, true, false, Option, none, some, List, [], ◌∷◌, ◌++◌, Text, text, length, map, take,
  drop, Result, ok,
}
use toradb.Pipe.Model.{Pipeline, SyncMode}
use toradb.Pipe.Run.{RawRow, Cursor, at_offset, IngestDoc, Source, Engine}

abbrev row : Text → Text → RawRow
row body time = (text "body", body) ∷ (text "time", time) ∷ []

abbrev three_rows : List RawRow
three_rows =
    row (text "a") (text "2") ∷ row (text "bc") (text "3") ∷ row (text "def") (text "1") ∷ []

abbrev listed : Source (List RawRow)
listed = record {
  fetch_batch = λ c n s. (ok (record { rows = take n s; next = at_offset n }), drop n s);
}

abbrev docs_kept : Engine ℕ (List (IngestDoc ℕ))
docs_kept = record {
  drop_table = λ t g. [];
  ensure_table = λ t g. g;
  bulk_ingest_active = λ t g. true;
  begin_bulk_ingest = λ t g. g;
  add_documents = λ t ds g. ok (g ++ ds);
  finish_bulk_ingest = λ t compact g. ok g;
}

abbrev pipeline : Pipeline ℕ
pipeline = record {
  id = text "p";
  name = text "p";
  connection_id = text "c";
  query = text "q";
  target_table = text "t";
  mapping = record {
    text_column = text "body";
    metadata_columns = text "time" ∷ [];
    vector_column = none;
    id_column = none;
    cursor_column = some (text "time");
  };
  embedder = some 7;
  mode = SyncMode.incremental;
  last_cursor = none;
  schedule = none;
  drop_table_on_full = false;
  enabled = true;
  batch_size = 2;
  created_at = 0;
}

abbrev no_vector : Text → Option ℕ
no_vector s = none

abbrev never : ℕ → Bool
never n = false

abbrev lengths : List Text → Result (List ℕ)
lengths ts = ok (map (length {A = ℕ}) ts)

abbrev build : ℕ → Result (List Text → Result (List ℕ))
build cfg = ok lengths

abbrev rows_left : List RawRow → Cursor → List RawRow
rows_left s c = s

abbrev held : Text → List (IngestDoc ℕ) → List (IngestDoc ℕ)
held t g = g

-- ===== src/Pipe/Model.antt =====
-- crates/toradb-pipe/src/model.rs: connections, pipelines and runs as they are kept on disk. The
-- configuration of the embedder is a parameter.
use toradb.Prelude.{
  ℕ, Bool, true, false, Option, List, [], ◌∷◌, Text, text, text_beq, any, ◌||◌, if◌then◌else◌,
}

pub data SourceKind : Type 0 where
  sql object_store http : SourceKind

pub data SyncMode : Type 0 where
  full incremental cdc : SyncMode

pub record Connection : Type 0 where
  pub id : Text
  pub name : Text
  pub kind : SourceKind
  pub url : Text
  pub created_at : ℕ

pub record Schedule : Type 0 where
  pub interval_secs : ℕ

pub record ColumnMapping : Type 0 where
  pub text_column : Text
  pub metadata_columns : List Text
  pub vector_column : Option Text
  pub id_column : Option Text
  pub cursor_column : Option Text

unfoldable pub no_columns : List Text → Bool
no_columns [] = true
no_columns (_ ∷ _) = false

unfoldable pub wants_metadata : Text → ColumnMapping → Bool
unfolding no_columns any
wants_metadata name m =
    if text_beq name m.text_column
    then false
    else (if no_columns m.metadata_columns || any (λ c. text_beq c (text "*")) m.metadata_columns
        then true
        else any (λ c. text_beq c name) m.metadata_columns)

pub record Pipeline (E : Type 0) : Type 0 where
  pub id : Text
  pub name : Text
  pub connection_id : Text
  pub query : Text
  pub target_table : Text
  pub mapping : ColumnMapping
  pub embedder : Option E
  pub mode : SyncMode
  pub last_cursor : Option Text
  pub schedule : Option Schedule
  pub drop_table_on_full : Bool
  pub enabled : Bool
  pub batch_size : ℕ
  pub created_at : ℕ

pub record PipelineRun : Type 0 where
  pub id : ℕ
  pub pipeline_id : Text
  pub state : Text
  pub phase : Option Text
  pub rows_synced : ℕ
  pub started_at : ℕ
  pub finished_at : Option ℕ
  pub message : Option Text
  pub cursor_before : Option Text
  pub cursor_after : Option Text

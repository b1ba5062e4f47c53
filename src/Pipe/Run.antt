-- ===== src/Pipe/Run.antt =====
-- `run_pipeline` of crates/toradb-pipe/src/pipeline.rs and `row_to_doc` of source/mod.rs. The source,
-- the engine, the embedder and the reporter are parameters; locks and waiting are left out.
pub mod Embedding
pub mod Batches
pub mod Cursors
pub mod Whole
mod Tests
use toradb.Prelude.{
  ℕ, zero, suc, ◌+◌, ◌%◌, ◌^◌, max, Bool, true, false, not, ◌&&◌, Option, none, some, List, [], ◌∷◌,
  ◌++◌, map, ltb, leb, ◌==◌, if◌then◌else◌, Text, text, text_eq, length, retain, Result, ok, err,
}
use toradb.Collections.Dict.{Dict, lookup}
use toradb.Pipe.Model.{SyncMode, ColumnMapping, wants_metadata, Pipeline}

-- The order of texts by their bytes.
unfoldable pub text_leb : Text → Text → Bool
text_leb [] bs = true
text_leb (a ∷ as') [] = false
text_leb (a ∷ as') (b ∷ bs) =
    let rest = text_leb as' bs in if ltb a b then true else (if a == b then rest else false)

pub data Cursor : Type 0 where
  at_start : Cursor
  at_offset : ℕ → Cursor
  at_value : Text → Cursor

abbrev pub RawRow : Type 0
RawRow = Dict Text Text

pub record Batch : Type 0 where
  pub rows : List RawRow
  pub next : Cursor

pub record IngestDoc (V : Type 0) : Type 0 where
  pub body : Text
  pub metadata : Dict Text Text
  pub vector : Option V

-- A source, which has a state of its own.
pub record Source (S : Type 0) : Type 0 where
  pub fetch_batch : Cursor → ℕ → S → Result Batch × S

-- What a run calls of the engine.
pub record Engine (V G : Type 0) : Type 0 where
  pub drop_table : Text → G → G
  pub ensure_table : Text → G → G
  pub bulk_ingest_active : Text → G → Bool
  pub begin_bulk_ingest : Text → G → G
  pub add_documents : Text → List (IngestDoc V) → G → Result G
  pub finish_bulk_ingest : Text → Bool → G → Result G

pub data RunState : Type 0 where
  done cancelled : RunState

pub record RunOutcome : Type 0 where
  pub rows : ℕ
  pub cursor_after : Option Text
  pub state : RunState

abbrev named_column : RawRow → Option Text → Option Text
named_column row none = none
named_column row (some c) = lookup c row

module _ {V : Type 0} (parse_vector : Text → Option V) where
  abbrev vector_in : Option Text → Option V
  vector_in none = none
  vector_in (some s) = parse_vector s

  abbrev text_in : Option Text → Text
  text_in none = []
  text_in (some s) = s

  -- A row as a document, and its value of the cursor column.
  unfoldable pub row_to_doc : ColumnMapping → RawRow → IngestDoc V × Option Text
  unfolding wants_metadata
  row_to_doc mapping row = (
    record {
      body = text_in (lookup mapping.text_column row);
      metadata = retain (λ (e : Text × Text). wants_metadata (e.0) mapping) row;
      vector = vector_in (named_column row mapping.vector_column);
    },
    named_column row mapping.cursor_column,
  )

-- The larger cursor as text, the older one when they are the same.
unfoldable pub later_cursor : Option Text → Option Text → Option Text
unfolding text_leb
later_cursor prev none = prev
later_cursor none (some c) = some c
later_cursor (some prev) (some c) = some (if text_leb c prev then prev else c)

module _ {V : Type 0} where
  -- A document that the embedder is asked for.
  abbrev pub wants_vector : IngestDoc V → Bool
  wants_vector d = elim d.vector [
    | some _ ↦ false
    | none ↦ elim d.body [ [] ↦ false | _ ∷ _ ↦ true ]
  ]

  abbrev pub body_of : IngestDoc V → Text
  body_of d = d.body

  -- The vectors go to those documents in turn, while there are any.
  unfoldable pub fill_vectors : List (IngestDoc V) → List V → List (IngestDoc V)
  fill_vectors [] vs = []
  fill_vectors (d ∷ ds) [] = d ∷ ds
  fill_vectors (d ∷ ds) (v ∷ vs) =
      let filled = fill_vectors ds vs in
      let later = fill_vectors ds (v ∷ vs) in
      if wants_vector d then record d { vector = some v } ∷ filled else d ∷ later

  abbrev pub filled_with : List (IngestDoc V) → Result (List V) → Result (List (IngestDoc V))
  filled_with docs (err e) = err e
  filled_with docs (ok vs) = ok (fill_vectors docs vs)

  unfoldable pub embedded :
      Option (List Text → Result (List V)) → List (IngestDoc V) → Result (List (IngestDoc V))
  unfolding fill_vectors
  embedded none docs = ok docs
  embedded (some embed) docs =
      let texts = map body_of (retain wants_vector docs) in
      elim texts [ [] ↦ ok docs | t ∷ ts ↦ filled_with docs (embed (t ∷ ts)) ]

-- The embedder is built once, if there is one.
abbrev pub built :
    {V E : Type 0}
    → (E → Result (List Text → Result (List V)))
    → Option E
    → Result (Option (List Text → Result (List V)))
built build_embedder none = ok none
built build_embedder (some cfg) = elim (build_embedder cfg) [ err e ↦ err e | ok f ↦ ok (some f) ]

unfoldable pub latest : Option Text → List (Option Text) → Option Text
unfolding later_cursor
latest prev [] = prev
latest prev (c ∷ cs) = latest (later_cursor prev c) cs

-- The state of the loop over the batches.
pub record Running (S G : Type 0) : Type 0 where
  pub source : S
  pub engine : G
  pub cursor : Cursor
  pub total : ℕ
  pub max_cursor : Option Text

-- What the loop does after a turn.
pub data Turn (S G : Type 0) : Type 0 where
  broke : Text → Turn S G
  stop : RunState → Running S G → Turn S G
  again : Running S G → Turn S G

abbrev pub is_full : SyncMode → Bool
is_full SyncMode.full = true
is_full SyncMode.incremental = false
is_full SyncMode.cdc = false

module _ {V : Type 0} {S : Type 0} {G : Type 0} {E : Type 0} (src : Source S) (eng : Engine V G)
    (parse_vector : Text → Option V) (is_cancelled : ℕ → Bool) (p : Pipeline E) where
  -- The table is made ready.
  unfoldable pub prepare : G → G
  prepare g =
      let g1 =
        if is_full p.mode && p.drop_table_on_full then eng.drop_table p.target_table g else g in
      let g2 = eng.ensure_table p.target_table g1 in
      if eng.bulk_ingest_active p.target_table g2
      then g2
      else eng.begin_bulk_ingest p.target_table g2

  unfoldable pub finish_session : Bool → G → Result G
  finish_session compact g =
      if eng.bulk_ingest_active p.target_table g
      then eng.finish_bulk_ingest p.target_table compact g
      else ok g

  -- A batch of rows goes to the engine.
  unfoldable pub absorb :
      Option (List Text → Result (List V))
      → List RawRow
      → Cursor
      → S
      → Running S G
      → Result (Running S G)
  unfolding embedded row_to_doc latest
  absorb emb rows next s r =
      let docs = map (λ (x : RawRow). (row_to_doc parse_vector p.mapping x).0) rows in
      let cursors = map (λ (x : RawRow). (row_to_doc parse_vector p.mapping x).1) rows in
      elim (embedded emb docs) [
        | err e ↦ err e
        | ok ready ↦ elim (eng.add_documents p.target_table ready r.engine) [
          | err e ↦ err e
          | ok g ↦ ok (record {
            source = s;
            engine = g;
            cursor = next;
            total = (r.total + length rows) % 2 ^ 64;
            max_cursor = latest r.max_cursor cursors;
          })
        ]
      ]

  abbrev pub batch_size : ℕ
  batch_size = max p.batch_size 1

  -- A batch that is not full is the last one.
  abbrev pub judged : ℕ → Result (Running S G) → Turn S G
  judged len (err e) = broke e
  judged len (ok r) = if ltb len batch_size then stop done r else again r

  abbrev pub after_fetch :
      Option (List Text → Result (List V)) → Result Batch × S → Running S G → Turn S G
  after_fetch emb (err e, s) r = broke e
  after_fetch emb (ok b, s) r = elim b.rows [
    | [] ↦ stop done r
    | x ∷ xs ↦ judged (length (x ∷ xs)) (absorb emb (x ∷ xs) b.next s r)
  ]

  -- The body of the loop.
  unfoldable pub one_turn : Option (List Text → Result (List V)) → ℕ → Running S G → Turn S G
  unfolding absorb
  one_turn emb n r =
      if is_cancelled n
      then stop cancelled r
      else after_fetch emb (src.fetch_batch r.cursor batch_size r.source) r

  abbrev pub outcome : RunState → Running S G → Result G → Result RunOutcome × G
  outcome st r (err e) = (err e, r.engine)
  outcome st r (ok g) = (ok (record { rows = r.total; cursor_after = r.max_cursor; state = st }), g)

  abbrev pub stopped : RunState → Running S G → Result RunOutcome × G
  unfolding finish_session
  stopped cancelled r = outcome cancelled r (finish_session false r.engine)
  stopped done r = outcome done r (finish_session (is_full p.mode && ltb 0 r.total) r.engine)

  -- The loop over the batches; `none` when the turns do not suffice.
  unfoldable pub run_loop :
      Option (List Text → Result (List V)) → ℕ → ℕ → Running S G → Option (Result RunOutcome × G)
  unfolding one_turn stopped
  run_loop emb zero n r = none
  run_loop emb (suc fuel) n r = elim (one_turn emb n r) [
    | broke e ↦ some (err e, r.engine)
    | stop st r' ↦ some (stopped st r')
    | again r' ↦ run_loop emb fuel (suc n) r'
  ]

  abbrev pub first_cursor : SyncMode → Option Text → Cursor
  first_cursor SyncMode.full c = at_start
  first_cursor SyncMode.incremental none = at_start
  first_cursor SyncMode.incremental (some v) = at_value v
  first_cursor SyncMode.cdc none = at_start
  first_cursor SyncMode.cdc (some v) = at_value v

  abbrev pub first_state : S → G → Running S G
  unfolding prepare
  first_state s g = record {
    source = s;
    engine = prepare g;
    cursor = first_cursor p.mode p.last_cursor;
    total = 0;
    max_cursor = p.last_cursor;
  }

  unfoldable pub run_pipeline :
      (E → Result (List Text → Result (List V))) → ℕ → S → G → Option (Result RunOutcome × G)
  unfolding run_loop first_state
  run_pipeline build_embedder fuel s g = elim (built build_embedder p.embedder) [
    | err e ↦ some (err e, prepare g)
    | ok emb ↦ run_loop emb fuel 0 (first_state s g)
  ]

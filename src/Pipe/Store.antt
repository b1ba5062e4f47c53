-- ===== src/Pipe/Store.antt =====
-- crates/toradb-pipe/src/store.rs: the connections, pipelines and runs in memory, and their three
-- files. A call gets the times that it reads from the clock, and answers with the store and the
-- disk after it. `write_json_atomic` either replaces a file or fails and leaves it as it was.
pub mod Runs
mod Ids
mod Reopen
mod Tests
use toradb.Prelude.{
  ℕ, zero, suc, ◌+◌, ◌-◌, ◌%◌, ◌^◌, Bool, true, false, not, ◌&&◌, Option, none, some, List, [], ◌∷◌,
  ◌++◌, map, arith, length, ltb, leb, ◌==◌, if◌then◌else◌, Text, text, text_beq, decimal, find,
  retain, update_first, max_or, Result, ok, err, ◌>>=◌, nat_eq,
}
use toradb.Collections.Keys.{contains}
use toradb.Pipe.Model.{Connection, SourceKind, Pipeline, PipelineRun, Schedule}

abbrev pub max_runs_per_pipeline : ℕ
max_runs_per_pipeline = 200

-- The secret box and the three files, which are outside the store: `read` gives the empty list
-- for a file that is not there.
pub record Files (E D : Type 0) : Type 0 where
  pub encrypt : Text → Result Text
  pub decrypt : Text → Result Text
  pub read_connections : D → Result (List Connection)
  pub write_connections : List Connection → D → Result D
  pub read_pipelines : D → Result (List (Pipeline E))
  pub write_pipelines : List (Pipeline E) → D → Result D
  pub read_runs : D → Result (List PipelineRun)
  pub write_runs : List PipelineRun → D → Result D

pub record PipeStore (E : Type 0) : Type 0 where
  pub connections : List Connection
  pub pipelines : List (Pipeline E)
  pub runs : List PipelineRun
  pub next_run_id : ℕ
  pub next_seq : ℕ

-- `for c in &mut list { c.url = f(&c.url)?; }`
unfoldable pub map_urls : (Text → Result Text) → List Connection → Result (List Connection)
map_urls f [] = ok []
map_urls f (c ∷ cs) =
    f c.url >>= λ url. map_urls f cs >>= λ rest. ok (record c { url = url } ∷ rest)

unfoldable pub of_pipeline : Text → PipelineRun → Bool
of_pipeline p r = text_beq r.pipeline_id p

-- `sort_by_key(|r| r.started_at)`, a stable sort.
unfoldable pub place : PipelineRun → List PipelineRun → List PipelineRun
place r [] = r ∷ []
place r (q ∷ qs) =
    let rest = place r qs in if leb r.started_at q.started_at then r ∷ q ∷ qs else q ∷ rest

unfoldable pub by_start : List PipelineRun → List PipelineRun
by_start [] = []
by_start (r ∷ rs) = place r (by_start rs)

-- `sort_by(|a, b| b.started_at.cmp(&a.started_at))`
unfoldable pub place_latest : PipelineRun → List PipelineRun → List PipelineRun
place_latest r [] = r ∷ []
place_latest r (q ∷ qs) =
    let rest = place_latest r qs in if leb q.started_at r.started_at then r ∷ q ∷ qs else q ∷ rest

unfoldable pub latest_first : List PipelineRun → List PipelineRun
latest_first [] = []
latest_first (r ∷ rs) = place_latest r (latest_first rs)

-- The loop of `cap_runs` that collects the oldest ids.
unfoldable pub ids_to_drop : ℕ → ℕ → List PipelineRun → List ℕ
ids_to_drop seen drop_below [] = []
ids_to_drop seen drop_below (r ∷ rs) =
    let rest = ids_to_drop (suc seen) drop_below rs in
    if leb drop_below seen then [] else r.id ∷ rest

unfoldable pub capped : Text → List PipelineRun → List PipelineRun
unfolding of_pipeline
capped p runs =
    let own = retain (of_pipeline p) runs in
    let drop_below = length own - max_runs_per_pipeline in
    let gone = ids_to_drop 0 drop_below (by_start own) in
    if leb (length own) max_runs_per_pipeline
    then runs
    else retain (λ r. not (contains r.id gone)) runs

unfoldable pub finished : Text → ℕ → Option Text → Option Text → ℕ → PipelineRun → PipelineRun
finished state rows message cursor_after now r = record r {
  state = state;
  phase = none;
  rows_synced = rows;
  finished_at = some now;
  message = message;
  cursor_after = cursor_after;
}

abbrev pub new_run : ℕ → Text → Option Text → ℕ → PipelineRun
new_run id p cursor_before now = record {
  id = id;
  pipeline_id = p;
  state = text "running";
  phase = some (text "starting");
  rows_synced = 0;
  started_at = now;
  finished_at = none;
  message = none;
  cursor_before = cursor_before;
  cursor_after = none;
}

module _ {E : Type 0} where
  unfoldable pub next_id : Text → ℕ → PipeStore E → Text × PipeStore E
  next_id prefix now s =
      let seq = (s.next_seq + 1) % 2 ^ 64 in
      (prefix ++ text "_" ++ decimal now ++ text "_" ++ decimal seq, record s { next_seq = seq })

  unfoldable pub connection : Text → PipeStore E → Option Connection
  connection id s = find (λ c. text_beq c.id id) s.connections

  unfoldable pub pipeline : Text → PipeStore E → Option (Pipeline E)
  pipeline id s = find (λ p. text_beq p.id id) s.pipelines

  unfoldable pub is_scheduled : Pipeline E → Bool
  is_scheduled p = p.enabled && elim p.schedule [ none ↦ false | some _ ↦ true ]

  unfoldable pub enabled_scheduled : PipeStore E → List (Pipeline E)
  enabled_scheduled s = retain is_scheduled s.pipelines

  unfoldable pub last_run_started : Text → PipeStore E → ℕ
  last_run_started p s =
      max_or 0 (map (λ (r : PipelineRun). r.started_at) (retain (of_pipeline p) s.runs))

  unfoldable pub runs_for : Text → PipeStore E → List PipelineRun
  runs_for p s = latest_first (retain (of_pipeline p) s.runs)

  unfoldable pub cap_runs : Text → PipeStore E → PipeStore E
  cap_runs p s = record s { runs = capped p s.runs }

  -- The store with the new run pushed.
  unfoldable pub with_run : Text → Option Text → ℕ → PipeStore E → PipeStore E
  with_run p cursor_before now s = record s {
    next_run_id = (s.next_run_id + 1) % 2 ^ 64;
    runs = s.runs ++ new_run s.next_run_id p cursor_before now ∷ [];
  }

  unfoldable pub named : Text → ℕ → Pipeline E → PipeStore E → Pipeline E × PipeStore E
  unfolding next_id
  named prefix now p s = elim p.id [
    | [] ↦ let (id, s1) = next_id prefix now s in (record p { id = id }, s1)
    | _ ∷ _ ↦ (p, s)
  ]

module _ {E D : Type 0} (files : Files E D) where
  unfoldable pub open_store : D → Result (PipeStore E)
  open_store d = files.read_connections d >>= λ stored.
      map_urls files.decrypt stored >>= λ connections. files.read_pipelines d >>= λ pipelines.
      files.read_runs d >>= λ runs. ok (record {
        connections = connections;
        pipelines = pipelines;
        runs = runs;
        next_run_id = (max_or 0 (map (λ (r : PipelineRun). r.id) runs) + 1) % 2 ^ 64;
        next_seq = 0;
      })

  unfoldable pub save_connections : PipeStore E → D → Result D
  save_connections s d =
      map_urls files.encrypt s.connections >>= λ on_disk. files.write_connections on_disk d

  unfoldable pub save_pipelines : PipeStore E → D → Result D
  save_pipelines s d = files.write_pipelines s.pipelines d

  unfoldable pub save_runs : PipeStore E → D → Result D
  save_runs s d = files.write_runs s.runs d

  -- `let _ = self.save_runs();`
  unfoldable pub try_save_runs : PipeStore E → D → D
  try_save_runs s d = elim (save_runs s d) [ ok d' ↦ d' | err _ ↦ d ]

  -- `self.save()?; Ok(answer)`
  abbrev pub answering : {A : Type 0} → Result D → A → PipeStore E → D → Result A × PipeStore E × D
  answering (ok d') answer s d = (ok answer, s, d')
  answering (err m) answer s d = (err m, s, d)

  unfoldable pub add_connection :
      Text → SourceKind → Text → ℕ → ℕ → PipeStore E → D → Result Connection × PipeStore E × D
  unfolding next_id save_connections
  add_connection name kind url now created s d =
      let (id, s1) = next_id (text "conn") now s in
      let conn : Connection = record {
        id = id;
        name = name;
        kind = kind;
        url = url;
        created_at = created;
      } in
      let s2 = record s1 { connections = s1.connections ++ conn ∷ [] } in
      answering (save_connections s2 d) conn s2 d

  unfoldable pub delete_connection : Text → PipeStore E → D → Result Bool × PipeStore E × D
  unfolding save_connections
  delete_connection id s d =
      let s1 = record s { connections = retain (λ c. not (text_beq c.id id)) s.connections } in
      if length s1.connections == length s.connections
      then (ok false, s1, d)
      else answering (save_connections s1 d) true s1 d

  unfoldable pub add_pipeline :
      Pipeline E → ℕ → ℕ → PipeStore E → D → Result (Pipeline E) × PipeStore E × D
  unfolding named save_pipelines
  add_pipeline pipeline now created s d =
      let (p1, s1) = named (text "pipe") now pipeline s in
      let p2 = if p1.created_at == 0 then record p1 { created_at = created } else p1 in
      let s2 = record s1 { pipelines = s1.pipelines ++ p2 ∷ [] } in
      answering (save_pipelines s2 d) p2 s2 d

  unfoldable pub update_pipeline :
      Text → (Pipeline E → Pipeline E) → PipeStore E → D → Result (Pipeline E) × PipeStore E × D
  unfolding save_pipelines pipeline
  update_pipeline id f s d = elim (pipeline id s) [
    | none ↦ (err (text "pipeline " ++ id ++ text " not found"), s, d)
    | some p ↦
        let s1 = record s { pipelines = update_first (λ q. text_beq q.id id) f s.pipelines } in
        answering (save_pipelines s1 d) (f p) s1 d
  ]

  unfoldable pub set_last_cursor :
      Text → Option Text → PipeStore E → D → Result (Pipeline E) × PipeStore E × D
  unfolding update_pipeline
  set_last_cursor id cursor s d = update_pipeline id (λ p. record p { last_cursor = cursor }) s d

  -- The pipelines are saved first, and the runs only if that worked.
  unfoldable pub delete_pipeline : Text → PipeStore E → D → Result Bool × PipeStore E × D
  unfolding of_pipeline save_pipelines save_runs
  delete_pipeline id s d =
      let s1 = record s { pipelines = retain (λ p. not (text_beq p.id id)) s.pipelines } in
      let s2 = record s1 { runs = retain (λ r. not (of_pipeline id r)) s1.runs } in
      if length s1.pipelines == length s.pipelines
      then (ok false, s1, d)
      else elim (save_pipelines s2 d) [
        | err m ↦ (err m, s2, d)
        | ok d1 ↦ answering (save_runs s2 d1) true s2 d1
      ]

  unfoldable pub start_run : Text → Option Text → ℕ → PipeStore E → D → ℕ × PipeStore E × D
  unfolding with_run cap_runs try_save_runs
  start_run p cursor_before now s d =
      let s1 = cap_runs p (with_run p cursor_before now s) in
      (s.next_run_id, s1, try_save_runs s1 d)

  unfoldable pub finish_run :
      ℕ → Text → ℕ → Option Text → Option Text → ℕ → PipeStore E → D → PipeStore E × D
  unfolding finished try_save_runs
  finish_run run_id state rows message cursor_after now s d =
      let s1 = record s {
        runs =
            update_first (λ r. r.id == run_id) (finished state rows message cursor_after now)
              s.runs;
      } in
      (s1, try_save_runs s1 d)

-- ===== src/Pipe/Store/Tests.antt =====
-- The store's theorems at a store with two runs, on a disk in memory.
use toradb.Prelude.{
  ℕ, ◌-◌, ◌^◌, ◌≤◌, ◌≡◌, ◌≢◌, refl, sym, ap, ◌>>=◌, none, List, [], ◌∷◌, arith, length, Text, text,
  Result, ok, err, retain, nat_eq,
}
use toradb.Collections.Keys.{count}
use toradb.Pipe.Model.{Connection, SourceKind, Pipeline, PipelineRun}
use toradb.Pipe.Store.{
  PipeStore, Files, new_run, of_pipeline, start_run, open_store, save_connections, save_pipelines,
  save_runs, map_urls,
}
use toradb.Pipe.Store.Runs.{ids}
use toradb.Pipe.Store.Ids.{IsNumbered, IsValid, start_run_lem}
use toradb.Pipe.Store.Reopen.{LawfulFiles, open_store-save}

-- A disk with its three files, and a secret box that puts a mark in front.
record Disk : Type 0 where
  connections : List Connection
  pipelines : List (Pipeline ℕ)
  runs : List PipelineRun

abbrev unmark : Text → Result Text
unmark [] = err (text "no mark")
unmark (c ∷ cs) = ok cs

abbrev memory : Files ℕ Disk
memory = record {
  encrypt = λ u. ok (35 ∷ u);
  decrypt = unmark;
  read_connections = λ d. ok d.connections;
  write_connections = λ cs d. ok (record d { connections = cs });
  read_pipelines = λ d. ok d.pipelines;
  write_pipelines = λ ps d. ok (record d { pipelines = ps });
  read_runs = λ d. ok d.runs;
  write_runs = λ rs d. ok (record d { runs = rs });
}

abbrev blank : Disk
blank = record { connections = []; pipelines = []; runs = [] }

abbrev two_runs : List PipelineRun
two_runs = new_run 1 (text "a") none 100 ∷ new_run 4 (text "b") none 90 ∷ []

abbrev store : PipeStore ℕ
store = record {
  connections =
      record {
        id = text "conn_1_1";
        name = text "db";
        kind = SourceKind.sql;
        url = text "pg";
        created_at = 1;
      }
      ∷ [];
  pipelines = [];
  runs = two_runs;
  next_run_id = 5;
  next_seq = 1;
}

two_runs-IsNumbered : (n : ℕ) → 5 ≤ n → IsNumbered n two_runs
unfolding count
two_runs-IsNumbered n h i = (ground arith, λ k. ground arith)

start_run_example :
    (count (start_run memory (text "a") none 120 store blank).0 (ids store.runs) ≡ 0)
    × (length (
          retain (of_pipeline (text "a")) (start_run memory (text "a") none 120 store blank).1.runs)
        ≤ 200)
    × ((j : Text)
        → text "a" ≢ j
        → retain (of_pipeline j) (start_run memory (text "a") none 120 store blank).1.runs
          ≡ retain (of_pipeline j) store.runs)
    × IsValid (start_run memory (text "a") none 120 store blank).1
start_run_example =
    start_run_lem memory (text "a") none 120 store blank (two_runs-IsNumbered 5 (omega arith))
      (omega arith)

memory-LawfulFiles : LawfulFiles memory
memory-LawfulFiles = record {
  decrypt-encrypt = λ u v e. sym (ap (λ (r : Result Text). r >>= unmark) e);
  connections-connections =
      λ cs d d' e. sym (ap (λ (r : Result Disk). r >>= λ x. ok x.connections) e);
  connections-pipelines =
      λ ps d d' e. sym (ap (λ (r : Result Disk). r >>= λ x. ok x.connections) e);
  connections-runs = λ rs d d' e. sym (ap (λ (r : Result Disk). r >>= λ x. ok x.connections) e);
  pipelines-pipelines = λ ps d d' e. sym (ap (λ (r : Result Disk). r >>= λ x. ok x.pipelines) e);
  pipelines-runs = λ rs d d' e. sym (ap (λ (r : Result Disk). r >>= λ x. ok x.pipelines) e);
  runs-runs = λ rs d d' e. sym (ap (λ (r : Result Disk). r >>= λ x. ok x.runs) e);
}

abbrev disk1 : Disk
disk1 = record blank {
  connections =
      record {
        id = text "conn_1_1";
        name = text "db";
        kind = SourceKind.sql;
        url = text "#pg";
        created_at = 1;
      }
      ∷ [];
}

save_connections_runs : save_connections memory store blank ≡ ok disk1
unfolding save_connections map_urls
save_connections_runs = refl

save_runs_runs : save_runs memory store disk1 ≡ ok (record disk1 { runs = two_runs })
unfolding save_runs
save_runs_runs = refl

save_pipelines_runs : save_pipelines memory store disk1 ≡ ok disk1
unfolding save_pipelines
save_pipelines_runs = refl

open_store-save_example :
    (t : PipeStore ℕ) × (open_store memory (record disk1 { runs = two_runs }) ≡ ok t)
    × (t.connections ≡ store.connections)
    × (t.pipelines ≡ store.pipelines)
    × (t.runs ≡ store.runs)
    × (IsNumbered (2 ^ 64 - 1) store.runs → IsValid t)
open_store-save_example =
    open_store-save memory memory-LawfulFiles store blank disk1 disk1
      (record disk1 { runs = two_runs }) save_connections_runs save_pipelines_runs save_runs_runs

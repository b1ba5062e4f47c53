-- ===== src/Storage/Wal.antt =====
-- crates/toradb-storage/src/wal.rs: the flush log, the compaction log and the checkpoint of a
-- table. A file is its text, if it is there. `Faults` has the error of each call of the system that
-- fails; a write that fails has written `torn`. The JSON text of a record is an interface.
pub mod Lines
mod Append
mod Checkpoint
mod Tests
use toradb.Prelude.{
  ℕ, Bool, true, false, Option, none, some, List, [], ◌∷◌, ◌++◌, ◌==◌, if◌then◌else◌, Text, text,
  text_eq, trim, all, Result, ok, err, ◌>>=◌, ◌&&◌,
}
use toradb.Collections.Keys.{contains}
use toradb.Storage.Wal.Lines.{lines}

pub record WalFlushRecord : Type 0 where
  pub segment : Text
  pub since_id : ℕ
  pub doc_count : ℕ

pub record WalCheckpoint : Type 0 where
  pub last_segment : Text
  pub committed_unix_secs : ℕ

pub record WalCompactionRecord : Type 0 where
  pub removed : List Text
  pub added : List Text
  pub added_tiers : List ℕ

pub record WalFiles : Type 0 where
  pub flush_log : Option Text
  pub checkpoint : Option Text
  pub compaction_log : Option Text

-- `serde_json`, for one type.
pub record Json (A : Type 0) : Type 0 where
  pub to_string : A → Result Text
  pub from_str : Text → Result A

-- The system calls that fail.
pub record Faults : Type 0 where
  pub create_dir_all : Option Text
  pub open_file : Option Text
  pub read : Option Text
  pub write : Option Text
  pub torn : Text
  pub sync_all : Option Text
  pub remove_file : Option Text

abbrev pub Done : Type 0
Done = Unit {0}

-- `call().map_err(|e| e.to_string())?`, and what follows.
abbrev pub attempt : {A S : Type 0} → Option Text → S → (Result A × S) → Result A × S
attempt none s next = next
attempt (some e) s next = (err e, s)

abbrev pub content : Option Text → Text
content none = []
content (some s) = s

-- `writeln!(file, "{line}")`, and `sync_all` where it is asked for, on a file opened to append.
pub append_line : Faults → Bool → Text → Option Text → Result Done × Option Text
append_line f sync line file = attempt f.create_dir_all file (
    attempt f.open_file file (
      attempt f.write (some (content file ++ f.torn)) (
        let written = some (content file ++ (line ++ 10 ∷ [])) in
        if sync then attempt f.sync_all written (ok tt, written) else (ok tt, written))))

pub append_record :
    {A : Type 0} → Json A → Faults → Bool → A → Option Text → Result Done × Option Text
unfolding append_line
append_record json f sync record_ file = elim (json.to_string record_) [
  | err e ↦ attempt f.create_dir_all file (err e, file)
  | ok line ↦ append_line f sync line file
]

-- The loop over the lines of a log; white space is that of one byte.
unfoldable pub read_records : {A : Type 0} → Json A → List Text → Result (List A)
read_records json [] = ok []
read_records json (l ∷ ls) =
    let rest = read_records json ls in
    let more = json.from_str l >>= λ r. rest >>= λ rs. ok (r ∷ rs) in
    elim (trim l) [ [] ↦ rest | _ ∷ _ ↦ more ]

pub read_log : {A : Type 0} → Json A → Faults → Option Text → Result (List A)
unfolding read_records
read_log json f none = ok []
read_log json f (some s) = elim f.open_file [
  | some e ↦ err e
  | none ↦ elim f.read [ some e ↦ err e | none ↦ read_records json (lines s) ]
]

-- `if path.exists() { remove_file(&path)?; }`
pub truncate_log : Faults → Option Text → Result Done × Option Text
truncate_log f none = (ok tt, none)
truncate_log f (some s) = attempt f.remove_file (some s) (ok tt, none)

pub append_compaction :
    Json WalCompactionRecord
    → Faults
    → List Text
    → List Text
    → List ℕ
    → WalFiles
    → Result Done × WalFiles
unfolding append_record
append_compaction json f removed added tiers w =
    let (r, log) =
      append_record json f true (record { removed = removed; added = added; added_tiers = tiers })
        w.compaction_log in
    elim removed [
      | _ ∷ _ ↦ (r, record w { compaction_log = log })
      | [] ↦ elim added [ _ ∷ _ ↦ (r, record w { compaction_log = log }) | [] ↦ (ok tt, w) ]
    ]

pub read_compactions :
    Json WalCompactionRecord → Faults → WalFiles → Result (List WalCompactionRecord)
unfolding read_log
read_compactions json f w = read_log json f w.compaction_log

pub truncate_compactions : Faults → WalFiles → Result Done × WalFiles
unfolding truncate_log
truncate_compactions f w =
    let (r, log) = truncate_log f w.compaction_log in (r, record w { compaction_log = log })

pub append_flush :
    Json WalFlushRecord → Faults → Text → ℕ → ℕ → Bool → WalFiles → Result Done × WalFiles
unfolding append_record
append_flush json f segment since_id doc_count sync w =
    let (r, log) =
      append_record json f sync
        (record { segment = segment; since_id = since_id; doc_count = doc_count }) w.flush_log in
    if doc_count == 0 then (ok tt, w) else (r, record w { flush_log = log })

pub sync_flush_log : Faults → WalFiles → Result Done
sync_flush_log f w = elim w.flush_log [
  | none ↦ ok tt
  | some _ ↦ elim f.open_file [
    | some e ↦ err e
    | none ↦ elim f.sync_all [ some e ↦ err e | none ↦ ok tt ]
  ]
]

pub read_flushes : Json WalFlushRecord → Faults → WalFiles → Result (List WalFlushRecord)
unfolding read_log
read_flushes json f w = read_log json f w.flush_log

pub read_checkpoint : Json WalCheckpoint → Faults → WalFiles → Result (Option WalCheckpoint)
read_checkpoint json f w = elim w.checkpoint [
  | none ↦ ok none
  | some s ↦ elim f.read [ some e ↦ err e | none ↦ json.from_str s >>= λ c. ok (some c) ]
]

-- `fs::write` truncates the file first. `now` is the clock, or its error.
pub write_checkpoint :
    Json WalCheckpoint → Faults → Result ℕ → Text → WalFiles → Result Done × WalFiles
write_checkpoint json f now last_segment w =
    attempt f.create_dir_all w
      (elim (now >>= λ secs.
        json.to_string (record { last_segment = last_segment; committed_unix_secs = secs })) [
          | err e ↦ (err e, w)
          | ok s ↦
              attempt f.write (record w { checkpoint = some f.torn })
                (ok tt, record w { checkpoint = some s })
        ])

pub truncate_flushes : Faults → WalFiles → Result Done × WalFiles
unfolding truncate_log
truncate_flushes f w =
    let (r, log) = truncate_log f w.flush_log in (r, record w { flush_log = log })

abbrev pub last_segment_of : List WalFlushRecord → Text
last_segment_of [] = []
last_segment_of (r ∷ []) = r.segment
last_segment_of (r ∷ q ∷ rs) = last_segment_of (q ∷ rs)

-- `manifest_segments.contains(&r.segment) && segment_dir.join(&r.segment).exists()`
abbrev pub reconciled : List Text → (Text → Bool) → WalFlushRecord → Bool
reconciled segments exists r = contains r.segment segments && exists r.segment

-- `truncate_flushes(base, table)?; Ok(true)`, and the `?` before it.
abbrev pub answer_true : Result Done → WalFiles → Result Bool × WalFiles
answer_true (err e) w = (err e, w)
answer_true (ok _) w = (ok true, w)

abbrev pub cut_after : Faults → Result Done → WalFiles → Result Bool × WalFiles
cut_after f (err e) w = (err e, w)
cut_after f (ok _) w = let (t, w1) = truncate_flushes f w in answer_true t w1

pub checkpoint_after_manifest :
    Json WalFlushRecord
    → Json WalCheckpoint
    → Faults
    → Result ℕ
    → List Text
    → (Text → Bool)
    → WalFiles
    → Result Bool × WalFiles
unfolding write_checkpoint truncate_flushes read_flushes
checkpoint_after_manifest flushes checkpoints f now segments exists w =
    elim (read_flushes flushes f w) [
      | err e ↦ (err e, w)
      | ok [] ↦ (ok false, w)
      | ok (r ∷ rs) ↦ elim (all (reconciled segments exists) (r ∷ rs)) [
        | false ↦ (ok false, w)
        | true ↦
            let (c, w1) = write_checkpoint checkpoints f now (last_segment_of (r ∷ rs)) w in
            cut_after f c w1
      ]
    ]

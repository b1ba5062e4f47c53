-- ===== src/Storage/Wal/Tests.antt =====
-- The logs at one record, printed by a printer that knows that record alone.
use toradb.Prelude.{
  text_eq, ◌≡◌, Bool, true, none, some, List, [], ◌∷◌, ◌++◌, Text, text, text_beq, ◌==◌, ◌&&◌, ok,
  err, if◌then◌else◌,
}
use toradb.Storage.Wal.{
  WalFlushRecord, WalCheckpoint, WalFiles, Json, read_flushes, checkpoint_after_manifest,
}
use toradb.Storage.Wal.Append.{no_faults}
use toradb.Storage.Wal.Checkpoint.{Answered, checkpoint_after_manifest_lem}

abbrev flush_one : WalFlushRecord
flush_one = record { segment = text "seg_1"; since_id = 0; doc_count = 2 }

abbrev is_flush_one : WalFlushRecord → Bool
is_flush_one r = text_beq r.segment (text "seg_1") && (r.since_id == 0 && r.doc_count == 2)

abbrev one_printer : Json WalFlushRecord
one_printer = record {
  to_string = λ r. if is_flush_one r then ok (text "{1}") else err (text "unknown");
  from_str = λ s. ok flush_one;
}

abbrev old_log : WalFiles
old_log = record {
  flush_log = some (text "{1}" ++ 10 ∷ []);
  checkpoint = none;
  compaction_log = none;
}

abbrev checkpoint_printer : Json WalCheckpoint
checkpoint_printer = record { to_string = λ c. ok c.last_segment; from_str = λ s. err s }

checkpoint_after_manifest_example :
    let (r, w') =
      checkpoint_after_manifest one_printer checkpoint_printer no_faults
        (ok 7)
        (text "seg_1" ∷ [])
        (λ _. true)
        old_log in
    ((rs : List WalFlushRecord)
      → read_flushes one_printer no_faults old_log ≡ ok rs
      → Answered one_printer checkpoint_printer no_faults
          (ok 7)
          (text "seg_1" ∷ [])
          (λ _. true)
          old_log
          rs
          r
          w')
    × ((m : Text)
        → read_flushes one_printer no_faults old_log ≡ err m
        → (r ≡ err m) × (w' ≡ old_log))
checkpoint_after_manifest_example =
    checkpoint_after_manifest_lem one_printer checkpoint_printer no_faults (ok 7)
      (text "seg_1" ∷ []) (λ _. true) old_log

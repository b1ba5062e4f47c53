-- ===== src/Storage/Wal/Checkpoint.antt =====
-- When the flush log is cut, and what a checkpoint holds then.
use toradb.Prelude.{
  ℕ, ◌≡◌, ◌≢◌, refl, sym, ap, ◌∙◌, inl, inr, Bool, true, false, Bool-cases, none, some, List, [],
  ◌∷◌, ◌++◌, Text, text_eq, In, all, arith, Result, ok, err, Result-cases,
}
use mathlib.Core.Path.{subst}
use toradb.Collections.Keys.{contains}
use toradb.Storage.Wal.{
  WalFlushRecord, WalCheckpoint, WalFiles, Json, Faults, Done, reconciled, cut_after, truncate_log,
  truncate_flushes, write_checkpoint, last_segment_of, read_flushes, checkpoint_after_manifest,
}

false_answer : (ok false ≡ ok true) → ⊥
false_answer k = ground arith

err_answer : (m : Text) → (err m ≡ ok true) → ⊥
err_answer m k = ground arith

err_done : (m : Text) → ◌≢◌ {A = Result Done} (err m) (ok tt)
err_done m k = ground arith

module _ (flushes : Json WalFlushRecord) (checkpoints : Json WalCheckpoint) (f : Faults)
    (now : Result ℕ) (segments : List Text) (exists : Text → Bool) where
  write_checkpoint-flush_log :
      (last : Text) (w : WalFiles)
      → (write_checkpoint checkpoints f now last w).1.flush_log ≡ w.flush_log
  unfolding write_checkpoint
  write_checkpoint-flush_log last w = ground arith

  write_checkpoint-checkpoint :
      (last : Text) (w : WalFiles) (secs : ℕ) (s : Text)
      → now ≡ ok secs
      → checkpoints.to_string (record { last_segment = last; committed_unix_secs = secs }) ≡ ok s
      → (write_checkpoint checkpoints f now last w).0 ≡ ok tt
      → (write_checkpoint checkpoints f now last w).1.checkpoint ≡ some s
  unfolding write_checkpoint
  write_checkpoint-checkpoint last w secs s h k done = ground arith

  truncate_flushes_lem :
      (w : WalFiles)
      → let (t, w') = truncate_flushes f w in
        (t ≡ ok tt → w'.flush_log ≡ none)
        × (t ≢ ok tt → w'.flush_log ≡ w.flush_log)
        × (w'.checkpoint ≡ w.checkpoint)
  unfolding truncate_flushes truncate_log
  truncate_flushes_lem w = ground arith

  no_records :
      (w : WalFiles)
      → read_flushes flushes f w ≡ ok []
      → checkpoint_after_manifest flushes checkpoints f now segments exists w ≡ (ok false, w)
  unfolding checkpoint_after_manifest
  no_records w h = rw (h, checkpoint_after_manifest) refl

  not_reconciled :
      (w : WalFiles) (q : WalFlushRecord) (rs : List WalFlushRecord)
      → read_flushes flushes f w ≡ ok (q ∷ rs)
      → all (reconciled segments exists) (q ∷ rs) ≡ false
      → checkpoint_after_manifest flushes checkpoints f now segments exists w ≡ (ok false, w)
  unfolding checkpoint_after_manifest
  not_reconciled w q rs h e = rw (h, e, checkpoint_after_manifest) refl

  is_reconciled :
      (w : WalFiles) (q : WalFlushRecord) (rs : List WalFlushRecord)
      → read_flushes flushes f w ≡ ok (q ∷ rs)
      → all (reconciled segments exists) (q ∷ rs) ≡ true
      → checkpoint_after_manifest flushes checkpoints f now segments exists w ≡ (
          let (c, w1) = write_checkpoint checkpoints f now (last_segment_of (q ∷ rs)) w in
          cut_after f c w1)
  unfolding checkpoint_after_manifest
  is_reconciled w q rs h e = rw (h, e, checkpoint_after_manifest) refl

  all-reconciled :
      (rs : List WalFlushRecord)
      → all (reconciled segments exists) rs ≡ true
      → (q : WalFlushRecord) → In q rs
      → (contains q.segment segments ≡ true) × (exists q.segment ≡ true)
  unfolding all
  all-reconciled [] e q h = elim h [ ]
  all-reconciled (r ∷ rs) e q (inr h) = all-reconciled rs (ground arith) q h
  all-reconciled (r ∷ rs) e q (inl is) =
      subst
        (λ (x : WalFlushRecord). (contains x.segment segments ≡ true) × (exists x.segment ≡ true))
        is (ground arith)

  last_segment_of-append :
      (front : List WalFlushRecord) (q : WalFlushRecord)
      → last_segment_of (front ++ q ∷ []) ≡ q.segment
  last_segment_of-append [] q = refl
  last_segment_of-append (r ∷ []) q = refl
  last_segment_of-append (r ∷ t ∷ front) q = last_segment_of-append (t ∷ front) q

  -- What an answer says of the records of the log and of the files.
  abbrev pub Answered : WalFiles → List WalFlushRecord → Result Bool → WalFiles → Type 0
  Answered w rs r w' =
      (r ≡ ok true
        → (rs ≢ [])
          × ((q : WalFlushRecord)
              → In q rs
              → (contains q.segment segments ≡ true) × (exists q.segment ≡ true))
          × (w'.flush_log ≡ none)
          × ((front : List WalFlushRecord) (q : WalFlushRecord) (secs : ℕ) (s : Text)
              → rs ≡ front ++ q ∷ []
              → now ≡ ok secs
              → checkpoints.to_string
                  (record { last_segment = q.segment; committed_unix_secs = secs })
                ≡ ok s
              → w'.checkpoint ≡ some s))
      × (r ≢ ok true → w'.flush_log ≡ w.flush_log)

  answered :
      (w : WalFiles) (rs : List WalFlushRecord)
      → read_flushes flushes f w ≡ ok rs
      → let (r, w') = checkpoint_after_manifest flushes checkpoints f now segments exists w in
        Answered w rs r w'
  answered w [] h = rw (no_records w h) (λ k. absurd (false_answer k), λ k. refl)
  answered w (q ∷ rs) h = elim (Bool-cases (all (reconciled segments exists) (q ∷ rs))) [
    | inr e ↦ rw (not_reconciled w q rs h e) (λ k. absurd (false_answer k), λ k. refl)
    | inl e ↦
        let last = last_segment_of (q ∷ rs) in
        let w1 = (write_checkpoint checkpoints f now last w).1 in
        let kept = write_checkpoint-flush_log last w in
        let (cut, uncut, point) = truncate_flushes_lem w1 in
        rw (is_reconciled w q rs h e)
          (elim (Result-cases (write_checkpoint checkpoints f now last w).0) [
            | inr (m, c) ↦ rw c (λ k. absurd (err_answer m k), λ k. kept)
            | inl (done, c) ↦ elim (Result-cases (truncate_flushes f w1).0) [
              | inr (m, t) ↦
                  rw (c, t)
                    (λ k. absurd (err_answer m k), λ k. uncut (λ u. err_done m (sym t ∙ u)) ∙ kept)
              | inl (done', t) ↦
                  rw (c, t)
                    (
                      λ k. (
                        λ n. cc,
                        all-reconciled (q ∷ rs) e,
                        cut t,
                        λ front q' secs s split now_is printed.
                            let named : last ≡ q'.segment =
                              ap last_segment_of split ∙ last_segment_of-append front q' in
                            point
                            ∙ write_checkpoint-checkpoint last w secs s now_is
                                (ap
                                    (λ (t : Text).
                                      checkpoints.to_string
                                        (record { last_segment = t; committed_unix_secs = secs }))
                                    named
                                  ∙ printed)
                                c,
                      ),
                      λ k. absurd (k refl),
                    )
            ]
          ])
  ]

  unreadable :
      (w : WalFiles) (m : Text)
      → read_flushes flushes f w ≡ err m
      → checkpoint_after_manifest flushes checkpoints f now segments exists w ≡ (err m, w)
  unfolding checkpoint_after_manifest
  unreadable w m h = rw (h, checkpoint_after_manifest) refl

  -- The flush log is cut only where it reads as records of which there is a last, and every one is
  -- of a segment that the manifest lists and that is on the disk; then the checkpoint names the
  -- segment of the last record. With any other answer, an error included, the log stays as it was,
  -- and where the log cannot be read that error is answered and no file changes.
  pub checkpoint_after_manifest_lem :
      (w : WalFiles)
      → let (r, w') = checkpoint_after_manifest flushes checkpoints f now segments exists w in
        ((rs : List WalFlushRecord) → read_flushes flushes f w ≡ ok rs → Answered w rs r w')
        × ((m : Text) → read_flushes flushes f w ≡ err m → (r ≡ err m) × (w' ≡ w))
  checkpoint_after_manifest_lem w = (answered w, λ m h. rw (unreadable w m h) (refl, refl))

-- ===== src/Storage/Compaction/Merge/Files.antt =====
-- The merge of the segments that lie on the disk.
use toradb.Prelude.{
  ℕ, ◌≤◌, ◌<◌, ◌≡◌, refl, ap, ◌∙◌, Bool, true, false, ◌&&◌, none, some, List, [], ◌∷◌, ◌++◌, ◌==◌,
  if◌then◌else◌, Text, all, arith, sum_of, sum_of-append, Result, ok, err,
}
use toradb.Storage.Compaction.Merge.{
  Row, MergeSource, Merged, Attempt, went_on, Disk, no_id, open_all, opened, closed, run,
  nothing_merged, merge_loop, merge_segments_streaming, source,
}
use toradb.Storage.Compaction.Merge.Batches.{span}
use toradb.Storage.Compaction.Merge.Reading.{unread, unread_reader, is_readable, is_ready, Casts}
use toradb.Storage.Compaction.Merge.Sources.{AllReady, Ready, total, has_id}
use toradb.Storage.Compaction.Merge.Total.{live_weight, one, merge_loop_lem}

module _ {C : Type 0} where
  unfoldable pub rows_in : Result (List (Result (List (Row C)))) → List (Row C)
  unfolding unread_reader
  rows_in (err e) = []
  rows_in (ok rs) = unread_reader rs

  unfoldable pub ends_well : Result (List (Result (List (Row C)))) → Bool
  unfolding is_readable unread_reader span
  ends_well (err e) = false
  ends_well (ok rs) = is_readable rs && span 0 no_id (unread_reader rs)

  opened_lem :
      (p : Text) (rs : Result (List (Result (List (Row C)))))
      → ends_well rs ≡ true
      → (s : MergeSource C) × (opened p rs ≡ ok s)
        × Ready 0 s
        × (unread s.peeked s.reader ≡ rows_in rs)
  unfolding ends_well rows_in is_readable unread unread_reader is_ready span
  opened_lem p (err e) h = absurd (ground arith)
  opened_lem p (ok []) h =
      (source p none [], refl, record { ready = refl; inside = refl; first = refl }, refl)
  opened_lem p (ok (err e ∷ rs)) h = absurd (ground arith)
  opened_lem p (ok (ok [] ∷ rs)) h = absurd (ground arith)
  opened_lem p (ok (ok (r ∷ b) ∷ rs)) h = (
    source p (some (r ∷ b)) rs,
    refl,
    record { ready = ground arith; inside = ground arith; first = refl },
    refl,
  )

module _ {C : Type 0} {D : Type 0} (disk : Disk C D) where
  -- The rows of several segments, one behind the other.
  unfoldable pub all_stored : List Text → List (Row C)
  unfolding rows_in
  all_stored [] = []
  all_stored (p ∷ ps) = rows_in (disk.iter_segment_batches p) ++ all_stored ps

  -- The segment can be read to its end, and its ids grow and are below `u64::MAX`.
  abbrev pub is_whole : Text → Bool
  is_whole p = ends_well (disk.iter_segment_batches p)

  open_all_next :
      (deleted : List ℕ) (p : Text) (ps : List Text) (s : MergeSource C) (ss : List (MergeSource C))
      → opened p (disk.iter_segment_batches p) ≡ ok s
      → open_all disk deleted ps ≡ ok ss
      → open_all disk deleted (p ∷ ps) ≡ ok (s ∷ ss)
  unfolding open_all
  open_all_next deleted p ps s ss a b = rw (a, b, open_all)

  run_lem :
      (deleted : List ℕ) (fuel : ℕ) (ss : List (MergeSource C)) (w : Merged D)
      → disk.create ≡ none
      → disk.close ≡ none
      → merge_loop disk deleted fuel ss (nothing_merged disk deleted) ≡ some (went_on w)
      → run disk deleted fuel (ok ss) ≡ some (closed disk deleted (went_on w))
  unfolding run
  run_lem deleted fuel ss w create close done = rw (create, done, run)

  closed_lem :
      (deleted : List ℕ) (w : Merged D)
      → disk.close ≡ none
      → closed disk deleted (went_on w)
        ≡ went_on (record w { global_min = if w.global_min == no_id then 0 else w.global_min })
  closed_lem deleted w e = rw e

  open_all_lem :
      (deleted : List ℕ) (ps : List Text)
      → all is_whole ps ≡ true
      → (ss : List (MergeSource C)) × (open_all disk deleted ps ≡ ok ss)
        × AllReady 0 ss
        × ((g : Row C → ℕ) → total g ss ≡ sum_of g (all_stored ps))
  unfolding open_all all all_stored sum_of
  open_all_lem deleted [] h = ([], refl, tt, λ g. refl)
  open_all_lem deleted (p ∷ ps) h =
      let (s, opens, ready, rows) = opened_lem p (disk.iter_segment_batches p) (ground arith) in
      let (ss, rest, all_ready, weighs) = open_all_lem deleted ps (ground arith) in
      (
        s ∷ ss,
        open_all_next deleted p ps s ss opens rest,
        (ready, all_ready),
        λ g.
            let here : sum_of g (unread s.peeked s.reader)
                ≡ sum_of g (rows_in (disk.iter_segment_batches p)) =
              ap (sum_of g) rows in
            omega (
              arith,
              here,
              weighs g,
              sum_of-append g (rows_in (disk.iter_segment_batches p)) (all_stored ps),
            ),
      )

  -- Segments are merged: where no call of the system fails and the cast works row by row, every
  -- segment can be read to its end in batches of some rows each, with growing ids below
  -- `u64::MAX`, no id stands in two places, and there are more turns than rows, the merge is done;
  -- the rows of the new segment are in the order of their ids, and are those of the sources that
  -- are not deleted, each as often as there, by any weight.
  pub merge_segments_streaming_lem :
      (deleted : List ℕ) (f : C → D) (fuel : ℕ) (p : Text) (ps : List Text)
      → Casts disk f
      → disk.create ≡ none
      → disk.close ≡ none
      → all is_whole (p ∷ ps) ≡ true
      → ((i : ℕ) → sum_of (has_id i) (all_stored (p ∷ ps)) ≤ 1)
      → sum_of one (all_stored (p ∷ ps)) < fuel
      → (w : Merged D) × (merge_segments_streaming disk deleted fuel (p ∷ ps) ≡ some (went_on w))
        × (span 0 no_id w.out ≡ true)
        × ((g : Row D → ℕ)
            → sum_of g w.out ≡ sum_of (live_weight deleted f g) (all_stored (p ∷ ps)))
  unfolding merge_segments_streaming run sum_of span
  merge_segments_streaming_lem deleted f fuel p ps casts create close whole distinct h =
      let (ss, opens, ready, weighs) = open_all_lem deleted (p ∷ ps) whole in
      let (w, done, ordered, weight) =
        merge_loop_lem disk deleted f casts fuel 0 ss (nothing_merged disk deleted)
          (record {
            ready = ready;
            bounded = omega arith;
            written = refl;
            distinct = λ i. omega (arith, weighs (has_id i), distinct i);
          })
          (omega (arith, weighs one)) in
      (
        record w { global_min = if w.global_min == no_id then 0 else w.global_min },
        ap (run disk deleted fuel) opens
            ∙ run_lem deleted fuel ss w create close done
            ∙ ap (λ (a : Attempt (Merged D)). some a) (closed_lem deleted w close),
        ordered,
        λ g. omega (arith, weight g, weighs (live_weight deleted f g)),
      )

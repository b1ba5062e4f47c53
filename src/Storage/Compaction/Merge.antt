-- ===== src/Storage/Compaction/Merge.antt =====
-- `merge_segments_streaming`: several segments into one. A segment is what its reader answers, batch
-- by batch; a row is its id and its other columns.
pub mod Batches
pub mod Reading
pub mod Writing
pub mod Drain
pub mod Sources
pub mod Total
pub mod Files
pub mod Bounds
pub mod Stuck
mod Tests
use toradb.Prelude.{
  ℕ, zero, suc, ◌+◌, ◌%◌, ◌^◌, min, max, Bool, true, false, not, Option, none, some, List, [], ◌∷◌,
  ◌++◌, ltb, leb, ◌==◌, if◌then◌else◌, Text, text, length, take, drop, get_elem?, set, retain, all,
  Result, ok, err,
}

abbrev pub Row : Type 0 → Type 0
Row C = ℕ × C

-- `u64::MAX`, which stands for no id.
abbrev pub no_id : ℕ
no_id = 18446744073709551615

pub record MergeSource (C : Type 0) : Type 0 where
  pub path : Text
  pub peeked : Option (List (Row C))
  pub reader : List (Result (List (Row C)))
  pub min_id : ℕ

-- The new segment so far, and the sources that are deleted.
pub record Merged (D : Type 0) : Type 0 where
  pub out : List (Row D)
  pub global_min : ℕ
  pub global_max : ℕ
  pub row_count : ℕ
  pub removed : List Text

-- A step of the merge goes on, or fails when some sources are deleted already.
pub data Attempt (A : Type 0) : Type 0 where
  went_on : A → Attempt A
  failed : Text → List Text → Attempt A

-- What the loop over one source does next.
pub data Turn (C : Type 0) : Type 0 where
  stay : Turn C
  whole : List (Row C) → Turn C
  part : List (Row C) → Turn C

-- The calls of the system: the readers of the segments, the file that is created, the batch cast
-- to the schema of the table and written, and the file closed.
pub record Disk (C D : Type 0) : Type 0 where
  pub iter_segment_batches : Text → Result (List (Result (List (Row C))))
  pub create : Option Text
  pub cast_and_write : List (Row C) → Result (List (Row D))
  pub close : Option Text

abbrev pub unwrap_or {ℓ} : {A : Type ℓ} → A → Option A → A
unwrap_or d none = d
unwrap_or d (some a) = a

-- `deleted.contains(&id)`
unfoldable pub contains_id : List ℕ → ℕ → Bool
contains_id [] i = false
contains_id (d ∷ ds) i = if d == i then true else contains_id ds i

module _ {C : Type 0} where
  unfoldable pub batch_min_id : List (Row C) → Option ℕ
  batch_min_id [] = none
  batch_min_id (r ∷ rs) = elim (batch_min_id rs) [ none ↦ some (r.0) | some m ↦ some (min (r.0) m) ]

  unfoldable pub batch_max_id : List (Row C) → Option ℕ
  batch_max_id [] = none
  batch_max_id (r ∷ rs) = elim (batch_max_id rs) [ none ↦ some (r.0) | some m ↦ some (max (r.0) m) ]

  -- The first row whose id is not below the cutoff.
  unfoldable pub split_pos : List (Row C) → ℕ → ℕ
  split_pos [] cutoff = 0
  split_pos (r ∷ rs) cutoff = if leb cutoff (r.0) then 0 else suc (split_pos rs cutoff)

  unfoldable pub split_batch_at : List (Row C) → ℕ → Option (List (Row C)) × Option (List (Row C))
  unfolding split_pos
  split_batch_at batch cutoff =
      let p = split_pos batch cutoff in
      if p == 0
      then (none, some batch)
      else (if p == length batch
          then (some batch, none)
          else (some (take p batch), some (drop p batch)))

  abbrev pub is_live : List ℕ → Row C → Bool
  is_live deleted r = not (contains_id deleted (r.0))

  -- `none` when there is nothing to take out.
  unfoldable pub filter_batch_by_deleted : List ℕ → List (Row C) → Option (List (Row C))
  unfolding contains_id all retain
  filter_batch_by_deleted [] batch = none
  filter_batch_by_deleted (d ∷ ds) batch =
      if all (is_live (d ∷ ds)) batch then none else some (retain (is_live (d ∷ ds)) batch)

  -- The smallest id of a peeked batch.
  abbrev pub peeked_min : Option (List (Row C)) → ℕ
  peeked_min none = no_id
  peeked_min (some b) = unwrap_or no_id (batch_min_id b)

  -- `r.ok()`
  abbrev pub read : Result (List (Row C)) → Option (List (Row C))
  read (ok b) = some b
  read (err e) = none

  abbrev pub source : Text → Option (List (Row C)) → List (Result (List (Row C))) → MergeSource C
  source path peeked reader = record {
    path = path;
    peeked = peeked;
    reader = reader;
    min_id = peeked_min peeked;
  }

  abbrev pub opened : Text → Result (List (Result (List (Row C)))) → Result (MergeSource C)
  opened path (err e) = err e
  opened path (ok []) = ok (source path none [])
  opened path (ok (err e ∷ rs)) = err e
  opened path (ok (ok b ∷ rs)) = ok (source path (some b) rs)

  -- The sources that still have a batch: the first of those with the smallest id, and its place.
  unfoldable pub best : List (MergeSource C) → Option (ℕ × MergeSource C)
  best [] = none
  best (s ∷ ss) = elim s.peeked [
    | none ↦ elim (best ss) [ none ↦ none | some (i, t) ↦ some (suc i, t) ]
    | some _ ↦ elim (best ss) [
      | none ↦ some (0, s)
      | some (i, t) ↦ if leb s.min_id t.min_id then some (0, s) else some (suc i, t)
    ]
  ]

  unfoldable pub others : ℕ → List (MergeSource C) → List (MergeSource C)
  others i [] = []
  others zero (s ∷ ss) = ss
  others (suc i) (s ∷ ss) = s ∷ others i ss

  -- The smallest id of those that still have a batch.
  unfoldable pub least : List (MergeSource C) → ℕ
  least [] = no_id
  least (s ∷ ss) = elim s.peeked [ none ↦ least ss | some _ ↦ min s.min_id (least ss) ]

  unfoldable pub next_min : ℕ → List (MergeSource C) → ℕ
  unfolding least others
  next_min i ss = least (others i ss)

  -- The guards of the loop over one source.
  unfoldable pub turn : ℕ → Option (List (Row C)) → ℕ → Turn C
  unfolding batch_max_id
  turn cutoff none m = stay
  turn cutoff (some b) m = elim (batch_max_id b) [
    | none ↦ stay
    | some peeked_max ↦
        if leb cutoff m then stay else (if ltb peeked_max cutoff then whole b else part b)
  ]

-- `take_batch` deletes the file of a source that has no batch left.
abbrev pub delete_if_done : {C D : Type 0} → Text → Option (List (Row C)) → Merged D → Merged D
delete_if_done path none w = record w { removed = w.removed ++ path ∷ [] }
delete_if_done path (some b) w = w

abbrev pub with_min : {D : Type 0} → Option ℕ → Merged D → Merged D
with_min none w = w
with_min (some m) w = record w { global_min = if ltb m w.global_min then m else w.global_min }

abbrev pub with_max : {D : Type 0} → Option ℕ → Merged D → Merged D
with_max none w = w
with_max (some m) w = record w { global_max = if ltb w.global_max m then m else w.global_max }

-- The rows behind the segment, or the merge fails.
abbrev pub put : {D : Type 0} → Result (List (Row D)) → Merged D → Attempt (Merged D)
put (err e) w = failed e w.removed
put (ok rows) w = went_on (record w { out = w.out ++ rows })

module _ {C : Type 0} {D : Type 0} (disk : Disk C D) (deleted : List ℕ) where
  -- The rows that are not deleted go to the new segment.
  unfoldable pub write_batch : List (Row C) → Merged D → Attempt (Merged D)
  unfolding filter_batch_by_deleted batch_min_id batch_max_id
  write_batch batch w =
      let kept = unwrap_or batch (filter_batch_by_deleted deleted batch) in
      let counted = with_max (batch_max_id kept) (with_min (batch_min_id kept) w) in
      if length kept == 0
      then went_on w
      else put (disk.cast_and_write kept)
          (record counted { row_count = (w.row_count + length kept) % 2 ^ 64 })

  unfoldable pub write_left : Option (List (Row C)) → Merged D → Attempt (Merged D)
  unfolding write_batch
  write_left none w = went_on w
  write_left (some left) w = write_batch left w

  -- The part of the batch below the cutoff; the rest is peeked at again.
  unfoldable pub write_part :
      ℕ
      → Text
      → List (Row C)
      → List (Result (List (Row C)))
      → Merged D
      → Attempt (MergeSource C × Merged D)
  unfolding split_batch_at write_left
  write_part cutoff path b rs w = elim (write_left (split_batch_at b cutoff).0 w) [
    | failed e gone ↦ failed e gone
    | went_on w' ↦ went_on (source path ((split_batch_at b cutoff).1) rs, w')
  ]

  -- The loop over one source, up to the cutoff.
  unfoldable pub drain :
      ℕ
      → Text
      → Option (List (Row C))
      → ℕ
      → List (Result (List (Row C)))
      → Merged D
      → Attempt (MergeSource C × Merged D)
  unfolding turn write_part
  drain cutoff path peeked m [] w = elim (turn cutoff peeked m) [
    | stay ↦ went_on (record { path = path; peeked = peeked; reader = []; min_id = m }, w)
    | part b ↦ write_part cutoff path b [] w
    | whole b ↦ elim (write_batch b (record w { removed = w.removed ++ path ∷ [] })) [
      | failed e gone ↦ failed e gone
      | went_on w' ↦ went_on (source path none [], w')
    ]
  ]
  drain cutoff path peeked m (r ∷ rs) w = elim (turn cutoff peeked m) [
    | stay ↦ went_on (record { path = path; peeked = peeked; reader = r ∷ rs; min_id = m }, w)
    | part b ↦ write_part cutoff path b (r ∷ rs) w
    | whole b ↦ elim (write_batch b (delete_if_done path (read r) w)) [
      | failed e gone ↦ failed e gone
      | went_on w' ↦ drain cutoff path (read r) (peeked_min (read r)) rs w'
    ]
  ]

  -- The loop over all sources; `none` when the turns do not suffice.
  unfoldable pub merge_loop : ℕ → List (MergeSource C) → Merged D → Option (Attempt (Merged D))
  unfolding best next_min drain
  merge_loop zero ss w = none
  merge_loop (suc fuel) ss w = elim (best ss) [
    | none ↦ some (went_on w)
    | some (i, s) ↦ elim (drain (next_min i ss) s.path s.peeked s.min_id s.reader w) [
      | failed e gone ↦ some (failed e gone)
      | went_on (s', w') ↦ merge_loop fuel (set ss i s') w'
    ]
  ]

  unfoldable pub open_all : List Text → Result (List (MergeSource C))
  open_all [] = ok []
  open_all (p ∷ ps) = elim (opened p (disk.iter_segment_batches p)) [
    | err e ↦ err e
    | ok s ↦ elim (open_all ps) [ err e ↦ err e | ok ss ↦ ok (s ∷ ss) ]
  ]

  abbrev pub nothing_merged : Merged D
  nothing_merged = record {
    out = [];
    global_min = no_id;
    global_max = 0;
    row_count = 0;
    removed = [];
  }

  -- The file is closed, and a segment without rows starts at 0.
  abbrev pub closed : Attempt (Merged D) → Attempt (Merged D)
  closed (failed e gone) = failed e gone
  closed (went_on w) = elim disk.close [
    | some e ↦ failed e w.removed
    | none ↦ went_on (record w { global_min = if w.global_min == no_id then 0 else w.global_min })
  ]

  abbrev pub run : ℕ → Result (List (MergeSource C)) → Option (Attempt (Merged D))
  unfolding merge_loop
  run fuel (err e) = some (failed e [])
  run fuel (ok ss) = elim disk.create [
    | some e ↦ some (failed e [])
    | none ↦ elim (merge_loop fuel ss nothing_merged) [ none ↦ none | some a ↦ some (closed a) ]
  ]

  unfoldable pub merge_segments_streaming : ℕ → List Text → Option (Attempt (Merged D))
  unfolding open_all run
  merge_segments_streaming fuel [] =
      some (failed (text "merge_segments_streaming: no source segments") [])
  merge_segments_streaming fuel (p ∷ ps) = run fuel (open_all (p ∷ ps))

-- ===== src/Storage/Compaction/Merge/Drain.antt =====
-- The loop over one source.
use toradb.Prelude.{
  ℕ, ◌≤◌, ◌<◌, ◌≡◌, refl, sym, ap, ◌∙◌, inl, inr, true, Bool-cases, Option, none, some, List, [],
  ◌∷◌, ◌++◌, append-nil, append_assoc, ltb, leb, ltb→lt, ◌⊎◌, if◌then◌else◌, Text, length, take,
  drop, retain, arith, take-append-drop, Result,
}
use toradb.Storage.Compaction.Merge.{
  Row, MergeSource, Merged, went_on, Turn, stay, whole, part, Disk, no_id, batch_max_id, split_pos,
  unwrap_or, peeked_min, read, source, turn, delete_if_done, drain,
}
use toradb.Storage.Compaction.Merge.Batches.{
  span, end_of, span-append, span_left, span_right, max-end, batch_max_id-some, batch_min_id-first,
  split_pos_left, split_pos_right, split_pos_found,
}
use toradb.Storage.Compaction.Merge.Reading.{
  unread_reader, unread, is_readable, is_ready, next_is_ready, drop-is_ready, recast, live_rows,
  live_rows-append, Casts,
}
use toradb.Storage.Compaction.Merge.Writing.{write_batch_lem, write_part_lem, out-delete_if_done}

-- Where the loop stands after a source was drained up to a cutoff: some rows went to the segment,
-- and those that remain start at the cutoff.
pub record Drained {C : Type 0} {D : Type 0} (f : C → D) (deleted : List ℕ) (l c : ℕ)
    (rows : List (Row C)) (w : Merged D) (s' : MergeSource C) (w' : Merged D) : Type 0 where
  pub taken : List (Row C)
  pub splits : rows ≡ taken ++ unread s'.peeked s'.reader
  pub writes : w'.out ≡ w.out ++ live_rows deleted f taken
  pub before : span l c taken ≡ true
  pub behind : span c no_id (unread s'.peeked s'.reader) ≡ true
  pub ready : is_ready s'.peeked s'.reader ≡ true
  pub first : s'.min_id ≡ peeked_min s'.peeked

turn_at :
    {C : Type 0} (c m x : ℕ) (b : List (Row C))
    → batch_max_id b ≡ some x
    → turn c (some b) m ≡ (if leb c m then stay else (if ltb x c then whole b else part b))
unfolding turn
turn_at {C = C} c m x b e =
    ap
      (λ (o : Option ℕ). elim o as (λ _. Turn C) [
        | none ↦ stay
        | some y ↦ if leb c m then stay else (if ltb y c then whole b else part b)
      ])
      e

-- What the guards decide on a batch that is ready.
turn-cases :
    {C : Type 0} (l c m : ℕ) (q : Row C) (b ys : List (Row C))
    → span l no_id ((q ∷ b) ++ ys) ≡ true
    → m ≡ peeked_min (some (q ∷ b))
    → ((turn c (some (q ∷ b)) m ≡ stay) × (span c no_id ((q ∷ b) ++ ys) ≡ true))
      ⊎ (((turn c (some (q ∷ b)) m ≡ whole (q ∷ b)) × (end_of l (q ∷ b) ≤ c))
          ⊎ ((turn c (some (q ∷ b)) m ≡ part (q ∷ b)) × (split_pos (q ∷ b) c < length (q ∷ b))))
turn-cases l c m q b ys h is =
    let here = span_left l no_id (q ∷ b) ys h in
    let (x, e) = batch_max_id-some q b in
    let first : m ≡ q.0 =
      is ∙ ap (unwrap_or no_id) (batch_min_id-first l (end_of l (q ∷ b)) q b here) in
    let last = max-end l (end_of l (q ∷ b)) x (q ∷ b) e here in
    rw (turn_at c m x (q ∷ b) e) (elim (Bool-cases (leb c m)) [
      | inl k ↦ rw k (inl (refl, unfold span in ground (arith, first, h)))
      | inr k ↦ elim (Bool-cases (ltb x c)) [
        | inl below ↦ rw (k, below) (inr (inl (refl, omega (arith, last, ltb→lt x c below))))
        | inr above ↦ rw (k, above) (inr (inr (refl, split_pos_found c x (q ∷ b) e (ground arith))))
      ]
    ])

module _ {C : Type 0} {D : Type 0} (deleted : List ℕ) (f : C → D) where
  stay-Drained :
      (l c : ℕ) (path : Text) (b : Option (List (Row C))) (rs : List (Result (List (Row C))))
      (w : Merged D) (m : ℕ)
      → m ≡ peeked_min b
      → l ≤ c
      → is_ready b rs ≡ true
      → span c no_id (unread b rs) ≡ true
      → Drained f deleted l c
          (unread b rs)
          w
          (record { path = path; peeked = b; reader = rs; min_id = m })
          w
  unfolding span recast retain
  stay-Drained l c path b rs w m is le ready behind = record {
    taken = [];
    splits = refl;
    writes = sym (append-nil w.out);
    before = ground arith;
    behind = behind;
    ready = ready;
    first = is;
  }

  -- A whole batch in front of what is drained after it.
  whole-Drained :
      (l c : ℕ) (b rest : List (Row C)) (w w' w'' : Merged D) (s : MergeSource C)
      → w'.out ≡ w.out ++ live_rows deleted f b
      → span l (end_of l b) b ≡ true
      → Drained f deleted (end_of l b) c rest w' s w''
      → Drained f deleted l c (b ++ rest) w s w''
  whole-Drained l c b rest w w' w'' s e h d = record {
    taken = b ++ d.taken;
    splits =
        ap (λ (x : List (Row C)). b ++ x) d.splits
        ∙ sym (append_assoc b d.taken (unread s.peeked s.reader));
    writes =
        d.writes
        ∙ ap (λ (x : List (Row D)). x ++ live_rows deleted f d.taken) e
        ∙ append_assoc w.out (live_rows deleted f b) (live_rows deleted f d.taken)
        ∙ ap (λ (x : List (Row D)). w.out ++ x) (sym (live_rows-append deleted f b d.taken));
    before = span-append l (end_of l b) c b d.taken h d.before;
    behind = d.behind;
    ready = d.ready;
    first = d.first;
  }

  -- A batch that is split at the cutoff.
  part-Drained :
      (l c : ℕ) (path : Text) (q : Row C) (b : List (Row C)) (rs : List (Result (List (Row C))))
      (w w' : Merged D)
      → l ≤ c
      → is_readable rs ≡ true
      → span l no_id ((q ∷ b) ++ unread_reader rs) ≡ true
      → split_pos (q ∷ b) c < length (q ∷ b)
      → w'.out ≡ w.out ++ live_rows deleted f (take (split_pos (q ∷ b) c) (q ∷ b))
      → Drained f deleted l c
          ((q ∷ b) ++ unread_reader rs)
          w
          (source path (some (drop (split_pos (q ∷ b) c) (q ∷ b))) rs)
          w'
  unfolding unread
  part-Drained l c path q b rs w w' le readable h found e =
      let p = split_pos (q ∷ b) c in
      record {
        taken = take p (q ∷ b);
        splits =
            ap (λ (x : List (Row C)). x ++ unread_reader rs) (sym (take-append-drop p (q ∷ b)))
            ∙ append_assoc (take p (q ∷ b)) (drop p (q ∷ b)) (unread_reader rs);
        writes = e;
        before = split_pos_left l no_id c (q ∷ b) (unread_reader rs) h le;
        behind = split_pos_right l no_id c (q ∷ b) (unread_reader rs) h found;
        ready = drop-is_ready p (q ∷ b) rs found readable;
        first = refl;
      }

module _ {C : Type 0} {D : Type 0} (disk : Disk C D) (deleted : List ℕ) (f : C → D) where
  pub drain_lem :
      Casts disk f
      → (l c : ℕ) (path : Text) (peeked : Option (List (Row C))) (m : ℕ)
        (rs : List (Result (List (Row C)))) (w : Merged D)
      → l ≤ c
      → c ≤ no_id
      → m ≡ peeked_min peeked
      → is_ready peeked rs ≡ true
      → span l no_id (unread peeked rs) ≡ true
      → (s' : MergeSource C) × (w' : Merged D) × (drain disk deleted c path peeked m rs w
          ≡ went_on (s', w'))
        × Drained f deleted l c (unread peeked rs) w s' w'
  unfolding drain is_ready unread unread_reader is_readable
  drain_lem casts l c path none m [] w le top is ready h = (
    source path none [],
    w,
    rw (is, drain),
    stay-Drained deleted f l c path none [] w no_id refl le refl (unfold span in ground arith),
  )
  drain_lem casts l c path none m (r ∷ rs) w le top is ready h = absurd (ground arith)
  drain_lem casts l c path (some []) m rs w le top is ready h = absurd (ground arith)
  drain_lem casts l c path (some (q ∷ b)) m [] w le top is ready h =
      elim (turn-cases l c m q b [] h is) [
        | inl (t, behind) ↦ (
          record { path = path; peeked = some (q ∷ b); reader = []; min_id = m },
          w,
          rw (t, drain),
          stay-Drained deleted f l c path (some (q ∷ b)) [] w m is le ready behind,
        )
        | inr (inl (t, fits)) ↦
            let (w', wrote, out) =
              write_batch_lem disk deleted f casts (q ∷ b)
                (record w { removed = w.removed ++ path ∷ [] }) in
            (
              source path none [],
              w',
              rw (t, wrote, drain),
              whole-Drained deleted f l c (q ∷ b) [] w w' w' (source path none []) out
                  (span_left l no_id (q ∷ b) [] h)
                  (stay-Drained deleted f (end_of l (q ∷ b)) c path none [] w' no_id refl fits refl
                    (unfold span in ground arith)),
            )
        | inr (inr (t, found)) ↦
            let (w', wrote, out) = write_part_lem disk deleted f casts c path (q ∷ b) [] w found in
            (
              source path (some (drop (split_pos (q ∷ b) c) (q ∷ b))) [],
              w',
              rw (t, wrote, drain),
              part-Drained deleted f l c path q b [] w w' le ready h found out,
            )
      ]
  drain_lem casts l c path (some (q ∷ b)) m (r ∷ rs) w le top is ready h =
      elim (turn-cases l c m q b (unread_reader (r ∷ rs)) h is) [
        | inl (t, behind) ↦ (
          record { path = path; peeked = some (q ∷ b); reader = r ∷ rs; min_id = m },
          w,
          rw (t, drain),
          stay-Drained deleted f l c path (some (q ∷ b)) (r ∷ rs) w m is le ready behind,
        )
        | inr (inl (t, fits)) ↦
            let next = next_is_ready r rs ready in
            let w0 = delete_if_done path (read r) w in
            let (w', wrote, out) = write_batch_lem disk deleted f casts (q ∷ b) w0 in
            let (s, w'', goes, d) =
              drain_lem casts (end_of l (q ∷ b)) c path (read r) (peeked_min (read r)) rs w' fits
                top refl (next.0)
                (rw (next.1) (span_right l no_id (q ∷ b) (unread_reader (r ∷ rs)) h)) in
            (
              s,
              w'',
              rw (t, wrote, goes, drain),
              whole-Drained deleted f l c (q ∷ b) (unread_reader (r ∷ rs)) w w' w'' s
                  (out
                    ∙ ap (λ (x : List (Row D)). x ++ live_rows deleted f (q ∷ b))
                        (out-delete_if_done disk deleted f path (read r) w))
                  (span_left l no_id (q ∷ b) (unread_reader (r ∷ rs)) h) (rw (sym (next.1)) d),
            )
        | inr (inr (t, found)) ↦
            let (w', wrote, out) =
              write_part_lem disk deleted f casts c path (q ∷ b) (r ∷ rs) w found in
            (
              source path (some (drop (split_pos (q ∷ b) c) (q ∷ b))) (r ∷ rs),
              w',
              rw (t, wrote, drain),
              part-Drained deleted f l c path q b (r ∷ rs) w w' le ready h found out,
            )
      ]

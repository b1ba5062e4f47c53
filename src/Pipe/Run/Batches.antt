-- ===== src/Pipe/Run/Batches.antt =====
-- A run over a source that serves its rows in order.
use toradb.Prelude.{
  ℕ, ◌+◌, ◌%◌, ◌^◌, ◌<◌, ◌≡◌, refl, sym, ap, ◌∙◌, Bool, false, ◌&&◌, Bool-cases, Option, List, [],
  ◌∷◌, ◌++◌, append_assoc, append-nil, map, ltb, if◌then◌else◌, Text, length, take, drop,
  length-append, Result, ok, arith, inl, inr,
}
use toradb.Pipe.Model.{Pipeline}
use toradb.Pipe.Run.{
  RawRow, Cursor, IngestDoc, Source, Engine, RunOutcome, done, Running, stop, again, row_to_doc,
  later_cursor, latest, absorb, batch_size, one_turn, stopped, finish_session, is_full, prepare,
}
use toradb.Pipe.Run.Embedding.{Embeds, embedded_lem, map-append}

-- A source serves rows in order: those that are left at a cursor, as many as are asked for.
unfoldable pub Serves : {S : Type 0} → Source S → (S → Cursor → List RawRow) → Type 0
Serves {S = S} src left =
    (c : Cursor) (n : ℕ) (s : S)
    → (next : Cursor) × (s' : S) × (src.fetch_batch c n s
        ≡ (ok (record { rows = take n (left s c); next = next }), s'))
      × (left s' next ≡ drop n (left s c))

-- The engine takes documents behind those that it has, and the end of a session keeps them.
unfoldable pub Ingests :
    {V : Type 0} {G : Type 0} → Engine V G → (Text → G → List (IngestDoc V)) → Type 0
Ingests {V = W} {G = G} eng docs_of =
    ((t : Text) (ds : List (IngestDoc W)) (g : G)
      → (g' : G) × (eng.add_documents t ds g ≡ ok g') × (docs_of t g' ≡ docs_of t g ++ ds))
    × ((t : Text) (compact : Bool) (g : G)
        → (g' : G) × (eng.finish_bulk_ingest t compact g ≡ ok g') × (docs_of t g' ≡ docs_of t g))

-- A table that is dropped has no documents; one that is made ready keeps its own.
unfoldable pub Prepares :
    {V : Type 0} {G : Type 0} → Engine V G → (Text → G → List (IngestDoc V)) → Type 0
Prepares eng docs_of =
    ((t : Text) (g : _) → docs_of t (eng.drop_table t g) ≡ [])
    × ((t : Text) (g : _) → docs_of t (eng.ensure_table t g) ≡ docs_of t g)
    × ((t : Text) (g : _) → docs_of t (eng.begin_bulk_ingest t g) ≡ docs_of t g)

latest-append :
    (prev : Option Text) (xs ys : List (Option Text))
    → latest prev (xs ++ ys) ≡ latest (latest prev xs) ys
unfolding latest
latest-append prev [] ys = refl
latest-append prev (x ∷ xs) ys = latest-append (later_cursor prev x) xs ys

module _ {V : Type 0} {S : Type 0} {G : Type 0} {E : Type 0} (src : Source S) (eng : Engine V G)
    (parse_vector : Text → Option V) (is_cancelled : ℕ → Bool) (p : Pipeline E) where
  abbrev pub docs_in : List RawRow → List (IngestDoc V)
  docs_in rows = map (λ (x : RawRow). (row_to_doc parse_vector p.mapping x).0) rows

  abbrev pub cursors_in : List RawRow → List (Option Text)
  cursors_in rows = map (λ (x : RawRow). (row_to_doc parse_vector p.mapping x).1) rows

  -- The documents that a run starts with.
  abbrev pub docs_before : (Text → G → List (IngestDoc V)) → G → List (IngestDoc V)
  docs_before docs_of g =
      if is_full p.mode && p.drop_table_on_full then [] else docs_of p.target_table g

  pub prepare_lem :
      (docs_of : Text → G → List (IngestDoc V)) (g : G)
      → Prepares eng docs_of
      → docs_of p.target_table (prepare src eng parse_vector is_cancelled p g)
        ≡ docs_before docs_of g
  unfolding prepare Prepares
  prepare_lem docs_of g (drops, ensures, begins) =
      elim (Bool-cases (is_full p.mode && p.drop_table_on_full)) [
        | inl e ↦
            let g2 = eng.ensure_table p.target_table (eng.drop_table p.target_table g) in
            let empty =
              ensures p.target_table (eng.drop_table p.target_table g) ∙ drops p.target_table g in
            elim (Bool-cases (eng.bulk_ingest_active p.target_table g2)) [
              | inl k ↦ rw (e, k) empty
              | inr k ↦ rw (e, k) (begins p.target_table g2 ∙ empty)
            ]
        | inr e ↦
            let g2 = eng.ensure_table p.target_table g in
            let same = ensures p.target_table g in
            elim (Bool-cases (eng.bulk_ingest_active p.target_table g2)) [
              | inl k ↦ rw (e, k) same
              | inr k ↦ rw (e, k) (begins p.target_table g2 ∙ same)
            ]
      ]

  -- What is known when the rows that were left are done.
  pub record Ended (docs_of : Text → G → List (IngestDoc V)) (fill : IngestDoc V → IngestDoc V)
      (rows : List RawRow) (total : ℕ) (prev : Option Text) (g g' : G) (o : RunOutcome)
      : Type 0 where
    pub state : o.state ≡ done
    pub count : o.rows ≡ (total + length rows) % 2 ^ 64
    pub cursor : o.cursor_after ≡ latest prev (cursors_in rows)
    pub docs : docs_of p.target_table g' ≡ docs_of p.target_table g ++ map fill (docs_in rows)

  pub absorb_lem :
      (docs_of : Text → G → List (IngestDoc V)) (emb : Option (List Text → Result (List V)))
      (fill : IngestDoc V → IngestDoc V) (rows : List RawRow) (next : Cursor) (s : S)
      (r : Running S G)
      → Ingests eng docs_of
      → Embeds emb fill
      → (g' : G) × (absorb src eng parse_vector is_cancelled p emb rows next s r
          ≡ ok (record {
            source = s;
            engine = g';
            cursor = next;
            total = (r.total + length rows) % 2 ^ 64;
            max_cursor = latest r.max_cursor (cursors_in rows);
          }))
        × (docs_of p.target_table g' ≡ docs_of p.target_table r.engine ++ map fill (docs_in rows))
  unfolding absorb Ingests
  absorb_lem docs_of emb fill rows next s r (adds, ends) embeds =
      let (g', takes, docs) = adds p.target_table (map fill (docs_in rows)) r.engine in
      (g', rw (embedded_lem emb fill (docs_in rows) embeds, takes, absorb), docs)

  pub stopped_lem :
      (docs_of : Text → G → List (IngestDoc V)) (fill : IngestDoc V → IngestDoc V) (r : Running S G)
      → Ingests eng docs_of
      → (g' : G) × (stopped src eng parse_vector is_cancelled p done r
          ≡ (ok (record { rows = r.total; cursor_after = r.max_cursor; state = done }), g'))
        × (docs_of p.target_table g' ≡ docs_of p.target_table r.engine)
  unfolding stopped finish_session Ingests
  stopped_lem docs_of fill r (adds, ends) =
      elim (Bool-cases (eng.bulk_ingest_active p.target_table r.engine)) [
        | inr e ↦ (r.engine, rw (e, stopped, finish_session), refl)
        | inl e ↦
            let (g', finishes, docs) =
              ends p.target_table (is_full p.mode && ltb 0 r.total) r.engine in
            (g', rw (e, finishes, stopped, finish_session), docs)
      ]

  pub one_turn_empty :
      (emb : Option (List Text → Result (List V))) (n : ℕ) (r : Running S G) (next : Cursor) (s : S)
      → is_cancelled n ≡ false
      → src.fetch_batch r.cursor (batch_size src eng parse_vector is_cancelled p) r.source
        ≡ (ok (record { rows = []; next = next }), s)
      → one_turn src eng parse_vector is_cancelled p emb n r ≡ stop done r
  unfolding one_turn
  one_turn_empty emb n r next s c f = rw (c, f, one_turn)

  pub one_turn_rows :
      (emb : Option (List Text → Result (List V))) (n : ℕ) (r r' : Running S G) (next : Cursor)
      (s : S) (x : RawRow) (xs : List RawRow)
      → is_cancelled n ≡ false
      → src.fetch_batch r.cursor (batch_size src eng parse_vector is_cancelled p) r.source
        ≡ (ok (record { rows = x ∷ xs; next = next }), s)
      → absorb src eng parse_vector is_cancelled p emb (x ∷ xs) next s r ≡ ok r'
      → one_turn src eng parse_vector is_cancelled p emb n r ≡ (
          if ltb (length (x ∷ xs)) (batch_size src eng parse_vector is_cancelled p)
          then stop done r'
          else again r')
  unfolding one_turn
  one_turn_rows emb n r r' next s x xs c f a = rw (c, f, a, one_turn)

  -- Some rows, and then others.
  pub Ended-append :
      (docs_of : Text → G → List (IngestDoc V)) (fill : IngestDoc V → IngestDoc V)
      (xs ys : List RawRow) (total : ℕ) (prev : Option Text) (g g1 g' : G) (o : RunOutcome)
      → docs_of p.target_table g1 ≡ docs_of p.target_table g ++ map fill (docs_in xs)
      → Ended docs_of fill ys ((total + length xs) % 2 ^ 64) (latest prev (cursors_in xs)) g1 g' o
      → Ended docs_of fill (xs ++ ys) total prev g g' o
  Ended-append docs_of fill xs ys total prev g g1 g' o d e = record {
    state = e.state;
    count = omega (arith, e.count, length-append xs ys);
    cursor =
        e.cursor
        ∙ sym (latest-append prev (cursors_in xs) (cursors_in ys))
        ∙ ap (latest prev)
            (sym (map-append (λ (x : RawRow). (row_to_doc parse_vector p.mapping x).1) xs ys));
    docs =
        e.docs
        ∙ ap (λ (a : List (IngestDoc V)). a ++ map fill (docs_in ys)) d
        ∙ append_assoc (docs_of p.target_table g) (map fill (docs_in xs)) (map fill (docs_in ys))
        ∙ ap (λ (a : List (IngestDoc V)). docs_of p.target_table g ++ a)
            (sym (map-append fill (docs_in xs) (docs_in ys))
              ∙ ap (map fill) (
                  sym
                    (map-append (λ (x : RawRow). (row_to_doc parse_vector p.mapping x).0) xs ys)));
  }

  pub Ended-nothing :
      (docs_of : Text → G → List (IngestDoc V)) (fill : IngestDoc V → IngestDoc V) (total : ℕ)
      (prev : Option Text) (g g' : G)
      → total < 2 ^ 64
      → docs_of p.target_table g' ≡ docs_of p.target_table g
      → Ended docs_of fill [] total prev g g'
          (record { rows = total; cursor_after = prev; state = done })
  unfolding latest
  Ended-nothing docs_of fill total prev g g' small d = record {
    state = refl;
    count = omega arith;
    cursor = refl;
    docs = d ∙ sym (append-nil (docs_of p.target_table g));
  }

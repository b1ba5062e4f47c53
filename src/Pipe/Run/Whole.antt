-- ===== src/Pipe/Run/Whole.antt =====
-- A run from its first batch to its last.
use toradb.Prelude.{
  ℕ, zero, suc, ◌+◌, ◌%◌, ◌^◌, ◌<◌, ◌≡◌, refl, sym, ap, ◌∙◌, min, Bool, false, Bool-cases, Option,
  some, map, List, [], ◌∷◌, ◌++◌, ltb, ltb→lt, if◌then◌else◌, Text, length, take, drop,
  take-append-drop, length-take, length-drop, Result, ok, arith, inl, inr, ◌⊎◌,
}
use mathlib.Core.Path.{subst}
use toradb.Pipe.Model.{Pipeline}
use toradb.Pipe.Run.{
  RawRow, Cursor, IngestDoc, Source, Engine, RunOutcome, done, Running, stop, again, batch_size,
  one_turn, run_loop, latest,
}
use toradb.Pipe.Run.Embedding.{Embeds}
use toradb.Pipe.Run.Cursors.{IsLatest}
use toradb.Pipe.Run.Batches.{
  Serves, Ingests, docs_in, cursors_in, docs_before, Ended, absorb_lem, stopped_lem, one_turn_empty,
  one_turn_rows, Ended-append, Ended-nothing,
}

List-cases : {A : Type 0} (xs : List A) → (xs ≡ []) ⊎ ((y : A) × (ys : List A) × (xs ≡ y ∷ ys))
List-cases [] = inl refl
List-cases (y ∷ ys) = inr (y, ys, refl)

length_none : {A : Type 0} (xs : List A) → length xs ≡ 0 → xs ≡ []
length_none [] h = refl
length_none (x ∷ xs) h = absurd (omega arith)

module _ {V : Type 0} {S : Type 0} {G : Type 0} {E : Type 0} (src : Source S) (eng : Engine V G)
    (parse_vector : Text → Option V) (is_cancelled : ℕ → Bool) (p : Pipeline E) where
  -- How a run ends that starts with some rows left.
  abbrev Ends :
      (Text → G → List (IngestDoc V))
      → (IngestDoc V → IngestDoc V)
      → Option (List Text → Result (List V))
      → ℕ
      → ℕ
      → Running S G
      → List RawRow
      → Type 0
  Ends docs_of fill emb fuel n r rows =
      (o : RunOutcome) × (g' : G) × (run_loop src eng parse_vector is_cancelled p emb fuel n r
        ≡ some (ok o, g'))
      × Ended src eng parse_vector is_cancelled p docs_of fill rows r.total r.max_cursor r.engine g'
          o

  -- The last state of the loop.
  ends_here :
      (docs_of : Text → G → List (IngestDoc V)) (fill : IngestDoc V → IngestDoc V)
      (emb : Option (List Text → Result (List V))) (fuel n : ℕ) (r r' : Running S G)
      → Ingests eng docs_of
      → r'.total < 2 ^ 64
      → one_turn src eng parse_vector is_cancelled p emb n r ≡ stop done r'
      → (o : RunOutcome) × (g' : G) × (run_loop src eng parse_vector is_cancelled p emb
            (suc fuel)
            n
            r
          ≡ some (ok o, g'))
        × Ended src eng parse_vector is_cancelled p docs_of fill [] r'.total r'.max_cursor r'.engine
            g' o
  unfolding run_loop
  ends_here docs_of fill emb fuel n r r' ingests small t =
      let (g', stops, docs) =
        stopped_lem src eng parse_vector is_cancelled p docs_of fill r' ingests in
      (
        record { rows = r'.total; cursor_after = r'.max_cursor; state = done },
        g',
        rw (t, run_loop) (ap (λ (x : Result RunOutcome × G). some x) stops),
        Ended-nothing src eng parse_vector is_cancelled p docs_of fill r'.total r'.max_cursor
            r'.engine g' small docs,
      )

  pub run_loop_lem :
      (left : S → Cursor → List RawRow) (docs_of : Text → G → List (IngestDoc V))
      (fill : IngestDoc V → IngestDoc V) (emb : Option (List Text → Result (List V)))
      → Serves src left
      → Ingests eng docs_of
      → Embeds emb fill
      → ((n : ℕ) → is_cancelled n ≡ false)
      → (fuel n : ℕ) (r : Running S G) → length (left r.source r.cursor) < fuel
      → r.total < 2 ^ 64
      → (o : RunOutcome) × (g' : G) × (run_loop src eng parse_vector is_cancelled p emb fuel n r
          ≡ some (ok o, g'))
        × Ended src eng parse_vector is_cancelled p docs_of fill
            (left r.source r.cursor)
            r.total
            r.max_cursor
            r.engine
            g'
            o
  unfolding run_loop Serves
  run_loop_lem left docs_of fill emb serves ingests embeds running zero n r h small =
      absurd (omega arith)
  run_loop_lem left docs_of fill emb serves ingests embeds running (suc fuel) n r h small =
      let size = batch_size src eng parse_vector is_cancelled p in
      let rows = left r.source r.cursor in
      let (next, s', fetches, rest) = serves r.cursor size r.source in
      elim (List-cases (take size rows)) [
        | inl e ↦
            let none_left : rows ≡ [] =
              length_none rows
                (omega (arith, ap (λ (x : List RawRow). length x) e, length-take size rows)) in
            subst (λ (x : List RawRow). Ends docs_of fill emb (suc fuel) n r x) (sym none_left)
              (ends_here docs_of fill emb fuel n r r ingests small (
                one_turn_empty src eng parse_vector is_cancelled p emb n r next s' (running n) (
                  fetches
                  ∙ ap (λ (x : List RawRow). (ok (record { rows = x; next = next }), s')) e)))
        | inr (y, ys, e) ↦
            let (g1, takes, docs) =
              absorb_lem src eng parse_vector is_cancelled p docs_of emb fill (y ∷ ys) next s' r
                ingests embeds in
            let r1 : Running S G = record {
              source = s';
              engine = g1;
              cursor = next;
              total = (r.total + length (y ∷ ys)) % 2 ^ 64;
              max_cursor =
                  latest r.max_cursor (cursors_in src eng parse_vector is_cancelled p (y ∷ ys));
            } in
            let turn =
              one_turn_rows src eng parse_vector is_cancelled p emb n r r1 next s' y ys (running n)
                (fetches ∙ ap (λ (x : List RawRow). (ok (record { rows = x; next = next }), s')) e)
                takes in
            let all : (y ∷ ys) ++ drop size rows ≡ rows =
              ap (λ (x : List RawRow). x ++ drop size rows) (sym e) ∙ take-append-drop size rows in
            let sizes : length (y ∷ ys) ≡ min size (length rows) =
              ap (λ (x : List RawRow). length x) (sym e) ∙ length-take size rows in
            let joined =
              (λ (o : RunOutcome) (g' : G)
                  (k : Ended src eng parse_vector is_cancelled p docs_of fill (drop size rows)
                    r1.total r1.max_cursor g1 g' o).
                subst
                  (λ (x : List RawRow).
                    Ended src eng parse_vector is_cancelled p docs_of fill x r.total r.max_cursor
                      r.engine g' o)
                  all
                  (Ended-append src eng parse_vector is_cancelled p docs_of fill (y ∷ ys)
                    (drop size rows) r.total r.max_cursor r.engine g1 g' o docs k)) in
            elim (Bool-cases (ltb (length (y ∷ ys)) size)) [
              | inl short ↦
                  let below = ltb→lt (length (y ∷ ys)) size short in
                  let nothing : drop size rows ≡ [] =
                    length_none (drop size rows)
                      (omega (arith, below, sizes, length-drop size rows)) in
                  let (o, g', runs, k) =
                    ends_here docs_of fill emb fuel n r r1 ingests (omega arith)
                      (turn ∙ ap (λ (b : Bool). if b then stop done r1 else again r1) short) in
                  (
                    o,
                    g',
                    runs,
                    joined o g' (
                        subst
                          (λ (x : List RawRow).
                            Ended src eng parse_vector is_cancelled p docs_of fill x r1.total
                              r1.max_cursor g1 g' o)
                          (sym nothing) k),
                  )
              | inr full ↦
                  let fewer : length (left s' next) < fuel = omega (
                    arith,
                    h,
                    sizes,
                    ap (λ (x : List RawRow). length x) rest,
                    length-drop size rows,
                  ) in
                  let (o, g', runs, k) =
                    run_loop_lem left docs_of fill emb serves ingests embeds running fuel (suc n) r1
                      fewer (omega arith) in
                  let goes : one_turn src eng parse_vector is_cancelled p emb n r ≡ again r1 =
                    turn ∙ ap (λ (b : Bool). if b then stop done r1 else again r1) full in
                  (
                    o,
                    g',
                    rw (goes, run_loop) runs,
                    joined o g' (
                        subst
                          (λ (x : List RawRow).
                            Ended src eng parse_vector is_cancelled p docs_of fill x r1.total
                              r1.max_cursor g1 g' o)
                          rest k),
                  )
            ]
      ]

  -- What a run comes to that started on these rows.
  pub record Completed (docs_of : Text → G → List (IngestDoc V)) (fill : IngestDoc V → IngestDoc V)
      (rows : List RawRow) (g g' : G) (o : RunOutcome) : Type 0 where
    pub state : o.state ≡ done
    pub count : o.rows ≡ length rows % 2 ^ 64
    pub cursor :
        IsLatest o.cursor_after
          (p.last_cursor ∷ cursors_in src eng parse_vector is_cancelled p rows)
    pub docs :
        docs_of p.target_table g'
        ≡ docs_before src eng parse_vector is_cancelled p docs_of g
          ++ map fill (docs_in src eng parse_vector is_cancelled p rows)

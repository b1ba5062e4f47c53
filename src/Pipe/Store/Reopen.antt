-- ===== src/Pipe/Store/Reopen.antt =====
-- Saving a store and opening it again.
use toradb.Prelude.{
  ℕ, ◌+◌, ◌-◌, ◌%◌, ◌^◌, ◌≤◌, ◌<◌, ◌≡◌, refl, sym, ap, ◌∙◌, List, [], ◌∷◌, arith, Text, Result, ok,
  err, ◌>>=◌, map, max_or, nat_eq,
}
use toradb.Collections.Keys.{count}
use toradb.Pipe.Model.{Connection, Pipeline, PipelineRun}
use toradb.Pipe.Store.{
  PipeStore, Files, map_urls, open_store, save_connections, save_pipelines, save_runs,
}
use toradb.Pipe.Store.Runs.{ids}
use toradb.Pipe.Store.Ids.{IsNumbered, IsValid}

-- What is relied on: the secret box decrypts what it encrypted, a file reads back as it was
-- written, and a write leaves the other files alone.
pub record LawfulFiles {E D : Type 0} (files : Files E D) : Type 0 where
  pub decrypt-encrypt : (u v : Text) → files.encrypt u ≡ ok v → files.decrypt v ≡ ok u
  pub connections-connections :
      (cs : List Connection) (d d' : D)
      → files.write_connections cs d ≡ ok d'
      → files.read_connections d' ≡ ok cs
  pub connections-pipelines :
      (ps : List (Pipeline E)) (d d' : D)
      → files.write_pipelines ps d ≡ ok d'
      → files.read_connections d' ≡ files.read_connections d
  pub connections-runs :
      (rs : List PipelineRun) (d d' : D)
      → files.write_runs rs d ≡ ok d'
      → files.read_connections d' ≡ files.read_connections d
  pub pipelines-pipelines :
      (ps : List (Pipeline E)) (d d' : D)
      → files.write_pipelines ps d ≡ ok d'
      → files.read_pipelines d' ≡ ok ps
  pub pipelines-runs :
      (rs : List PipelineRun) (d d' : D)
      → files.write_runs rs d ≡ ok d'
      → files.read_pipelines d' ≡ files.read_pipelines d
  pub runs-runs :
      (rs : List PipelineRun) (d d' : D)
      → files.write_runs rs d ≡ ok d'
      → files.read_runs d' ≡ ok rs

ok-injective : {A : Type 0} (a b : A) → ok a ≡ ok b → a ≡ b
ok-injective a b e = ap (λ (r : Result _). elim r [ ok x ↦ x | err _ ↦ a ]) e

err-ne-ok : {A : Type 0} (m : Text) (a : A) → (err m ≡ ok a) → ⊥
err-ne-ok m a e = ground arith

-- A chain that gives a value went through its first part.
bind_ok :
    {A B : Type 0} (r : Result A) (f : A → Result B) (b : B)
    → (r >>= f) ≡ ok b
    → (a : A) × (r ≡ ok a) × (f a ≡ ok b)
bind_ok (ok a) f b h = (a, refl, h)
bind_ok (err m) f b h = absurd (err-ne-ok m b h)

module _ {E D : Type 0} (files : Files E D) (laws : LawfulFiles files) where
  map_urls_back :
      (cs es : List Connection)
      → map_urls files.encrypt cs ≡ ok es
      → map_urls files.decrypt es ≡ ok cs
  unfolding map_urls
  map_urls_back [] es h = rw (sym (ok-injective _ _ h)) refl
  map_urls_back (c ∷ cs) es h =
      let (v, ev, h1) =
        bind_ok (files.encrypt c.url)
          (λ url. map_urls files.encrypt cs >>= λ rest. ok (record c { url = url } ∷ rest)) es h in
      let (vs, evs, h2) =
        bind_ok (map_urls files.encrypt cs) (λ rest. ok (record c { url = v } ∷ rest)) es h1 in
      rw
        (
          sym (ok-injective _ _ h2),
          map_urls,
          laws.decrypt-encrypt c.url v ev,
          map_urls_back cs vs evs,
        )
        refl

  max_or_bound :
      (i : ℕ) (rs : List PipelineRun)
      → 0 < count i (ids rs)
      → i ≤ max_or 0 (map (λ (r : PipelineRun). r.id) rs)
  unfolding max_or count
  max_or_bound i [] h = absurd (omega arith)
  max_or_bound i (r ∷ []) h = ground arith
  max_or_bound i (r ∷ q ∷ rs) h = ground (arith, max_or_bound i (q ∷ rs))

  -- A bound of all ids is one of the largest.
  max_or_small :
      (b : ℕ) (rs : List PipelineRun)
      → 0 < b
      → ((i : ℕ) → 0 < count i (ids rs) → i < b)
      → max_or 0 (map (λ (r : PipelineRun). r.id) rs) < b
  unfolding max_or count
  max_or_small b [] pos h = pos
  max_or_small b (r ∷ []) pos h = h r.id (ground arith)
  max_or_small b (r ∷ q ∷ rs) pos h =
      let rest = max_or_small b (q ∷ rs) pos (λ i k. h i (ground arith)) in
      let head = h r.id (ground arith) in ground arith

  -- The three files of a store are written one after the other and the store is opened again:
  -- the connections, the pipelines and the runs are as they were, and if the run ids were
  -- distinct and below 2 ^ 64 - 1, then they are so still and the next id is above them all.
  pub open_store-save :
      (s : PipeStore E) (d d1 d2 d3 : D)
      → save_connections files s d ≡ ok d1
      → save_pipelines files s d1 ≡ ok d2
      → save_runs files s d2 ≡ ok d3
      → (t : PipeStore E) × (open_store files d3 ≡ ok t)
        × (t.connections ≡ s.connections)
        × (t.pipelines ≡ s.pipelines)
        × (t.runs ≡ s.runs)
        × (IsNumbered (2 ^ 64 - 1) s.runs → IsValid t)
  unfolding open_store save_connections save_pipelines save_runs
  open_store-save s d d1 d2 d3 h1 h2 h3 =
      let (es, enc, w) =
        bind_ok (map_urls files.encrypt s.connections)
          (λ on_disk. files.write_connections on_disk d) d1 h1 in
      let connections : files.read_connections d3 ≡ ok es =
        laws.connections-runs s.runs d2 d3 h3
        ∙ laws.connections-pipelines s.pipelines d1 d2 h2
        ∙ laws.connections-connections es d d1 w in
      let pipelines : files.read_pipelines d3 ≡ ok s.pipelines =
        laws.pipelines-runs s.runs d2 d3 h3 ∙ laws.pipelines-pipelines s.pipelines d1 d2 h2 in
      let top = max_or 0 (map (λ (r : PipelineRun). r.id) s.runs) in
      (
        record {
          connections = s.connections;
          pipelines = s.pipelines;
          runs = s.runs;
          next_run_id = (top + 1) % 2 ^ 64;
          next_seq = 0;
        },
        rw
            (
              connections,
              map_urls_back s.connections es enc,
              pipelines,
              laws.runs-runs s.runs d2 d3 h3,
            )
            refl,
        refl,
        refl,
        refl,
        λ numbered i. (
          (numbered i).0,
          λ k. omega (
            arith,
            max_or_bound i s.runs k,
            max_or_small (2 ^ 64 - 1) s.runs (omega arith) (λ j. (numbered j).1),
          ),
        ),
      )

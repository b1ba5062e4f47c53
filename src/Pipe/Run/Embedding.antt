-- ===== src/Pipe/Run/Embedding.antt =====
-- What an embedder makes of documents.
use toradb.Prelude.{
  ◌≡◌, refl, sym, ap, ◌∙◌, Bool, true, false, Bool-cases, Option, none, some, List, [], ◌∷◌, ◌++◌,
  map, if◌then◌else◌, Text, retain, Result, ok, inl, inr,
}
use toradb.Pipe.Run.{IngestDoc, wants_vector, body_of, fill_vectors, embedded, filled_with}

-- A document gets the vector of its text when it has text and no vector.
abbrev pub fill_one : {V : Type 0} → (Text → V) → IngestDoc V → IngestDoc V
fill_one vec d = if wants_vector d then record d { vector = some (vec d.body) } else d

-- What an embedder makes of a document: nothing without one, else the vector of its text.
unfoldable pub Embeds :
    {V : Type 0} → Option (List Text → Result (List V)) → (IngestDoc V → IngestDoc V) → Type 0
Embeds {V = W} none fill = (d : IngestDoc W) → fill d ≡ d
Embeds {V = W} (some embed) fill =
    (vec : Text → W) × ((ts : List Text) → embed ts ≡ ok (map vec ts))
    × ((d : IngestDoc W) → fill d ≡ fill_one vec d)

map-same : {A B : Type 0} (f g : A → B) (xs : List A) → ((x : A) → f x ≡ g x) → map f xs ≡ map g xs
map-same f g [] h = refl
map-same f g (x ∷ xs) h = rw (h x, map-same f g xs h)

map_id : {A : Type 0} (f : A → A) (xs : List A) → ((x : A) → f x ≡ x) → map f xs ≡ xs
map_id f [] h = refl
map_id f (x ∷ xs) h = rw (h x, map_id f xs h)

pub map-append :
    {A B : Type 0} (f : A → B) (xs ys : List A) → map f (xs ++ ys) ≡ map f xs ++ map f ys
map-append f [] ys = refl
map-append f (x ∷ xs) ys = rw (map-append f xs ys)

module _ {V : Type 0} where
  fill_nil : (ds : List (IngestDoc V)) → fill_vectors ds [] ≡ ds
  unfolding fill_vectors
  fill_nil [] = refl
  fill_nil (d ∷ ds) = refl

  fill_skip :
      (d : IngestDoc V) (ds : List (IngestDoc V)) (vs : List V)
      → wants_vector d ≡ false
      → fill_vectors (d ∷ ds) vs ≡ d ∷ fill_vectors ds vs
  unfolding fill_vectors
  fill_skip d ds [] h = rw (fill_nil ds)
  fill_skip d ds (v ∷ vs) h = rw (h, fill_vectors)

  fill_first :
      (d : IngestDoc V) (ds : List (IngestDoc V)) (v : V) (vs : List V)
      → wants_vector d ≡ true
      → fill_vectors (d ∷ ds) (v ∷ vs) ≡ record d { vector = some v } ∷ fill_vectors ds vs
  unfolding fill_vectors
  fill_first d ds v vs h = rw (h, fill_vectors)

  texts_of : List (IngestDoc V) → List Text
  texts_of ds = map body_of (retain wants_vector ds)

  texts_first :
      (d : IngestDoc V) (ds : List (IngestDoc V))
      → wants_vector d ≡ true
      → texts_of (d ∷ ds) ≡ d.body ∷ texts_of ds
  unfolding texts_of retain
  texts_first d ds h =
      ap
        (λ (b : Bool).
          map body_of (if b then d ∷ retain wants_vector ds else retain wants_vector ds))
        h

  texts_skip :
      (d : IngestDoc V) (ds : List (IngestDoc V))
      → wants_vector d ≡ false
      → texts_of (d ∷ ds) ≡ texts_of ds
  unfolding texts_of retain
  texts_skip d ds h =
      ap
        (λ (b : Bool).
          map body_of (if b then d ∷ retain wants_vector ds else retain wants_vector ds))
        h

  fill_vectors-map :
      (vec : Text → V) (ds : List (IngestDoc V))
      → fill_vectors ds (map vec (texts_of ds)) ≡ map (fill_one vec) ds
  unfolding retain texts_of
  fill_vectors-map vec [] = fill_nil []
  fill_vectors-map vec (d ∷ ds) = elim (Bool-cases (wants_vector d)) [
    | inl e ↦
        let one : fill_one vec d ≡ record d { vector = some (vec d.body) } =
          ap (λ (b : Bool). if b then record d { vector = some (vec d.body) } else d) e in
        ap (λ (ts : List Text). fill_vectors (d ∷ ds) (map vec ts)) (texts_first d ds e)
        ∙ fill_first d ds (vec d.body) (map vec (texts_of ds)) e
        ∙ ap (λ (x : IngestDoc V). x ∷ fill_vectors ds (map vec (texts_of ds))) (sym one)
        ∙ ap (λ (xs : List (IngestDoc V)). fill_one vec d ∷ xs) (fill_vectors-map vec ds)
    | inr e ↦
        let one : fill_one vec d ≡ d =
          ap (λ (b : Bool). if b then record d { vector = some (vec d.body) } else d) e in
        ap (λ (ts : List Text). fill_vectors (d ∷ ds) (map vec ts)) (texts_skip d ds e)
        ∙ fill_skip d ds (map vec (texts_of ds)) e
        ∙ ap (λ (x : IngestDoc V). x ∷ fill_vectors ds (map vec (texts_of ds))) (sym one)
        ∙ ap (λ (xs : List (IngestDoc V)). fill_one vec d ∷ xs) (fill_vectors-map vec ds)
  ]

  texts_embedded :
      (embed : List Text → Result (List V)) (vec : Text → V) (ds out : List (IngestDoc V))
      (texts : List Text)
      → ((ts : List Text) → embed ts ≡ ok (map vec ts))
      → fill_vectors ds (map vec texts) ≡ out
      → (elim texts as (λ _. Result (List (IngestDoc V))) [
        | [] ↦ ok ds
        | t ∷ ts ↦ filled_with ds (embed (t ∷ ts))
      ])
        ≡ ok out
  texts_embedded embed vec ds out [] law h =
      ap (λ (x : List (IngestDoc V)). ok x) (sym (fill_nil ds) ∙ h)
  texts_embedded embed vec ds out (t ∷ ts) law h =
      ap (filled_with ds) (law (t ∷ ts)) ∙ ap (λ (x : List (IngestDoc V)). ok x) h

  pub embedded_lem :
      (emb : Option (List Text → Result (List V))) (fill : IngestDoc V → IngestDoc V)
      (ds : List (IngestDoc V))
      → Embeds emb fill
      → embedded emb ds ≡ ok (map fill ds)
  unfolding embedded Embeds texts_of
  embedded_lem none fill ds h = ap (λ (x : List (IngestDoc V)). ok x) (sym (map_id fill ds h))
  embedded_lem (some embed) fill ds (vec, law, is) =
      texts_embedded embed vec ds (map fill ds) (texts_of ds) law
        (fill_vectors-map vec ds ∙ sym (map-same fill (fill_one vec) ds is))

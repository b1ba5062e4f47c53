-- ===== src/Index/Tbm3/Segment/Lookups.antt =====
-- The postings and the document frequencies of a segment that was read, term by term.
use toradb.Prelude.{
  ◌≡◌, refl, ◌∙◌, Bool, true, Bool-cases, inl, inr, List, [], ◌∷◌, arith, Text, text_beq_iff,
  text_eq, Option, none, some, Option-cases, length, ◌%◌, ◌^◌, ◌=?◌, if◌then◌else◌, sort,
  put_in_order,
}
use toradb.Collections.Dict.{
  Dict, lookup, insert, keys, contains_key, lookup-insert, contains_key-lookup,
}
use toradb.Collections.Keys.{contains}
use toradb.Index.Tbm3.Postings.{Float, in_order}
use toradb.Index.Tbm3.Segment.{Snapshot, or_else, posts_of, df_of, with_term}
use toradb.Index.Tbm3.Segment.Loading.{with_terms}

module _ (t : Text) where
  contains-put_in_order :
      (after : Text → Text → Bool) (x : Text) (xs : List Text)
      → contains t (put_in_order after x xs) ≡ (if x =? t then true else contains t xs)
  unfolding contains put_in_order
  contains-put_in_order after x [] = ground arith
  contains-put_in_order after x (y ∷ ys) = ground (arith, contains-put_in_order after x ys)

  pub contains-sort :
      (after : Text → Text → Bool) (xs : List Text) → contains t (sort after xs) ≡ contains t xs
  unfolding contains sort
  contains-sort after [] = refl
  contains-sort after (x ∷ xs) =
      ground (arith, contains-put_in_order after x (sort after xs), contains-sort after xs)

  pub contains-keys : {V : Type 0} (m : Dict Text V) → contains t (keys m) ≡ contains_key t m
  unfolding contains keys contains_key
  contains-keys [] = refl
  contains-keys ((k, v) ∷ m) = ground (arith, contains-keys m)

  -- A value that depends on the key only may be inserted early.
  later_lookup :
      {V : Type 0} (f : Text → V) (u : Text) (ts : List Text) (m : Dict Text V) (found : Option V)
      → found ≡ (if contains t ts then some (f t) else lookup t (insert u (f u) m))
      → found ≡ (if contains t (u ∷ ts) then some (f t) else lookup t m)
  unfolding contains
  later_lookup f u ts m found h = elim (Bool-cases (u =? t)) [
    | inl e ↦
        let same : u ≡ t = (text_beq_iff u t).0 e in
        let k : found ≡ (if contains t ts then some (f t) else some (f u)) =
          h ∙ rw (lookup-insert u t (f u) m, e) refl in
        let v : found ≡ some (f t) =
          k
          ∙ rw same (elim (Bool-cases (contains t ts)) [ inl c ↦ rw c refl | inr c ↦ rw c refl ]) in
        rw e v
    | inr e ↦ rw e (h ∙ rw (lookup-insert u t (f u) m, e) refl)
  ]

  module _ {F : Type 0} (fl : Float F) (snap : Snapshot F) where
    pub postings-with_terms :
        (ts : List Text) (s : Snapshot F)
        → lookup t (with_terms fl snap ts s).postings
          ≡ (if contains t ts then some (in_order (posts_of fl snap t)) else lookup t s.postings)
    unfolding contains with_terms
    postings-with_terms [] s = refl
    postings-with_terms (u ∷ ts) s =
        later_lookup (λ (w : Text). in_order (posts_of fl snap w)) u ts s.postings _
          (postings-with_terms ts
            (with_term fl s u (df_of fl snap u) (in_order (posts_of fl snap u))))

    pub doc_freq-with_terms :
        (ts : List Text) (s : Snapshot F)
        → lookup t (with_terms fl snap ts s).doc_freq
          ≡ (if contains t ts then some (df_of fl snap t) else lookup t s.doc_freq)
    unfolding contains with_terms
    doc_freq-with_terms [] s = refl
    doc_freq-with_terms (u ∷ ts) s = later_lookup (df_of fl snap) u ts s.doc_freq _ (
        doc_freq-with_terms ts (with_term fl s u (df_of fl snap u) (in_order (posts_of fl snap u))))

    -- What the map says of a term, as a test and as a case.
    pub posts_of-lookup :
        (b : Bool)
        → b ≡ contains_key t snap.postings
        → (if b then some (in_order (posts_of fl snap t)) else none)
          ≡ elim (lookup t snap.postings) [ none ↦ none | some ps ↦ some (in_order ps) ]
    unfolding posts_of
    posts_of-lookup b h = elim (Option-cases (lookup t snap.postings)) [
      | inl e ↦ rw (h, contains_key-lookup t snap.postings, e) refl
      | inr (ps, e) ↦ rw (h, contains_key-lookup t snap.postings, e) refl
    ]

    pub df_of-lookup :
        (b : Bool)
        → b ≡ contains_key t snap.postings
        → (if b then some (df_of fl snap t) else none) ≡ elim (lookup t snap.postings) [
          | none ↦ none
          | some ps ↦ some (or_else (lookup t snap.doc_freq) (length ps % 2 ^ 32))
        ]
    unfolding df_of posts_of
    df_of-lookup b h = elim (Option-cases (lookup t snap.postings)) [
      | inl e ↦ rw (h, contains_key-lookup t snap.postings, e) refl
      | inr (ps, e) ↦ rw (h, contains_key-lookup t snap.postings, e) refl
    ]

    pub avg_dl-with_terms :
        (ts : List Text) (s : Snapshot F) → (with_terms fl snap ts s).avg_dl ≡ s.avg_dl
    unfolding with_terms
    avg_dl-with_terms [] s = refl
    avg_dl-with_terms (u ∷ ts) s =
        avg_dl-with_terms ts (with_term fl s u (df_of fl snap u) (in_order (posts_of fl snap u)))

    pub num_docs-with_terms :
        (ts : List Text) (s : Snapshot F) → (with_terms fl snap ts s).num_docs ≡ s.num_docs
    unfolding with_terms
    num_docs-with_terms [] s = refl
    num_docs-with_terms (u ∷ ts) s =
        num_docs-with_terms ts (with_term fl s u (df_of fl snap u) (in_order (posts_of fl snap u)))

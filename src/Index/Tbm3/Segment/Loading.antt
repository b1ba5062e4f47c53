-- ===== src/Index/Tbm3/Segment/Loading.antt =====
-- The terms of a segment, found through the dictionary and loaded one after the other.
use toradb.Prelude.{
  ℕ, suc, ◌+◌, ◌^◌, ◌<◌, ◌≡◌, refl, sym, ap, ◌∙◌, List, [], ◌∷◌, ◌++◌, append_assoc, arith, length,
  length-append, Text, ok, get_elem?, some,
}
use toradb.Index.Bytes.{Bytes, slice}
use toradb.Index.Tbm3.Postings.{Float, Posting, in_order, TermPostings}
use toradb.Index.Tbm3.Postings.Gaps.{FitsFrom}
use toradb.Index.Tbm3.Postings.Blocks.{KeepsBytes}
use toradb.Index.Tbm3.Postings.RoundTrip.{parse_postings-posting_blob}
use toradb.Index.Tbm3.Segment.{
  Snapshot, posts_of, df_of, blob_of, all_blobs, dict_from, dict_entry, DictEntry, Bm25Tbm3Meta,
  term_at, load_term, with_term, read_terms,
}
use toradb.Index.Tbm3.Segment.Dictionary.{
  EntriesFit, entries_from, dict_from-bytes, read_term, length-dict_entry,
}

get_elem?-append :
    {A : Type 0} (xs ys : List A) (y : A) → get_elem? (xs ++ y ∷ ys) (length xs) ≡ some y
get_elem?-append [] ys y = refl
get_elem?-append (x ∷ xs) ys y = get_elem?-append xs ys y

module _ {F : Type 0} (fl : Float F) (snap : Snapshot F) where
  -- The postings of every term can be written.
  abbrev pub PostingsFit : List Text → Type 0
  PostingsFit [] = Unit {0}
  PostingsFit (t ∷ ts) =
      (FitsFrom 0 (in_order (posts_of fl snap t))
        × (length (in_order (posts_of fl snap t)) < 2 ^ 32))
      × PostingsFit ts

  -- The snapshot with the terms as they are read.
  unfoldable pub with_terms : List Text → Snapshot F → Snapshot F
  with_terms [] s = s
  with_terms (t ∷ ts) s =
      with_terms ts (with_term fl s t (df_of fl snap t) (in_order (posts_of fl snap t)))

  next_term :
      (n i : ℕ) (s : Snapshot F) (bytes : Bytes) (meta : Bm25Tbm3Meta F) (t : Text) (e : DictEntry)
      (p : TermPostings F)
      → term_at fl bytes meta i ≡ ok (t, e)
      → load_term fl bytes meta e.df e.post_off ≡ ok p
      → read_terms fl bytes meta (suc n) i s
        ≡ read_terms fl bytes meta n (suc i) (with_term fl s t e.df p.docs)
  unfolding read_terms
  next_term n i s bytes meta t e p found loaded = rw (read_terms, found, loaded) refl

module _ {F : Type 0} (fl : Float F) (keeps : KeepsBytes fl) (snap : Snapshot F) (bytes : Bytes)
    (meta : Bm25Tbm3Meta F) where
  -- The dictionary from `pos` on, and the blobs from `at` bytes on, as they stand in the file.
  abbrev pub Stands : ℕ → ℕ → ℕ → List Text → Type 0
  Stands i pos at ts =
      ((es : List DictEntry) × (length es ≡ i) × (meta.dict ≡ es ++ entries_from fl snap pos at ts))
      × ((pre : Bytes) × (tail : Bytes) × (length pre ≡ pos)
          × (bytes ≡ pre ++ (dict_from fl snap at ts ++ tail)))
      × ((pre : Bytes) × (tail : Bytes) × (length pre ≡ meta.postings_start + at)
          × (bytes ≡ pre ++ (all_blobs fl snap ts ++ tail)))

  Stands-next :
      (i pos at : ℕ) (t : Text) (ts : List Text)
      → EntriesFit fl snap at (t ∷ ts)
      → Stands i pos at (t ∷ ts)
      → Stands (suc i) (pos + 2 + length t + 12) (at + length (blob_of fl snap t)) ts
  unfolding entries_from all_blobs
  Stands-next i pos at t ts fit ((es, hi, he), (dpre, dtail, hd, ed), (bpre, btail, hb, eb)) =
      let ((ht, hdf, hp), later) = fit in
      let blob = blob_of fl snap t in
      let entry = dict_entry t (df_of fl snap t) at (length blob) in
      (
        (
          es
              ++ (record {
                term_off = pos + 2;
                term_len = length t;
                df = df_of fl snap t;
                post_off = at;
                post_len = length blob;
              }
                  ∷ []),
          length-append es _ ∙ omega (arith, hi),
          he ∙ sym (append_assoc es _ _),
        ),
        (
          dpre ++ entry,
          dtail,
          length-append dpre entry
              ∙ omega (arith, hd, length-dict_entry t (df_of fl snap t) at (length blob) ht),
          ed ∙ (dict_from-bytes fl snap dpre at t ts dtail fit).1,
        ),
        (
          bpre ++ blob,
          btail,
          length-append bpre blob ∙ omega (arith, hb),
          eb
              ∙ ap (λ (bs : Bytes). bpre ++ bs) (append_assoc blob (all_blobs fl snap ts) btail)
              ∙ sym (append_assoc bpre blob (all_blobs fl snap ts ++ btail)),
        ),
      )

  term_at-Stands :
      (i pos at : ℕ) (t : Text) (ts : List Text)
      → EntriesFit fl snap at (t ∷ ts)
      → Stands i pos at (t ∷ ts)
      → term_at fl bytes meta i
        ≡ ok (
          t,
          record {
            term_off = pos + 2;
            term_len = length t;
            df = df_of fl snap t;
            post_off = at;
            post_len = length (blob_of fl snap t);
          },
        )
  unfolding term_at entries_from
  term_at-Stands i pos at t ts fit ((es, hi, he), (dpre, dtail, hd, ed), later) =
      let plen = length (blob_of fl snap t) in
      let e : DictEntry = record {
        term_off = pos + 2;
        term_len = length t;
        df = df_of fl snap t;
        post_off = at;
        post_len = plen;
      } in
      let there : get_elem? meta.dict i ≡ some e = rw (he, ← hi) (get_elem?-append es _ e) in
      let term : slice (pos + 2) (length t) bytes ≡ t =
        rw (ed, ← hd, (dict_from-bytes fl snap dpre at t ts dtail fit).0)
          (read_term dpre t (dict_from fl snap (at + plen) ts ++ dtail) (df_of fl snap t) at
            plen) in
      rw (term_at, there, term) refl

  load_term-Stands :
      (i pos at : ℕ) (t : Text) (ts : List Text)
      → PostingsFit fl snap (t ∷ ts)
      → Stands i pos at (t ∷ ts)
      → (p : TermPostings F) × (load_term fl bytes meta (df_of fl snap t) at ≡ ok p)
        × (p.docs ≡ in_order (posts_of fl snap t))
  unfolding load_term all_blobs blob_of
  load_term-Stands i pos at t ts ((fits, few), rest) (dict, spans, (bpre, btail, hb, eb)) =
      let blob = blob_of fl snap t in
      let whole : bytes ≡ bpre ++ (blob ++ (all_blobs fl snap ts ++ btail)) =
        eb ∙ ap (λ (bs : Bytes). bpre ++ bs) (append_assoc blob (all_blobs fl snap ts) btail) in
      let (p, read, docs, ends, maxima) =
        parse_postings-posting_blob fl keeps snap.avg_dl (posts_of fl snap t) bpre
          (all_blobs fl snap ts ++ btail) meta.num_docs (df_of fl snap t) fits few in
      (p, rw (← hb, whole) read, docs)

  pub read_terms-with_terms :
      (ts : List Text) (i pos at : ℕ) (s : Snapshot F)
      → EntriesFit fl snap at ts
      → PostingsFit fl snap ts
      → Stands i pos at ts
      → read_terms fl bytes meta (length ts) i s ≡ ok (with_terms fl snap ts s)
  unfolding with_terms
  read_terms-with_terms [] i pos at s entries postings stands = unfold read_terms in refl
  read_terms-with_terms (t ∷ ts) i pos at s entries postings stands =
      let (p, loaded, docs) = load_term-Stands i pos at t ts postings stands in
      let later =
        read_terms-with_terms ts (suc i) (pos + 2 + length t + 12) (at + length (blob_of fl snap t))
          (with_term fl s t (df_of fl snap t) (in_order (posts_of fl snap t))) (entries.1)
          (postings.1) (Stands-next i pos at t ts entries stands) in
      next_term fl snap (length ts) i s bytes meta t _ p
        (term_at-Stands i pos at t ts entries stands) loaded
      ∙ ap
          (λ (d : List Posting).
            read_terms fl bytes meta (length ts) (suc i) (with_term fl s t (df_of fl snap t) d))
          docs
      ∙ later

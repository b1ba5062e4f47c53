-- ===== src/Index/Vectors/RoundTrip.antt =====
-- The map of a snapshot, compared with the pairs it was made of.
use native.Mathlib.Nat.{suc-mul, zero-mul}
use toradb.Prelude.{
  ℕ, suc, ◌+◌, ◌*◌, ◌≤◌, ◌≡◌, refl, sym, true, false, some, List, [], ◌∷◌, ◌++◌, append_assoc,
  arith, leb, ◌==◌, length, length-append, ok, nat_eq, Option, none, Option-cases, inl, inr, ◌∙◌,
  if◌then◌else◌,
}
use toradb.Collections.Dict.{Dict, lookup, insert, lookup-insert}
use toradb.Index.Bytes.{slice, slice-append}
use toradb.Index.Vectors.{VectorSnapshot, flatten, from_pairs, pairs_from, collect, to_map}

module _ {F : Type 0} where
  -- Every vector has the dimension.
  abbrev pub IsUniform : ℕ → List (ℕ × List F) → Type 0
  IsUniform dim [] = record {}
  IsUniform dim ((id, vec) ∷ ps) = (length vec ≡ dim) × IsUniform dim ps

  abbrev pub ids_of : List (ℕ × List F) → List ℕ
  ids_of [] = []
  ids_of ((id, vec) ∷ ps) = id ∷ ids_of ps

  abbrev pub data_of : List (ℕ × List F) → List F
  data_of [] = []
  data_of ((id, vec) ∷ ps) = vec ++ data_of ps

  flatten-eq :
      (dim : ℕ) (ps : List (ℕ × List F))
      → IsUniform dim ps
      → flatten dim ps ≡ ok (ids_of ps, data_of ps)
  unfolding flatten
  flatten-eq dim [] h = refl
  flatten-eq dim ((id, vec) ∷ ps) (e, h) =
      let same : (length vec == dim) ≡ true = ground arith in rw (same, flatten-eq dim ps h) refl

  pairs_from_step :
      (i dim id : ℕ) (ids : List ℕ) (numbers vec : List F) (ps : List (ℕ × List F))
      → i * dim + dim ≤ length numbers
      → slice (i * dim) dim numbers ≡ vec
      → pairs_from (suc i) dim ids numbers ≡ some ps
      → pairs_from i dim (id ∷ ids) numbers ≡ some ((id, vec) ∷ ps)
  unfolding pairs_from
  pairs_from_step i dim id ids numbers vec ps room at rest =
      let fits : leb (i * dim + dim) (length numbers) ≡ true = ground arith in
      rw (fits, at, rest) refl

  pairs_from-eq :
      (i dim : ℕ) (ps : List (ℕ × List F)) (pre : List F)
      → length pre ≡ i * dim
      → IsUniform dim ps
      → pairs_from i dim (ids_of ps) (pre ++ data_of ps) ≡ some ps
  pairs_from-eq i dim [] pre at h = unfold pairs_from in refl
  pairs_from-eq i dim ((id, vec) ∷ ps) pre at (e, h) =
      let numbers = pre ++ (vec ++ data_of ps) in
      let whole : numbers ≡ (pre ++ vec) ++ data_of ps = sym (append_assoc pre vec (data_of ps)) in
      let next : length (pre ++ vec) ≡ suc i * dim =
        omega (arith, length-append pre vec, suc-mul i dim) in
      let room : i * dim + dim ≤ length numbers =
        omega (arith, length-append pre (vec ++ data_of ps), length-append vec (data_of ps)) in
      pairs_from_step i dim id (ids_of ps) numbers vec ps room
        (cc (at, slice-append pre vec (data_of ps) dim (sym e)))
        (cc (whole, pairs_from-eq (suc i) dim ps (pre ++ vec) next h))

  -- The last vector that is given for an id.
  abbrev pub last_for : ℕ → List (ℕ × List F) → Option (List F)
  last_for id [] = none
  last_for id ((j, vec) ∷ ps) = elim (last_for id ps) [
    | some later ↦ some later
    | none ↦ if j == id then some vec else none
  ]

  some_or_none : (o : Option (List F)) → (elim o [ none ↦ none | some vec ↦ some vec ]) ≡ o
  some_or_none none = refl
  some_or_none (some vec) = refl

  lookup-collect :
      (id : ℕ) (ps : List (ℕ × List F)) (m : Dict ℕ (List F))
      → lookup id (collect ps m)
        ≡ elim (last_for id ps) [ none ↦ lookup id m | some vec ↦ some vec ]
  unfolding collect
  lookup-collect id [] m = refl
  lookup-collect id ((j, vec) ∷ ps) m = elim (Option-cases (last_for id ps)) [
    | inr (later, e) ↦ lookup-collect id ps (insert j vec m) ∙ rw e refl
    | inl e ↦
        lookup-collect id ps (insert j vec m) ∙ rw (e, lookup-insert j id vec m) (ground arith)
  ]

  -- Where every vector has the dimension, which is not zero, the snapshot is made, and its map has
  -- for each id the last vector that was given for it, and none for an id that had none.
  pub to_map-from_pairs :
      (dim : ℕ) (ps : List (ℕ × List F))
      → (dim == 0) ≡ false
      → IsUniform dim ps
      → (s : VectorSnapshot F) × (m : Dict ℕ (List F)) × (from_pairs dim ps ≡ ok s)
        × (to_map s ≡ some m)
        × ((id : ℕ) → lookup id m ≡ last_for id ps)
  unfolding from_pairs to_map lookup
  to_map-from_pairs dim ps pos h =
      let all : pairs_from 0 dim (ids_of ps) (data_of ps) ≡ some ps =
        pairs_from-eq 0 dim ps [] (sym (zero-mul dim)) h in
      (
        record { dim = dim; ids = ids_of ps; numbers = data_of ps },
        collect ps [],
        rw (pos, flatten-eq dim ps h) refl,
        rw (all, to_map) refl,
        λ id. lookup-collect id ps [] ∙ some_or_none (last_for id ps),
      )

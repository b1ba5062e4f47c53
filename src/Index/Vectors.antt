-- ===== src/Index/Vectors.antt =====
-- crates/toradb-index/src/dense/vector_codec.rs: the embeddings of a segment in one flat list. A
-- number of a vector is any value; `none` is a slice out of range.
mod RoundTrip
mod Tests
use toradb.Prelude.{
  ℕ, zero, suc, ◌+◌, ◌*◌, Option, none, some, List, [], ◌∷◌, ◌++◌, leb, ◌==◌, length, if◌then◌else◌,
  Text, text, decimal, Result, ok, err, ◌>>=◌, nat_eq,
}
use toradb.Collections.Dict.{Dict, insert}
use toradb.Index.Bytes.{slice}

pub record VectorSnapshot (F : Type 0) : Type 0 where
  pub dim : ℕ
  pub ids : List ℕ
  pub numbers : List F

module _ {F : Type 0} where
  -- The loop of `from_pairs`: the first vector of another length is an error.
  pub flatten : ℕ → List (ℕ × List F) → Result (List ℕ × List F)
  flatten dim [] = ok ([], [])
  flatten dim ((id, vec) ∷ pairs) =
      let rest = flatten dim pairs in
      if length vec == dim
      then (rest >>= λ r. ok (id ∷ r.0, vec ++ r.1))
      else err (text "embedding dim mismatch for doc " ++ decimal id)

  pub from_pairs : ℕ → List (ℕ × List F) → Result (VectorSnapshot F)
  unfolding flatten
  from_pairs dim pairs =
      if dim == 0
      then err (text "vector dim must be > 0")
      else flatten dim pairs >>= λ r. ok (record { dim = dim; ids = r.0; numbers = r.1 })

  abbrev pub cons_pair : ℕ → List F → Option (List (ℕ × List F)) → Option (List (ℕ × List F))
  cons_pair id vec none = none
  cons_pair id vec (some ps) = some ((id, vec) ∷ ps)

  -- The iterator of `to_map`, from index `i` on.
  pub pairs_from : ℕ → ℕ → List ℕ → List F → Option (List (ℕ × List F))
  pairs_from i dim [] numbers = some []
  pairs_from i dim (id ∷ ids) numbers =
      let rest = pairs_from (suc i) dim ids numbers in
      if leb (i * dim + dim) (length numbers)
      then cons_pair id (slice (i * dim) dim numbers) rest
      else none

  -- `collect` into a map: a later pair replaces an earlier one.
  unfoldable pub collect : List (ℕ × List F) → Dict ℕ (List F) → Dict ℕ (List F)
  collect [] m = m
  collect ((id, vec) ∷ ps) m = collect ps (insert id vec m)

  pub to_map : VectorSnapshot F → Option (Dict ℕ (List F))
  unfolding pairs_from collect
  to_map s = elim (pairs_from 0 s.dim s.ids s.numbers) [
    | none ↦ none
    | some ps ↦ some (collect ps [])
  ]

-- ===== src/Index/Vectors/Tests.antt =====
-- The snapshot of two embeddings.
use toradb.Prelude.{ℕ, ◌≡◌, refl, some, List, [], ◌∷◌, ok, nat_eq}
use toradb.Index.Vectors.{VectorSnapshot, from_pairs, to_map}
use toradb.Collections.Dict.{Dict, lookup}
use toradb.Index.Vectors.RoundTrip.{last_for, to_map-from_pairs}

abbrev two_vectors : List (ℕ × List ℕ)
two_vectors = (0, 1 ∷ 0 ∷ 0 ∷ []) ∷ (2, 0 ∷ 1 ∷ 0 ∷ []) ∷ []

to_map-from_pairs_example :
    (s : VectorSnapshot ℕ) × (m : Dict ℕ (List ℕ)) × (from_pairs 3 two_vectors ≡ ok s)
    × (to_map s ≡ some m)
    × ((id : ℕ) → lookup id m ≡ last_for id two_vectors)
to_map-from_pairs_example = to_map-from_pairs 3 two_vectors refl (refl, (refl, record {}))

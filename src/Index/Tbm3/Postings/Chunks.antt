-- ===== src/Index/Tbm3/Postings/Chunks.antt =====
-- The blocks that postings are cut into.
use toradb.Prelude.{
  ℕ, zero, suc, ◌≤◌, ◌<◌, ◌≡◌, refl, ap, List, [], ◌∷◌, length, arith, concat, chunks_within, drop,
  length-drop, length-take, take-append-drop,
}
use toradb.Index.Tbm3.Postings.{block_size}

abbrev pub AreShort : {A : Type 0} → List (List A) → Type 0
AreShort [] = Unit {0}
AreShort (xs ∷ xss) = (length xs ≤ block_size) × AreShort xss

pub concat-chunks_within :
    {A : Type 0} (f n : ℕ) (xs : List A)
    → 0 < n
    → length xs ≤ f
    → concat (chunks_within f n xs) ≡ xs
unfolding chunks_within
concat-chunks_within zero n [] h k = refl
concat-chunks_within zero n (x ∷ xs) h k = elim k [ ]
concat-chunks_within (suc f) zero (x ∷ xs) h k = elim h [ ]
concat-chunks_within (suc f) n [] h k = refl
concat-chunks_within (suc f) (suc n) (x ∷ xs) h k =
    rw (concat-chunks_within f (suc n) (drop n xs) (omega arith) (omega (arith, length-drop n xs)))
      (ap (λ (ys : List _). x ∷ ys) (take-append-drop n xs))

pub length-chunks_within : {A : Type 0} (f n : ℕ) (xs : List A) → length (chunks_within f n xs) ≤ f
unfolding chunks_within
length-chunks_within zero n xs = omega arith
length-chunks_within (suc f) n [] = omega arith
length-chunks_within (suc f) n (x ∷ xs) = omega (arith, length-chunks_within f n (drop n (x ∷ xs)))

pub chunks_within-AreShort :
    {A : Type 0} (f : ℕ) (xs : List A) → AreShort (chunks_within f block_size xs)
unfolding chunks_within
chunks_within-AreShort zero xs = _
chunks_within-AreShort (suc f) [] = _
chunks_within-AreShort (suc f) (x ∷ xs) =
    (omega (arith, length-take 128 (x ∷ xs)), chunks_within-AreShort f (drop 128 (x ∷ xs)))

-- ===== src/Index/Bytes.antt =====
-- Little-endian numbers in byte strings: `to_le_bytes` and `from_le_bytes`, and slices.
use toradb.Prelude.{
  ℕ, zero, suc, ◌+◌, ◌*◌, ◌/◌, ◌%◌, ◌^◌, ◌<◌, ◌≡◌, refl, ap, List, [], ◌∷◌, ◌++◌, arith, length,
  take, drop,
}

abbrev pub Bytes : Type 0
Bytes = List ℕ

-- A number in so many bytes, the lowest first.
unfoldable pub le_bytes : ℕ → ℕ → Bytes
le_bytes zero v = []
le_bytes (suc k) v = v % 256 ∷ le_bytes k (v / 256)

unfoldable pub from_le : Bytes → ℕ
from_le [] = 0
from_le (b ∷ bs) = b + 256 * from_le bs

-- `bytes[pos..pos + n]`
unfoldable pub slice : {A : Type 0} → ℕ → ℕ → List A → List A
slice pos n bytes = take n (drop pos bytes)

pub length-le_bytes : (k v : ℕ) → length (le_bytes k v) ≡ k
unfolding le_bytes
length-le_bytes zero v = refl
length-le_bytes (suc k) v = ap suc (length-le_bytes k (v / 256))

pub from_le-le_bytes_2 : (v : ℕ) → v < 65536 → from_le (le_bytes 2 v) ≡ v
unfolding le_bytes from_le
from_le-le_bytes_2 v h = omega arith

pub from_le-le_bytes_4 : (v : ℕ) → v < 2 ^ 32 → from_le (le_bytes 4 v) ≡ v
unfolding le_bytes from_le
from_le-le_bytes_4 v h = omega arith

drop-append : {A : Type 0} (pre rest : List A) → drop (length pre) (pre ++ rest) ≡ rest
drop-append [] rest = refl
drop-append (b ∷ pre) rest = drop-append pre rest

take-append : {A : Type 0} (xs rest : List A) → take (length xs) (xs ++ rest) ≡ xs
take-append [] rest = refl
take-append (x ∷ xs) rest = ap (λ ys. x ∷ ys) (take-append xs rest)

pub take_all : (xs : Bytes) → take (length xs) xs ≡ xs
take_all [] = refl
take_all (x ∷ xs) = ap (λ ys. x ∷ ys) (take_all xs)

-- What stands after a prefix is what a slice from its length on reads.
pub slice-append :
    {A : Type 0} (pre xs rest : List A) (n : ℕ)
    → n ≡ length xs
    → slice (length pre) n (pre ++ (xs ++ rest)) ≡ xs
unfolding slice
slice-append pre xs rest n h = rw (h, drop-append pre (xs ++ rest)) (take-append xs rest)

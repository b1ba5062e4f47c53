-- ===== src/Index/Tbm3/Bitpack/Fields.antt =====
-- Fields of a number, each of so many bits.
use toradb.Prelude.{
  ℕ, zero, suc, ◌+◌, ◌*◌, ◌/◌, ◌%◌, ◌^◌, ◌<◌, ◌≡◌, refl, ap, ◌∙◌, List, [], ◌∷◌, ◌++◌, arith,
  length,
}
use native.Mathlib.Nat.{
  pow-zero, pow-succ', mul_assoc, add-mul-mod_self_left, mod-eq_of_lt, add-mul-div_left,
  div-eq_of_lt,
}

pub pow-add : (b m n : ℕ) → b ^ (m + n) ≡ b ^ m * b ^ n
pow-add b zero n =
    let same : 0 + n ≡ n = omega arith in
    ap (λ (k : ℕ). b ^ k) same ∙ omega (arith, ap (λ (x : ℕ). x * b ^ n) (pow-zero b))
pow-add b (suc m) n =
    let step : suc m + n ≡ suc (m + n) = omega arith in
    ap (λ (k : ℕ). b ^ k) step
    ∙ omega (
      arith,
      pow-succ' b (m + n),
      ap (λ (x : ℕ). b * x) (pow-add b m n),
      ap (λ (x : ℕ). x * b ^ n) (pow-succ' b m),
      mul_assoc b (b ^ m) (b ^ n),
    )

-- The fields as one number.
unfoldable pub number : ℕ → List ℕ → ℕ
number bits [] = 0
number bits (v ∷ vs) = v + 2 ^ bits * number bits vs

-- So many fields of a number.
unfoldable pub fields : ℕ → ℕ → ℕ → List ℕ
fields bits zero x = []
fields bits (suc n) x = x % 2 ^ bits ∷ fields bits n (x / 2 ^ bits)

unfoldable pub AllBelow : ℕ → List ℕ → Type 0
AllBelow m [] = Unit {0}
AllBelow m (v ∷ vs) = (v < m) × AllBelow m vs

pub AllBelow-append :
    (m : ℕ) (vs ws : List ℕ) → AllBelow m vs → AllBelow m ws → AllBelow m (vs ++ ws)
unfolding AllBelow
AllBelow-append m [] ws h k = k
AllBelow-append m (v ∷ vs) ws h k = (h.0, AllBelow-append m vs ws (h.1) k)

pub low_field : (m v k : ℕ) → v < m → ((v + m * k) % m ≡ v) × ((v + m * k) / m ≡ k)
low_field m v k h = (
  add-mul-mod_self_left v m k ∙ mod-eq_of_lt h,
  add-mul-div_left v k (omega arith) ∙ ap (λ (x : ℕ). x + k) (div-eq_of_lt h) ∙ omega arith,
)

pub fields-number :
    (bits : ℕ) (vs : List ℕ)
    → AllBelow (2 ^ bits) vs
    → fields bits (length vs) (number bits vs) ≡ vs
unfolding fields number AllBelow
fields-number bits [] h = refl
fields-number bits (v ∷ vs) h =
    let (low, high) = low_field (2 ^ bits) v (number bits vs) (h.0) in
    rw (low, high) (ap (λ (xs : List ℕ). v ∷ xs) (fields-number bits vs (h.1)))

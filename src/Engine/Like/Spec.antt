-- ===== src/Engine/Like/Spec.antt =====
-- What a LIKE pattern means: `_` is any character, `%` any run of them, and any other character
-- is itself.
use toradb.Prelude.{
  ℕ, zero, suc, ◌+◌, ◌≤◌, ◌≡◌, refl, sym, ap, ◌∙◌, inl, inr, Bool, true, false, ◌&&◌, ◌||◌,
  Bool-cases, [], ◌∷◌, length, drop, ◌==◌, Text, arith,
}
use toradb.Engine.Like.{percent, underscore, only_percents}

-- Some rest of the text, the whole or the empty one included, passes the test.
pub any_rest : (Text → Bool) → Text → Bool
any_rest f [] = f []
any_rest f (c ∷ t) = f (c ∷ t) || any_rest f t

abbrev pub first_is : (ℕ → Bool) → (Text → Bool) → Text → Bool
first_is here f [] = false
first_is here f (c ∷ t) = here c && f t

pub like : Text → Text → Bool
unfolding any_rest
like [] [] = true
like [] (c ∷ t) = false
like (q ∷ p) t = elim (q == percent) [
  | true ↦ any_rest (like p) t
  | false ↦ first_is (λ c. q == underscore || q == c) (like p) t
]

pub only_percents-like : (p : Text) → only_percents p ≡ like p []
unfolding only_percents like any_rest
only_percents-like [] = refl
only_percents-like (q ∷ p) = ground (arith, only_percents-like p)

-- A rest that passes, with its place.
pub any_rest-find :
    (f : Text → Bool) (t : Text)
    → any_rest f t ≡ true
    → (j : ℕ) × (j ≤ length t) × (f (drop j t) ≡ true)
unfolding any_rest
any_rest-find f [] h = (0, omega arith, h)
any_rest-find f (c ∷ t) h = elim (Bool-cases (f (c ∷ t))) [
  | inl e ↦ (0, omega arith, e)
  | inr e ↦ let (j, b, k) = any_rest-find f t (ground (arith, e, h)) in (suc j, omega arith, k)
]

pub any_rest-drop :
    (f : Text → Bool) (j : ℕ) (t : Text) → any_rest f (drop j t) ≡ true → any_rest f t ≡ true
unfolding any_rest
any_rest-drop f zero t h = h
any_rest-drop f (suc j) [] h = h
any_rest-drop f (suc j) (c ∷ t) h = ground (arith, any_rest-drop f j t h)

pub any_rest_nil : (f : Text → Bool) → any_rest f [] ≡ f []
unfolding any_rest
any_rest_nil f = refl

pub any_rest_cons :
    (f : Text → Bool) (c : ℕ) (t : Text) → any_rest f (c ∷ t) ≡ (f (c ∷ t) || any_rest f t)
unfolding any_rest
any_rest_cons f c t = refl

pub any_rest_here : (f : Text → Bool) (t : Text) → f t ≡ true → any_rest f t ≡ true
unfolding any_rest
any_rest_here f [] h = h
any_rest_here f (c ∷ t) h = ground arith

drop_nothing : (n : ℕ) → drop {A = ℕ} n [] ≡ []
drop_nothing zero = refl
drop_nothing (suc n) = refl

pub drop-drop : (i j : ℕ) (t : Text) → drop i (drop j t) ≡ drop (i + j) t
drop-drop i zero t = let e : i ≡ i + 0 = omega arith in ap (λ (n : ℕ). drop n t) e
drop-drop i (suc j) [] = drop_nothing i ∙ sym (drop_nothing (i + suc j))
drop-drop i (suc j) (c ∷ t) =
    let e : suc (i + j) ≡ i + suc j = omega arith in
    drop-drop i j t ∙ ap (λ (n : ℕ). drop n (c ∷ t)) e

pub like-percent : (p t : Text) → like (percent ∷ p) t ≡ any_rest (like p) t
unfolding like
like-percent p t = refl

pub like_other :
    (q : ℕ) (p t : Text)
    → (q == percent) ≡ false
    → like (q ∷ p) t ≡ first_is (λ c. q == underscore || q == c) (like p) t
unfolding like
like_other q p t e = rw (e, like) refl

pub like_nothing : (c : ℕ) (t : Text) → like [] (c ∷ t) ≡ false
unfolding like
like_nothing c t = refl

pub like_step :
    (q c : ℕ) (p t : Text)
    → (q == percent) ≡ false
    → like (q ∷ p) (c ∷ t) ≡ ((q == underscore || q == c) && like p t)
like_step q c p t e = like_other q p (c ∷ t) e

pub first_is-drop :
    (here : ℕ → Bool) (f : Text → Bool) (k : ℕ) (u : Text)
    → first_is here f (drop k u) ≡ true
    → (suc k ≤ length u) × (f (drop (suc k) u) ≡ true)
first_is-drop here f zero [] h = absurd (ground arith)
first_is-drop here f (suc k) [] h = absurd (ground arith)
first_is-drop here f zero (c ∷ u) h = (omega arith, ground arith)
first_is-drop here f (suc k) (c ∷ u) h = let (a, b) = first_is-drop here f k u h in (omega arith, b)

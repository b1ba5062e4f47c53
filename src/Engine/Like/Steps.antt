-- ===== src/Engine/Like/Steps.antt =====
-- What the loop keeps: where it stands behind the last `%`, and how many turns it needs.
use toradb.Prelude.{
  ℕ, zero, suc, ◌+◌, ◌*◌, ◌≤◌, ◌<◌, ◌≡◌, refl, sym, ap, ◌∙◌, inl, inr, Bool, true, false, ◌||◌,
  Bool-cases, none, some, [], ◌∷◌, length, drop, length-drop, ◌==◌, Text, arith,
}
use native.Mathlib.Nat.{mul-le-mul_right, suc-mul}
use toradb.Engine.Like.{percent, underscore, Star, tail}
use toradb.Engine.Like.Spec.{
  any_rest, like, any_rest-find, any_rest-drop, drop-drop, like-percent, like_other, first_is-drop,
}

-- Whether the text still matches when the last `%` takes one character more, or several.
abbrev pub retry : Star → Bool
retry none = false
retry (some (p, [])) = false
retry (some (p, c ∷ t)) = any_rest (like p) t

-- The loop is `k` characters behind the text `ts` of the last `%`, and whatever matches the
-- pattern behind that `%` matches the rest of the pattern `k` characters on.
abbrev pub IsBehind : Text → Text → Text → Text → ℕ → Type 0
IsBehind t p ps ts k =
    (t ≡ drop k ts)
    × (length t + k ≡ length ts)
    × ((u : Text) → like ps u ≡ true → (k ≤ length u) × (like p (drop k u) ≡ true))

abbrev pub IsOnTrack : Text → Text → Star → Type 0
IsOnTrack t p none = record {}
IsOnTrack t p (some (ps, ts)) = (k : ℕ) × IsBehind t p ps ts k

pub IsOnTrack-start : (t p : Text) → IsOnTrack t p (some (p, t))
IsOnTrack-start t p = (0, (refl, omega arith, λ u h. (omega arith, h)))

-- A rest that is found on a retry, seen from where the loop stands.
retry-find :
    (t p ps ts : Text) (k : ℕ)
    → IsBehind t p ps ts k
    → retry (some (ps, ts)) ≡ true
    → (j : ℕ) × (j < length t) × (like p (drop (suc j) t) ≡ true)
retry-find t p ps [] k h e = absurd (ground arith)
retry-find t p ps (d ∷ ts) k (at, size, keeps) e =
    let (j, b, m) = any_rest-find (like ps) ts e in
    let (long, m') = keeps (drop j ts) m in
    let moved : drop k (drop (suc j) (d ∷ ts)) ≡ drop (suc j) t =
      drop-drop k (suc j) (d ∷ ts)
      ∙ ap (λ (n : ℕ). drop n (d ∷ ts)) (omega arith)
      ∙ sym (drop-drop (suc j) k (d ∷ ts))
      ∙ ap (drop (suc j)) (sym at) in
    (j, omega (arith, length-drop j ts), sym (ap (like p) moved) ∙ m')

-- At the end of the text nothing is left to retry.
pub retry_nothing : (p : Text) (star : Star) → IsOnTrack [] p star → retry star ≡ false
retry_nothing p none h = refl
retry_nothing p (some (ps, ts)) (k, h) = elim (Bool-cases (retry (some (ps, ts)))) [
  | inr e ↦ e
  | inl e ↦ let (j, b, m) = retry-find [] p ps ts k h e in absurd (omega arith)
]

-- Where the pattern goes on with `%`, a retry finds no more than that `%` does.
pub retry_covered :
    (t p : Text) (star : Star)
    → IsOnTrack t (percent ∷ p) star
    → retry star ≡ true
    → any_rest (like p) t ≡ true
retry_covered t p none h e = absurd (ground arith)
retry_covered t p (some (ps, ts)) (k, h) e =
    let (j, b, m) = retry-find t (percent ∷ p) ps ts k h e in
    any_rest-drop (like p) (suc j) t (sym (like-percent p (drop (suc j) t)) ∙ m)

tail-drop : (k c : ℕ) (t ts : Text) → c ∷ t ≡ drop k ts → t ≡ drop (suc k) ts
tail-drop zero c t [] h = ap tail h
tail-drop (suc k) c t [] h = ap tail h
tail-drop zero c t (d ∷ ts) h = ap tail h
tail-drop (suc k) c t (d ∷ ts) h = tail-drop k c t ts h

-- A character is matched by one of the pattern.
pub IsOnTrack-next :
    (c q : ℕ) (t p : Text) (star : Star)
    → (q == percent) ≡ false
    → IsOnTrack (c ∷ t) (q ∷ p) star
    → IsOnTrack t p star
IsOnTrack-next c q t p none e h = record {}
IsOnTrack-next c q t p (some (ps, ts)) e (k, (at, size, keeps)) = (
  suc k,
  (
    tail-drop k c t ts at,
    omega arith,
    λ u m.
        let (long, m') = keeps u m in
        first_is-drop (λ d. q == underscore || q == d) (like p) k u
          (sym (like_other q p (drop k u) e) ∙ m'),
  ),
)

-- The turns that are left. `w` is above the length of the text.
abbrev pub Enough : ℕ → ℕ → Text → Text → Star → Type 0
Enough w f t p none = (length t < w) × (length p * (w * w) + length t < f)
Enough w f t p (some (ps, ts)) =
    (length ts < w) × (length p ≤ length ps) × (length ps * (w * w) + length ts * w + length t < f)

pub Enough-next :
    (w f c q : ℕ) (t p : Text) (star : Star)
    → Enough w (suc f) (c ∷ t) (q ∷ p) star
    → Enough w f t p star
Enough-next w f c q t p none (a, b) = (omega arith, omega (arith, suc-mul (length p) (w * w)))
Enough-next w f c q t p (some (ps, ts)) (a, b, d) = (a, omega arith, omega arith)

-- A `%` is worth more turns than a whole pass over what is left.
pass_cost : (w a b n : ℕ) → n < w → suc a ≤ b → a * (w * w) + n * w + n < b * (w * w)
pass_cost w a b n h k =
    omega (arith, mul-le-mul_right (w * w) k, mul-le-mul_right w h, suc-mul a (w * w), suc-mul n w)

pub Enough-star :
    (w f q : ℕ) (t p : Text) (star : Star)
    → length t < w
    → Enough w (suc f) t (q ∷ p) star
    → Enough w f t p (some (p, t))
Enough-star w f q t p none l (a, b) = (
  l,
  omega arith,
  omega (arith, pass_cost w (length p) (length (q ∷ p)) (length t) l (omega arith)),
)
Enough-star w f q t p (some (ps, ts)) l (a, b, d) =
    (l, omega arith, omega (arith, pass_cost w (length p) (length ps) (length t) l b))

pub Enough-back :
    (w f : ℕ) (t p ps ts : Text) (d : ℕ)
    → Enough w (suc f) t p (some (ps, d ∷ ts))
    → Enough w f ts ps (some (ps, ts))
Enough-back w f t p ps ts d (a, b, e) =
    (omega arith, omega arith, omega (arith, suc-mul (length ts) w))

-- ===== src/Engine/Like/Correct.antt =====
-- The loop with its one point of return, compared with the meaning of a LIKE pattern.
use toradb.Prelude.{
  ℕ, zero, suc, ◌<◌, ◌≡◌, refl, sym, ap, ◌∙◌, inl, inr, Bool, true, false, ◌&&◌, ◌||◌, Bool-cases,
  none, some, [], ◌∷◌, length, ◌==◌, Text, arith, In,
}
use mathlib.Core.Path.{subst}
use toradb.Engine.Like.{percent, underscore, Star, back, match_loop, turns, like_matches}
use toradb.Engine.Like.Spec.{
  any_rest, like, only_percents-like, like-percent, like_nothing, like_step, any_rest_nil,
  any_rest_cons,
}
use toradb.Engine.Like.Steps.{
  retry, IsOnTrack, IsOnTrack-start, retry_nothing, retry_covered, IsOnTrack-next, Enough,
  Enough-next, Enough-star, Enough-back,
}

-- No `%` stands in the text.
abbrev pub IsPlain : Text → Type 0
IsPlain t = (c : ℕ) → In c t → (c == percent) ≡ false

abbrev IsPlainStar : Star → Type 0
IsPlainStar none = record {}
IsPlainStar (some (p, t)) = IsPlain t

-- What the loop should answer: a match from here, or from a retry.
abbrev answer : Text → Text → Star → Bool
answer t p star = like p t || retry star

or_false : (a b : Bool) → (b ≡ true → a ≡ true) → (a || b) ≡ a
or_false true b h = refl
or_false false true h = sym (h refl)
or_false false false h = refl

-- What a `%` retries, and what it matches.
any_rest_split : (p t : Text) → (like p t || retry (some (p, t))) ≡ any_rest (like p) t
any_rest_split p [] = or_false (like p []) false (λ e. ground arith) ∙ sym (any_rest_nil (like p))
any_rest_split p (c ∷ t) = sym (any_rest_cons (like p) c t)

-- What is shown of the loop with `f` turns.
abbrev IsRight : ℕ → ℕ → Type 0
IsRight w f =
    (t p : Text) (star : Star)
    → length t < w
    → Enough w f t p star
    → IsPlain t
    → IsPlainStar star
    → IsOnTrack t p star
    → match_loop f t p star ≡ some (answer t p star)

back_right :
    (w f c : ℕ) (t p : Text) (star : Star)
    → IsRight w f
    → Enough w (suc f) (c ∷ t) p star
    → IsPlainStar star
    → IsOnTrack (c ∷ t) p star
    → like p (c ∷ t) ≡ false
    → back (match_loop f) star ≡ some (answer (c ∷ t) p star)
back_right w f c t p none ih h s k miss =
    ap some (sym (or_false (like p (c ∷ t)) false (λ e. ground arith) ∙ miss))
back_right w f c t p (some (ps, [])) ih h s (k, (a, b, m)) miss = absurd (omega arith)
back_right w f c t p (some (ps, d ∷ ts)) ih h s k miss =
    ih ts ps (some (ps, ts)) (omega (arith, h.0)) (Enough-back w f (c ∷ t) p ps ts d h)
      (λ x m. s x (inr m)) (λ x m. s x (inr m)) (IsOnTrack-start ts ps)
    ∙ ap some (any_rest_split ps ts)
    ∙ ap (λ (b : Bool). some (b || any_rest (like ps) ts)) (sym miss)

-- One turn at a character of the text and of the pattern.
turn :
    (f c q : ℕ) (t p : Text) (star : Star)
    → match_loop (suc f) (c ∷ t) (q ∷ p) star ≡ elim (q == underscore || q == c) [
      | true ↦ match_loop f t p star
      | false ↦ elim (q == percent) [
        | true ↦ match_loop f (c ∷ t) p (some (p, c ∷ t))
        | false ↦ back (match_loop f) star
      ]
    ]
unfolding match_loop
turn f c q t p star = refl

match_loop-IsRight : (w f : ℕ) → IsRight w f
unfolding match_loop
match_loop-IsRight w zero t p none l h i s k = absurd (omega (arith, h.1))
match_loop-IsRight w zero t p (some (ps, ts)) l h i s k = absurd (omega (arith, h.2))
match_loop-IsRight w (suc f) [] p star l h i s k =
    let none_left = retry_nothing p star k in
    ap some (
      only_percents-like p
      ∙ sym (or_false (like p []) (retry star) (λ e. ground (arith, e, none_left))))
match_loop-IsRight w (suc f) (c ∷ t) [] star l h i s k =
    back_right w f c t [] star (match_loop-IsRight w f) h s k (like_nothing c t)
match_loop-IsRight w (suc f) (c ∷ t) (q ∷ p) star l h i s k =
    let plain = i c (inl refl) in
    elim (Bool-cases (q == percent)) [
      | inl e ↦
          let miss : (q == underscore || q == c) ≡ false = ground arith in
          let is : q ≡ percent = ground arith in
          let tracked = subst (λ x. IsOnTrack (c ∷ t) (x ∷ p) star) is k in
          let whole : like (q ∷ p) (c ∷ t) ≡ any_rest (like p) (c ∷ t) =
            ap (λ (x : ℕ). like (x ∷ p) (c ∷ t)) is ∙ like-percent p (c ∷ t) in
          turn f c q t p star
          ∙ rw (miss, e)
              (match_loop-IsRight w f (c ∷ t) p (some (p, c ∷ t)) l
                (Enough-star w f q (c ∷ t) p star l h) i i (IsOnTrack-start (c ∷ t) p))
          ∙ ap some (
              any_rest_split p (c ∷ t)
              ∙ sym (
                  or_false (any_rest (like p) (c ∷ t)) (retry star)
                    (retry_covered (c ∷ t) p star tracked))
              ∙ ap (λ (b : Bool). b || retry star) (sym whole))
      | inr e ↦ elim (Bool-cases (q == underscore || q == c)) [
        | inl hit ↦
            turn f c q t p star
            ∙ rw hit (
                match_loop-IsRight w f t p star (omega arith) (Enough-next w f c q t p star h)
                  (λ x m. i x (inr m)) s (IsOnTrack-next c q t p star e k))
            ∙ ap (λ (b : Bool). some (b || retry star))
                (sym (like_step q c p t e ∙ ap (λ (b : Bool). b && like p t) hit))
        | inr miss ↦
            turn f c q t p star
            ∙ rw (miss, e)
                (back_right w f c t (q ∷ p) star (match_loop-IsRight w f) h s k
                  (like_step q c p t e ∙ ap (λ (b : Bool). b && like p t) miss))
      ]
    ]

-- On a text without `%`, the matching ends, and its answer is what the pattern means.
pub like_matches-eq : (t p : Text) → IsPlain t → like_matches t p ≡ some (like p t)
unfolding like_matches turns
like_matches-eq t p plain =
    let w = suc (length t) in
    match_loop-IsRight w (turns t p) t p none (omega arith) (omega arith, omega arith) plain
      (record {}) (record {})
    ∙ ap some (or_false (like p t) false (λ e. ground arith))

-- ===== src/Engine/Like/Tests.antt =====
-- LIKE patterns at concrete texts, a text with `%` among them.
use toradb.Prelude.{◌≡◌, refl, sym, ◌∙◌, inl, inr, false, true, some, [], arith, text}
use toradb.Engine.Like.{like_matches, match_loop, turns, only_percents}
use toradb.Engine.Like.Spec.{
  like, any_rest, any_rest-drop, any_rest_nil, like-percent, only_percents-like,
}
use toradb.Engine.Like.Correct.{IsPlain, like_matches-eq}

three_letters-IsPlain : IsPlain (text "aab")
three_letters-IsPlain c (inl e) = ground arith
three_letters-IsPlain c (inr (inl e)) = ground arith
three_letters-IsPlain c (inr (inr (inl e))) = ground arith
three_letters-IsPlain c (inr (inr (inr h))) = absurd h

like_matches-eq_example :
    like_matches (text "aab") (text "%a_") ≡ some (like (text "%a_") (text "aab"))
like_matches-eq_example = like_matches-eq (text "aab") (text "%a_") three_letters-IsPlain

-- A text that starts with `%` is taken for a literal match of the pattern's `%`.
percent_text_missed : like_matches (text "%a") (text "%") ≡ some false
unfolding like_matches match_loop turns only_percents
percent_text_missed = refl

percent_text_meant : like (text "%") (text "%a") ≡ true
percent_text_meant = like-percent [] (text "%a") ∙ any_rest_drop_all
  where
    any_rest_drop_all : any_rest (like []) (text "%a") ≡ true
    any_rest_drop_all =
        any_rest-drop (like []) 2 (text "%a")
          (any_rest_nil (like []) ∙ sym (only_percents-like []) ∙ (unfold only_percents in refl))

-- ===== src/Engine/Like.antt =====
-- crates/toradb-engine/src/metadata_filter.rs: the matching of LIKE patterns. An index into the
-- text or the pattern, both lists of characters, is what is left from there on; `none` is a loop that ran out of its fuel.
mod Spec
mod Steps
mod Correct
mod Tests
use toradb.Prelude.{
  ℕ, zero, suc, ◌+◌, ◌*◌, Bool, true, false, ◌||◌, Option, none, some, List, [], ◌∷◌, length, ◌==◌,
  Text,
}

-- `%` and `_`
abbrev pub percent : ℕ
percent = 37

abbrev pub underscore : ℕ
underscore = 95

-- `while pi < p.len() && p[pi] == '%' { pi += 1; } pi == p.len()`
pub only_percents : Text → Bool
only_percents [] = true
only_percents (q ∷ p) =
    let rest = only_percents p in elim (q == percent) [ true ↦ rest | false ↦ false ]

-- The last `%` passed, as the pattern behind it and the text that was left there.
abbrev pub Star : Type 0
Star = Option (Text × Text)

abbrev pub tail : Text → Text
tail [] = []
tail (c ∷ t) = t

-- After a mismatch the last `%` takes one character more, and `run` goes on.
abbrev pub back : (Text → Text → Star → Option Bool) → Star → Option Bool
back run none = some false
back run (some (p, t)) = run (tail t) p (some (p, tail t))

pub match_loop : ℕ → Text → Text → Star → Option Bool
unfolding only_percents
match_loop zero t p star = none
match_loop (suc f) [] p star = some (only_percents p)
match_loop (suc f) (c ∷ t) [] star = back (match_loop f) star
match_loop (suc f) (c ∷ t) (q ∷ p) star = elim (q == underscore || q == c) [
  | true ↦ match_loop f t p star
  | false ↦ elim (q == percent) [
    | true ↦ match_loop f (c ∷ t) p (some (p, c ∷ t))
    | false ↦ back (match_loop f) star
  ]
]

-- Enough turns for the loop.
pub turns : Text → Text → ℕ
turns t p = let w = suc (length t) in suc (length p * (w * w) + length t)

pub like_matches : Text → Text → Option Bool
unfolding match_loop turns
like_matches t p = match_loop (turns t p) t p none

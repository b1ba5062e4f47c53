-- ===== src/Index/Lexicon/Tests.antt =====
-- The lexicon of two terms.
use toradb.Prelude.{◌≡◌, refl, ap, inl, inr, List, [], ◌∷◌, arith, Text, text, ok, length}
use toradb.Index.Lexicon.{Utf8, encode_lexicon, parse}
use toradb.Index.Lexicon.RoundTrip.{IsShort, parse-encode_lexicon}

abbrev ascii : Utf8 Text
ascii = record { as_bytes = λ t. t; from_utf8 = ok }

abbrev two_terms : List Text
two_terms = text "apple" ∷ text "zebra" ∷ []

two_terms-IsShort : IsShort ascii (λ t. refl) two_terms
two_terms-IsShort t (inl e) = ground (arith, ap length e)
two_terms-IsShort t (inr (inl e)) = ground (arith, ap length e)
two_terms-IsShort t (inr (inr h)) = absurd h

parse-encode_lexicon_example : parse ascii (encode_lexicon ascii two_terms) ≡ ok two_terms
parse-encode_lexicon_example =
    parse-encode_lexicon ascii (λ t. refl) two_terms two_terms-IsShort (omega arith)

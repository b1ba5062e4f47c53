-- ===== src/Prelude/Texts.antt =====
-- Texts as lists of bytes, and the library functions on them that the source calls.
use Prim.Native.Nat.{ℕ, ◌+◌, ◌-◌}
use Prim.Native.Char.{code}
use Prim.Native.String.{String}
use mathlib.Core.Path.{◌≡◌, refl, sym, ap, ◌∙◌}
use mathlib.Core.Logic.{◌↔◌}
use mathlib.Core.Bool.{Bool, true, false, ◌&&◌, ◌||◌}
use mathlib.Core.List.{List, [], ◌∷◌, ◌++◌, map, reverse, reverse-append, reverse-reverse}
use mathlib.Core.Option.{Option, none, some}
use native.Mathlib.Omega.{arith}
use toradb.Prelude.Tests.{◌==◌, ==_iff, leb, if◌then◌else◌}
use toradb.Prelude.Equality.{Eq}

abbrev pub Text : Type 0
Text = List ℕ

-- The bytes of an ASCII literal.
abbrev pub text : String → Text
text String.[] = []
text (String.◌∷◌ c s) = code c ∷ text s

abbrev pub text_beq : Text → Text → Bool
text_beq [] [] = true
text_beq [] (d ∷ t) = false
text_beq (c ∷ s) [] = false
text_beq (c ∷ s) (d ∷ t) = (c == d) && text_beq s t

pub text_beq_iff : (s t : Text) → (text_beq s t ≡ true) ↔ (s ≡ t)
text_beq_iff [] [] = (λ h. refl, λ h. refl)
text_beq_iff [] (d ∷ t) = (λ h. cc, λ h. cc)
text_beq_iff (c ∷ s) [] = (λ h. cc, λ h. cc)
text_beq_iff (c ∷ s) (d ∷ t) =
    (λ h. ground (arith, text_beq_iff s t), λ h. ground (arith, text_beq_iff s t))

instance abbrev pub text_eq : Eq Text
text_eq = record { beq = text_beq; beq_iff = text_beq_iff }

-- `u8::to_ascii_lowercase`, `u8::to_ascii_uppercase`, and the same on every byte of a text.
abbrev pub ascii_lower : ℕ → ℕ
ascii_lower c = if leb b'A' c && leb c b'Z' then c + 32 else c

abbrev pub ascii_upper : ℕ → ℕ
ascii_upper c = if leb b'a' c && leb c b'z' then c - 32 else c

unfoldable pub to_ascii_lowercase : Text → Text
to_ascii_lowercase = map ascii_lower

unfoldable pub to_ascii_uppercase : Text → Text
to_ascii_uppercase = map ascii_upper

abbrev pub is_digit : ℕ → Bool
is_digit c = leb b'0' c && leb c b'9'

-- `u8::is_ascii_whitespace`
abbrev pub is_space : ℕ → Bool
is_space c = c == 32 || (c == 9 || (c == 10 || (c == 12 || c == 13)))

-- `strip_prefix`
unfoldable pub strip_prefix : Text → Text → Option Text
strip_prefix [] s = some s
strip_prefix (p ∷ ps) [] = none
strip_prefix (p ∷ ps) (c ∷ s) = if p == c then strip_prefix ps s else none

-- `char::is_whitespace` on the one-byte characters.
abbrev pub is_whitespace : ℕ → Bool
is_whitespace c = c == 32 || (leb 9 c && leb c 13)

unfoldable pub trim_start : Text → Text
trim_start [] = []
trim_start (c ∷ s) = if is_whitespace c then trim_start s else c ∷ s

unfoldable pub trim_end : Text → Text
unfolding trim_start
trim_end s = reverse (trim_start (reverse s))

unfoldable pub trim : Text → Text
unfolding trim_end
trim s = trim_end (trim_start s)

-- `s.split(c).next()`
unfoldable pub until : ℕ → Text → Text
until d [] = []
until d (c ∷ s) = if c == d then [] else c ∷ until d s

-- `strip_suffix` of one character
unfoldable pub strip_last : ℕ → Text → Option Text
strip_last d s = elim (reverse s) [ [] ↦ none | c ∷ r ↦ if c == d then some (reverse r) else none ]

pub trim_end-append :
    (xs : Text) (c : ℕ) → is_whitespace c ≡ false → trim_end (xs ++ c ∷ []) ≡ xs ++ c ∷ []
unfolding trim_end
trim_end-append xs c h =
    ap reverse
      (ap trim_start (reverse-append xs (c ∷ [])) ∙ stay ∙ sym (reverse-append xs (c ∷ [])))
    ∙ reverse-reverse (xs ++ c ∷ [])
  where
    stay : trim_start (c ∷ reverse xs) ≡ c ∷ reverse xs
    stay = rw h

trim_start_stays : (c : ℕ) (t : Text) → is_whitespace c ≡ false → trim_start (c ∷ t) ≡ c ∷ t
unfolding trim_start
trim_start_stays c t h = rw h

-- A text that starts and ends with no white space is trimmed already.
pub trim_stays :
    (s : Text) (c : ℕ) (t xs : Text) (k : ℕ)
    → s ≡ c ∷ t
    → s ≡ xs ++ k ∷ []
    → is_whitespace c ≡ false
    → is_whitespace k ≡ false
    → trim s ≡ s
unfolding trim
trim_stays s c t xs k starts ends hc hk =
    ap trim_end (ap trim_start starts ∙ trim_start_stays c t hc ∙ sym starts ∙ ends)
    ∙ trim_end-append xs k hk
    ∙ sym ends

strip_last-reverse : (s r : Text) (c : ℕ) → reverse s ≡ c ∷ r → strip_last c s ≡ some (reverse r)
unfolding strip_last
strip_last-reverse s r c h = rw (h, strip_last) (rw ((==_iff c c).1 refl))

pub strip_last-append : (xs : Text) (c : ℕ) → strip_last c (xs ++ c ∷ []) ≡ some xs
strip_last-append xs c =
    strip_last-reverse (xs ++ c ∷ []) (reverse xs) c (reverse-append xs (c ∷ []))
    ∙ ap some (reverse-reverse xs)

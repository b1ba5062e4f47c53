-- ===== src/Storage/Wal/Lines.antt =====
-- `BufRead::lines`: a line ends at a line feed, which a carriage return may stand before.
use toradb.Prelude.{
  ℕ, ◌≡◌, refl, inl, inr, Bool, true, false, Bool-cases, ◌&&◌, List, [], ◌∷◌, ◌++◌, ◌==◌,
  if◌then◌else◌, Text, arith, all,
}

abbrev pub push_front : ℕ → List Text → List Text
push_front c [] = (c ∷ []) ∷ []
push_front c (l ∷ ls) = (c ∷ l) ∷ ls

abbrev pub starts_lf : Text → Bool
starts_lf [] = false
starts_lf (c ∷ s) = c == 10

unfoldable pub lines : Text → List Text
lines [] = []
lines (c ∷ s) =
    let rest = lines s in
    if c == 10 then [] ∷ rest else (if c == 13 && starts_lf s then rest else push_front c rest)

-- The text ends with a line feed, or is empty.
abbrev pub IsWhole : Text → Type 0
IsWhole [] = Unit {0}
IsWhole (c ∷ []) = c ≡ 10
IsWhole (c ∷ d ∷ s) = IsWhole (d ∷ s)

lines-cons : (c : ℕ) (s : Text) → (l : Text) × (ls : List Text) × (lines (c ∷ s) ≡ l ∷ ls)
unfolding lines
lines-cons c [] = elim (Bool-cases (c == 10)) [
  | inl e ↦ ([], [], ground arith)
  | inr e ↦ (c ∷ [], [], ground arith)
]
lines-cons c (d ∷ s) =
    let (l, ls, h) = lines-cons d s in
    elim (Bool-cases (c == 10)) [
      | inl e ↦ ([], lines (d ∷ s), ground arith)
      | inr e ↦ elim (Bool-cases (c == 13 && d == 10)) [
        | inl k ↦ (l, ls, ground arith)
        | inr k ↦ (c ∷ l, ls, ground arith)
      ]
    ]

pub lines-append : (s t : Text) → IsWhole s → lines (s ++ t) ≡ lines s ++ lines t
unfolding lines
lines-append [] t h = refl
lines-append (c ∷ []) t h = ground arith
lines-append (c ∷ d ∷ s) t h =
    let (l, ls, e) = lines-cons d s in ground (arith, lines-append (d ∷ s) t h)

pub lines_nil : lines [] ≡ []
unfolding lines
lines_nil = refl

-- No line feed and no carriage return.
abbrev pub is_inline : ℕ → Bool
is_inline c = if c == 10 then false else (if c == 13 then false else true)

pub lines_line :
    (c : ℕ) (l : Text) → all is_inline (c ∷ l) ≡ true → lines ((c ∷ l) ++ 10 ∷ []) ≡ (c ∷ l) ∷ []
unfolding lines all
lines_line c [] h = ground arith
lines_line c (d ∷ l) h = ground (arith, lines_line d l)

pub append-IsWhole : (s l : Text) → IsWhole (s ++ (l ++ 10 ∷ []))
append-IsWhole [] [] = refl
append-IsWhole [] (c ∷ []) = refl
append-IsWhole [] (c ∷ d ∷ l) = append-IsWhole [] (d ∷ l)
append-IsWhole (c ∷ []) [] = refl
append-IsWhole (c ∷ []) (d ∷ l) = append-IsWhole [] (d ∷ l)
append-IsWhole (c ∷ d ∷ s) l = append-IsWhole (d ∷ s) l

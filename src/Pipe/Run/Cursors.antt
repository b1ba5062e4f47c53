-- ===== src/Pipe/Run/Cursors.antt =====
-- The latest of some cursors, by the order of the bytes of texts.
use toradb.Prelude.{
  ℕ, ◌<◌, ◌≡◌, refl, sym, ap, ◌∙◌, inl, inr, ◌⊎◌, true, false, Bool-cases, Option, none, some, List,
  [], ◌∷◌, ◌++◌, In, ltb, Text, arith,
}
use mathlib.Core.Path.{subst}
use toradb.Pipe.Run.{text_leb, later_cursor, latest}

-- A text is the front of another, or the first byte in which they differ is smaller.
abbrev pub AtMost : Text → Text → Type 0
AtMost a b =
    ((rest : Text) × (b ≡ a ++ rest))
    ⊎ ((front : Text) × (x : ℕ) × (y : ℕ) × (as' : Text) × (bs : Text) × (a ≡ front ++ x ∷ as')
        × (b ≡ front ++ y ∷ bs)
        × (x < y))

-- One of the cursors, and none is beyond it; or there are none.
abbrev pub IsLatest : Option Text → List (Option Text) → Type 0
IsLatest none cs = (u : Text) → ¬ (In (some u) cs)
IsLatest (some t) cs = In (some t) cs × ((u : Text) → In (some u) cs → AtMost u t)

AtMost-cons : (x : ℕ) (a b : Text) → AtMost a b → AtMost (x ∷ a) (x ∷ b)
AtMost-cons x a b (inl (rest, e)) = inl (rest, ap (λ (t : Text). x ∷ t) e)
AtMost-cons x a b (inr (front, y, z, as', bs, e, k, h)) =
    inr (x ∷ front, y, z, as', bs, ap (λ (t : Text). x ∷ t) e, ap (λ (t : Text). x ∷ t) k, h)

text_leb-AtMost : (a b : Text) → text_leb a b ≡ true → AtMost a b
unfolding text_leb
text_leb-AtMost [] b h = inl (b, refl)
text_leb-AtMost (x ∷ a) [] h = absurd (ground arith)
text_leb-AtMost (x ∷ a) (y ∷ b) h = elim (Bool-cases (ltb x y)) [
  | inl e ↦ inr ([], x, y, a, b, refl, refl, ground arith)
  | inr e ↦
      let same : x ≡ y = ground arith in
      let rest : text_leb a b ≡ true = ground arith in
      subst (λ (z : ℕ). AtMost (x ∷ a) (z ∷ b)) same (AtMost-cons x a b (text_leb-AtMost a b rest))
]

text_leb_refl : (a : Text) → text_leb a a ≡ true
unfolding text_leb
text_leb_refl [] = refl
text_leb_refl (x ∷ a) = ground (arith, text_leb_refl a)

text_leb_trans : (a b c : Text) → text_leb a b ≡ true → text_leb b c ≡ true → text_leb a c ≡ true
unfolding text_leb
text_leb_trans [] b c h k = refl
text_leb_trans (x ∷ a) [] c h k = absurd (ground arith)
text_leb_trans (x ∷ a) (y ∷ b) [] h k = absurd (ground arith)
text_leb_trans (x ∷ a) (y ∷ b) (z ∷ c) h k = ground (arith, text_leb_trans a b c)

text_leb_total : (a b : Text) → text_leb a b ≡ false → text_leb b a ≡ true
unfolding text_leb
text_leb_total [] b h = absurd (ground arith)
text_leb_total (x ∷ a) [] h = refl
text_leb_total (x ∷ a) (y ∷ b) h = ground (arith, text_leb_total a b)

-- The later of two is one of them, and is not before either.
later_is_one : (prev c : Option Text) → (later_cursor prev c ≡ prev) ⊎ (later_cursor prev c ≡ c)
unfolding later_cursor
later_is_one prev none = inl refl
later_is_one none (some c) = inr refl
later_is_one (some prev) (some c) = elim (Bool-cases (text_leb c prev)) [
  | inl e ↦ inl (rw e refl)
  | inr e ↦ inr (rw e refl)
]

later_bounds :
    (prev c : Option Text) (u : Text)
    → (some u ≡ prev) ⊎ (some u ≡ c)
    → (v : Text) × (some v ≡ later_cursor prev c) × (text_leb u v ≡ true)
unfolding later_cursor
later_bounds none none u (inl e) = absurd (ground arith)
later_bounds none none u (inr e) = absurd (ground arith)
later_bounds (some p) none u (inl e) = (u, e, text_leb_refl u)
later_bounds (some p) none u (inr e) = absurd (ground arith)
later_bounds none (some c) u (inl e) = absurd (ground arith)
later_bounds none (some c) u (inr e) = (u, e, text_leb_refl u)
later_bounds (some p) (some c) u h = elim (Bool-cases (text_leb c p)) [
  | inl e ↦ (p, rw e refl, either u h e)
  | inr e ↦ (c, rw e refl, other u h (text_leb_total c p e))
]
  where
    either :
        (u : Text)
        → (some u ≡ some p) ⊎ (some u ≡ some c)
        → text_leb c p ≡ true
        → text_leb u p ≡ true
    either u (inl k) e = ground (arith, text_leb_refl u)
    either u (inr k) e = ground arith

    other :
        (u : Text)
        → (some u ≡ some p) ⊎ (some u ≡ some c)
        → text_leb p c ≡ true
        → text_leb u c ≡ true
    other u (inl k) e = ground arith
    other u (inr k) e = ground (arith, text_leb_refl u)

-- The same with the Boolean order.
abbrev IsTop : Option Text → List (Option Text) → Type 0
IsTop none cs = (u : Text) → ¬ (In (some u) cs)
IsTop (some t) cs = In (some t) cs × ((u : Text) → In (some u) cs → text_leb u t ≡ true)

IsTop-later :
    (prev c m : Option Text) (cs : List (Option Text))
    → IsTop m (later_cursor prev c ∷ cs)
    → IsTop m (prev ∷ c ∷ cs)
IsTop-later prev c none cs h = λ u i. elim i [
  | inl e ↦ let (v, k, below) = later_bounds prev c u (inl (sym e)) in h v (inl (sym k))
  | inr (inl e) ↦ let (v, k, below) = later_bounds prev c u (inr (sym e)) in h v (inl (sym k))
  | inr (inr j) ↦ h u (inr j)
]
IsTop-later prev c (some t) cs (i, top) = (
  elim i [
    | inr j ↦ inr (inr j)
    | inl e ↦ elim (later_is_one prev c) [ inl k ↦ inl (sym k ∙ e) | inr k ↦ inr (inl (sym k ∙ e)) ]
  ],
  λ u j. elim j [
    | inl e ↦
        let (v, k, below) = later_bounds prev c u (inl (sym e)) in
        text_leb_trans u v t below (top v (inl (sym k)))
    | inr (inl e) ↦
        let (v, k, below) = later_bounds prev c u (inr (sym e)) in
        text_leb_trans u v t below (top v (inl (sym k)))
    | inr (inr j) ↦ top u (inr j)
  ],
)

latest-IsTop : (prev : Option Text) (cs : List (Option Text)) → IsTop (latest prev cs) (prev ∷ cs)
unfolding latest
latest-IsTop none [] =
    λ u i. elim i [ inl e ↦ absurd (ground arith) | inr j ↦ absurd (ground arith) ]
latest-IsTop (some t) [] =
    (inl refl, λ u i. elim i [ inl e ↦ ground (arith, text_leb_refl u) | inr j ↦ absurd j ])
latest-IsTop prev (c ∷ cs) =
    IsTop-later prev c (latest (later_cursor prev c) cs) cs (latest-IsTop (later_cursor prev c) cs)

IsTop-IsLatest : (m : Option Text) (cs : List (Option Text)) → IsTop m cs → IsLatest m cs
IsTop-IsLatest none cs h = h
IsTop-IsLatest (some t) cs (i, top) = (i, λ u j. text_leb-AtMost u t (top u j))

pub latest-IsLatest :
    (prev : Option Text) (cs : List (Option Text)) → IsLatest (latest prev cs) (prev ∷ cs)
latest-IsLatest prev cs = IsTop-IsLatest (latest prev cs) (prev ∷ cs) (latest-IsTop prev cs)

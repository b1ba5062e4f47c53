-- ===== src/Index/Tbm3/TopK/Insert.antt =====
-- Insertion into an ascending list, for a strict linear order.
use toradb.Prelude.{
  ℕ, suc, ◌≡◌, refl, sym, ap, ◌∙◌, Bool, true, false, Bool-cases, inl, inr, List, [], ◌∷◌, ◌++◌,
  arith, length, sort, put_in_order,
}
use toradb.Index.Tbm3.TopK.{push_topk, push_all}

-- Of two different elements one is above the other, and whatever is above an upper one is above.
abbrev pub IsLinear : {A : Type 0} → (A → A → Bool) → Type 0
IsLinear {A = A} above =
    ((a b : A) → above a b ≡ true → above b a ≡ false)
    × ((a b c : A) → above a b ≡ true → above b c ≡ true → above a c ≡ true)
    × ((a b : A) → above a b ≡ false → above b a ≡ false → a ≡ b)

module _ {A : Type 0} (above : A → A → Bool) where
  -- No element of the list is below the given one.
  abbrev pub NoneBelow : A → List A → Type 0
  NoneBelow a [] = Unit {0}
  NoneBelow a (x ∷ xs) = (above a x ≡ false) × NoneBelow a xs

  abbrev pub Ascends : List A → Type 0
  Ascends [] = Unit {0}
  Ascends (x ∷ xs) = NoneBelow x xs × Ascends xs

module _ {A : Type 0} (above : A → A → Bool) where
  pub push_all-append :
      (k : ℕ) (xs ys heap : List A)
      → push_all above k heap (xs ++ ys) ≡ push_all above k (push_all above k heap xs) ys
  unfolding push_all
  push_all-append k [] ys heap = refl
  push_all-append k (x ∷ xs) ys heap = push_all-append k xs ys (push_topk above k heap x)

module _ {A : Type 0} (above : A → A → Bool) (linear : IsLinear above) where
  -- What is not above the lower one is not above the upper one.
  pub not_above : (x a b : A) → above x a ≡ false → above a b ≡ false → above x b ≡ false
  not_above x a b h k = elim (Bool-cases (above x b)) [
    | inr e ↦ e
    | inl e ↦ elim (Bool-cases (above b a)) [
      | inl f ↦ absurd (ground (arith, linear.1 x b a e f))
      | inr f ↦ (ap (above x) (sym (linear.2 a b k f)) ∙ h)
    ]
  ]

  NoneBelow-trans :
      (x a : A) (ys : List A) → above x a ≡ false → NoneBelow above a ys → NoneBelow above x ys
  NoneBelow-trans x a [] h k = _
  NoneBelow-trans x a (y ∷ ys) h (k, ks) = (not_above x a y h k, NoneBelow-trans x a ys h ks)

  pub NoneBelow-put :
      (a x : A) (ys : List A)
      → above a x ≡ false
      → NoneBelow above a ys
      → NoneBelow above a (put_in_order above x ys)
  unfolding put_in_order
  NoneBelow-put a x [] h k = (h, _)
  NoneBelow-put a x (y ∷ ys) h (k, ks) = elim (Bool-cases (above x y)) [
    | inl e ↦ rw e (k, NoneBelow-put a x ys h ks)
    | inr e ↦ rw e (h, (k, ks))
  ]

  pub Ascends-put :
      (x : A) (ys : List A) → Ascends above ys → Ascends above (put_in_order above x ys)
  unfolding put_in_order
  Ascends-put x [] h = (_, _)
  Ascends-put x (y ∷ ys) (h, hs) = elim (Bool-cases (above x y)) [
    | inl e ↦ rw e (NoneBelow-put y x ys (linear.0 x y e) h, Ascends-put x ys hs)
    | inr e ↦ rw e ((e, NoneBelow-trans x y ys e h), (h, hs))
  ]

  pub Ascends-sort : (xs : List A) → Ascends above (sort above xs)
  unfolding sort
  Ascends-sort [] = _
  Ascends-sort (x ∷ xs) = Ascends-put x (sort above xs) (Ascends-sort xs)

  pub length-put : (x : A) (ys : List A) → length (put_in_order above x ys) ≡ suc (length ys)
  unfolding put_in_order
  length-put x [] = refl
  length-put x (y ∷ ys) = ground (arith, length-put x ys)

  pub length-sort : (xs : List A) → length (sort above xs) ≡ length xs
  unfolding sort
  length-sort [] = refl
  length-sort (x ∷ xs) = length-put x (sort above xs) ∙ ap suc (length-sort xs)

  -- Two insertions in either order.
  pub put-put :
      (x y : A) (zs : List A)
      → put_in_order above x (put_in_order above y zs)
        ≡ put_in_order above y (put_in_order above x zs)
  unfolding put_in_order
  put-put x y [] = ground (arith, linear.0 x y, linear.2 x y)
  put-put x y (z ∷ zs) = ground (
    arith,
    put-put x y zs,
    linear.0 x y,
    linear.0 y x,
    linear.1 x y z,
    linear.1 y x z,
    linear.2 x y,
    linear.2 x z,
    linear.2 y z,
    linear.0 x z,
    linear.0 y z,
    not_above x y z,
    not_above y x z,
  )

-- ===== src/Index/Tbm3/TopK/Inserted.antt =====
-- Lists inserted into ascending lists: the order of the insertions does not matter.
use toradb.Prelude.{
  ◌+◌, ◌≡◌, refl, sym, ap, ◌∙◌, Bool, Bool-cases, inl, inr, List, [], ◌∷◌, ◌++◌, arith, length,
  sort, put_in_order,
}
use toradb.Index.Tbm3.TopK.Insert.{IsLinear, NoneBelow, Ascends, Ascends-put, length-put, put-put}
use toradb.Index.Tbm3.TopK.Best.{put_all, put-put_all, put_all-sort}

module _ {A : Type 0} (above : A → A → Bool) (linear : IsLinear above) where
  put_all-put :
      (x : A) (ys zs : List A)
      → put_all above linear zs (put_in_order above x ys)
        ≡ put_in_order above x (put_all above linear zs ys)
  unfolding put_all put_in_order
  put_all-put x [] zs = refl
  put_all-put x (y ∷ ys) zs = elim (Bool-cases (above x y)) [
    | inl e ↦ rw e (put_all-put x ys (put_in_order above y zs))
    | inr e ↦ rw e (
        ap (λ (l : List A). put_all above linear l ys) (put-put above linear y x zs)
        ∙ put-put_all above linear x ys (put_in_order above y zs))
  ]

  pub put_all-sort_right :
      (xs zs : List A) → put_all above linear zs (sort above xs) ≡ put_all above linear zs xs
  unfolding put_all sort
  put_all-sort_right [] zs = refl
  put_all-sort_right (x ∷ xs) zs =
      put_all-put x (sort above xs) zs
      ∙ ap (put_in_order above x) (put_all-sort_right xs zs)
      ∙ sym (put-put_all above linear x xs zs)

  pub put_all-append :
      (xs ys zs : List A)
      → put_all above linear zs (xs ++ ys) ≡ put_all above linear (put_all above linear zs xs) ys
  unfolding put_all
  put_all-append [] ys zs = refl
  put_all-append (x ∷ xs) ys zs = put_all-append xs ys (put_in_order above x zs)

  pub put_all_comm :
      (xs ys zs : List A)
      → put_all above linear (put_all above linear zs xs) ys
        ≡ put_all above linear (put_all above linear zs ys) xs
  unfolding put_all
  put_all_comm [] ys zs = refl
  put_all_comm (x ∷ xs) ys zs =
      put_all_comm xs ys (put_in_order above x zs)
      ∙ ap (λ (l : List A). put_all above linear l xs) (put-put_all above linear x ys zs)

  pub Ascends-put_all :
      (xs ys : List A) → Ascends above ys → Ascends above (put_all above linear ys xs)
  unfolding put_all
  Ascends-put_all [] ys h = h
  Ascends-put_all (x ∷ xs) ys h =
      Ascends-put_all xs (put_in_order above x ys) (Ascends-put above linear x ys h)

  pub length-put_all :
      (xs ys : List A) → length (put_all above linear ys xs) ≡ length ys + length xs
  unfolding put_all
  length-put_all [] ys = omega arith
  length-put_all (x ∷ xs) ys =
      omega (arith, length-put_all xs (put_in_order above x ys), length-put above linear x ys)

  sort-Ascends : (xs : List A) → Ascends above xs → sort above xs ≡ xs
  unfolding sort
  sort-Ascends [] h = refl
  sort-Ascends (x ∷ xs) (h, hs) = ap (put_in_order above x) (sort-Ascends xs hs) ∙ put_first x xs h
    where
      put_first : (x : A) (xs : List A) → NoneBelow above x xs → put_in_order above x xs ≡ x ∷ xs
      put_first x [] h = unfold put_in_order in refl
      put_first x (y ∷ ys) (h, hs) = unfold put_in_order in rw h refl

  -- Two ascending lists, one put into the other.
  pub put_all_swap :
      (xs ys : List A)
      → Ascends above xs
      → Ascends above ys
      → put_all above linear xs ys ≡ put_all above linear ys xs
  put_all_swap xs ys h k =
      let from_empty : (zs : List A) → Ascends above zs → put_all above linear [] zs ≡ zs =
        λ zs a. put_all-sort above linear zs ∙ sort-Ascends zs a in
      ap (λ (l : List A). put_all above linear l ys) (sym (from_empty xs h))
      ∙ put_all_comm xs ys []
      ∙ ap (λ (l : List A). put_all above linear l xs) (from_empty ys k)

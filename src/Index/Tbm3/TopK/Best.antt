-- ===== src/Index/Tbm3/TopK/Best.antt =====
-- A heap that takes elements one after the other keeps the best ones.
use toradb.Prelude.{
  ℕ, zero, suc, ◌-◌, ◌≤◌, ◌≡◌, refl, sym, ap, ◌∙◌, Bool, false, Bool-cases, inl, inr, List, [], ◌∷◌,
  arith, ltb, leb, if◌then◌else◌, length, drop, take, sort, put_in_order, length-drop,
}
use mathlib.Core.Path.{subst}
use toradb.Index.Tbm3.TopK.{push_topk, push_all, best_first}
use toradb.Index.Tbm3.TopK.Insert.{
  IsLinear, NoneBelow, Ascends, not_above, Ascends-put, Ascends-sort, length-put, length-sort,
  put-put,
}

module _ {A : Type 0} (above : A → A → Bool) (linear : IsLinear above) where
  -- A full heap with one more element and without the least.
  unfoldable pub displaced : A → List A → List A
  displaced x [] = []
  displaced x (m ∷ rest) = if above x m then put_in_order above x rest else m ∷ rest

  pub displaced_by_low :
      (x y : A) (d : ℕ) (ys : List A)
      → above x y ≡ false
      → NoneBelow above y ys
      → displaced x (drop d ys) ≡ drop d ys
  unfolding displaced
  displaced_by_low x y zero [] h k = refl
  displaced_by_low x y (suc d) [] h k = refl
  displaced_by_low x y zero (z ∷ zs) h (k, ks) =
      let e = not_above above linear x y z h k in rw e refl
  displaced_by_low x y (suc d) (z ∷ zs) h (k, ks) = displaced_by_low x y d zs h ks

  pub displaced-drop :
      (x : A) (d : ℕ) (ys : List A)
      → Ascends above ys
      → displaced x (drop d ys) ≡ drop (suc d) (put_in_order above x ys)
  unfolding displaced put_in_order
  displaced-drop x zero [] h = refl
  displaced-drop x (suc d) [] h = refl
  displaced-drop x zero (y ∷ ys) h = elim (Bool-cases (above x y)) [
    | inl e ↦ rw e refl
    | inr e ↦ rw e refl
  ]
  displaced-drop x (suc d) (y ∷ ys) (h, hs) = elim (Bool-cases (above x y)) [
    | inl e ↦ rw e (displaced-drop x d ys hs)
    | inr e ↦ rw e (displaced_by_low x y d ys e h)
  ]

  -- The last k elements of an ascending list.
  abbrev pub last_of : ℕ → List A → List A
  last_of k ys = drop (length ys - k) ys

  pub push_topk-last_of :
      (k : ℕ) (x : A) (ys : List A)
      → Ascends above ys
      → push_topk above k (last_of k ys) x ≡ last_of k (put_in_order above x ys)
  unfolding push_topk
  push_topk-last_of k x ys h = elim (Bool-cases (ltb (length ys) k)) [
    | inl few ↦
        let none : length ys - k ≡ 0 = ground arith in
        let none' : suc (length ys) - k ≡ 0 = ground arith in
        rw (length-put above linear x ys, none, none', few) refl
    | inr many ↦
        let full : ltb (length (drop (length ys - k) ys)) k ≡ false =
          ground (arith, length-drop (length ys - k) ys) in
        let more : suc (length ys) - k ≡ suc (length ys - k) = ground arith in
        rw (length-put above linear x ys, more, full)
          (pushed (drop (length ys - k) ys) ∙ displaced-drop x (length ys - k) ys h)
  ]
    where
      pushed :
          (heap : List A)
          → (elim heap [
            | [] ↦ []
            | least ∷ rest ↦ if above x least then put_in_order above x rest else least ∷ rest
          ])
            ≡ displaced x heap
      pushed [] = unfold displaced in refl
      pushed (m ∷ rest) = unfold displaced in refl

  -- The elements of a list inserted one after the other.
  unfoldable pub put_all : List A → List A → List A
  put_all ys [] = ys
  put_all ys (x ∷ xs) = put_all (put_in_order above x ys) xs

  pub push_all-last_of :
      (k : ℕ) (xs ys : List A)
      → Ascends above ys
      → push_all above k (last_of k ys) xs ≡ last_of k (put_all ys xs)
  unfolding push_all put_all
  push_all-last_of k [] ys h = refl
  push_all-last_of k (x ∷ xs) ys h =
      ap (λ (heap : List A). push_all above k heap xs) (push_topk-last_of k x ys h)
      ∙ push_all-last_of k xs (put_in_order above x ys) (Ascends-put above linear x ys h)

  pub put-put_all :
      (x : A) (xs ys : List A)
      → put_all (put_in_order above x ys) xs ≡ put_in_order above x (put_all ys xs)
  unfolding put_all
  put-put_all x [] ys = refl
  put-put_all x (z ∷ xs) ys =
      ap (λ (l : List A). put_all l xs) (put-put above linear z x ys)
      ∙ put-put_all x xs (put_in_order above z ys)

  pub put_all-sort : (xs : List A) → put_all [] xs ≡ sort above xs
  unfolding put_all sort
  put_all-sort [] = refl
  put_all-sort (x ∷ xs) = put-put_all x xs [] ∙ ap (put_in_order above x) (put_all-sort xs)

  pub push_all-sort : (k : ℕ) (xs : List A) → push_all above k [] xs ≡ last_of k (sort above xs)
  push_all-sort k xs =
      let none : drop (0 - k) [] ≡ [] = let e : 0 - k ≡ 0 = omega arith in rw e in
      ap (λ (heap : List A). push_all above k heap xs) (sym none)
      ∙ push_all-last_of k xs [] _
      ∙ ap (last_of k) (put_all-sort xs)

take_long : {A : Type 0} (k : ℕ) (xs : List A) → length xs ≤ k → take k xs ≡ xs
take_long zero [] h = refl
take_long zero (x ∷ xs) h = absurd (omega arith)
take_long (suc k) [] h = refl
take_long (suc k) (x ∷ xs) h = ap (λ (t : List _). x ∷ t) (take_long k xs (omega arith))

-- The other way round.
module _ {A : Type 0} (above : A → A → Bool) (linear : IsLinear above) where
  IsLinear-flip : IsLinear (λ (a b : A). above b a)
  IsLinear-flip =
      (λ a b h. linear.0 b a h, λ a b c h k. linear.1 c b a k h, λ a b h k. linear.2 a b k h)

  -- Sorting twice, in opposite orders, is sorting once.
  best_first-put :
      (x : A) (ys : List A)
      → best_first above (put_in_order above x ys)
        ≡ put_in_order (λ a b. above b a) x (best_first above ys)
  unfolding best_first sort put_in_order
  best_first-put x [] = refl
  best_first-put x (y ∷ ys) = elim (Bool-cases (above x y)) [
    | inl e ↦ rw e (
        ap (put_in_order (λ a b. above b a) y) (best_first-put x ys)
        ∙ put-put (λ a b. above b a) IsLinear-flip y x (best_first above ys))
    | inr e ↦ rw e refl
  ]

  best_first-sort : (xs : List A) → best_first above (sort above xs) ≡ best_first above xs
  unfolding best_first sort
  best_first-sort [] = refl
  best_first-sort (x ∷ xs) =
      best_first-put x (sort above xs) ∙ ap (put_in_order (λ a b. above b a) x) (best_first-sort xs)

  all_same :
      (k : ℕ) (z : A) (zs : List A)
      → k ≤ length zs
      → NoneBelow above z zs
      → NoneBelow (λ a b. above b a) z zs
      → take k (z ∷ zs) ≡ take k zs
  all_same zero z zs h low high = refl
  all_same (suc k) z [] h low high = absurd (omega arith)
  all_same (suc k) z (w ∷ zs) h (l, low) (u, high) =
      let same : z ≡ w = linear.2 z w l u in cc (same, all_same k z zs (omega arith) low high)

  -- The least element comes last.
  take-put_least :
      (k : ℕ) (y : A) (zs : List A)
      → k ≤ length zs
      → NoneBelow above y zs
      → Ascends (λ a b. above b a) zs
      → take k (put_in_order (λ a b. above b a) y zs) ≡ take k zs
  unfolding put_in_order
  take-put_least zero y zs h low down = refl
  take-put_least (suc k) y [] h low down = absurd (omega arith)
  take-put_least (suc k) y (z ∷ zs) h (l, low) (d, down) = elim (Bool-cases (above z y)) [
    | inl e ↦ rw e (ap (λ (t : List A). z ∷ t) (take-put_least k y zs (omega arith) low down))
    | inr e ↦
        let same : y ≡ z = linear.2 y z l e in
        rw (e, same)
          (ap (λ (t : List A). z ∷ t)
            (all_same k z zs (omega arith) (subst (λ (w : A). NoneBelow above w zs) same low) d))
  ]

  NoneBelow-put_flip :
      (a x : A) (ys : List A)
      → above a x ≡ false
      → NoneBelow above a ys
      → NoneBelow above a (put_in_order (λ a b. above b a) x ys)
  unfolding put_in_order
  NoneBelow-put_flip a x [] h k = (h, _)
  NoneBelow-put_flip a x (y ∷ ys) h (k, ks) = elim (Bool-cases (above y x)) [
    | inl e ↦ rw e (k, NoneBelow-put_flip a x ys h ks)
    | inr e ↦ rw e (h, (k, ks))
  ]

  NoneBelow-best_first :
      (a : A) (ys : List A) → NoneBelow above a ys → NoneBelow above a (best_first above ys)
  unfolding best_first sort
  NoneBelow-best_first a [] h = _
  NoneBelow-best_first a (y ∷ ys) (h, hs) =
      NoneBelow-put_flip a y (best_first above ys) h (NoneBelow-best_first a ys hs)

  take-best_first :
      (d : ℕ) (ys : List A)
      → Ascends above ys
      → take (length ys - d) (best_first above ys) ≡ best_first above (drop d ys)
  unfolding best_first sort
  take-best_first zero ys h =
      let e : length ys - 0 ≡ length ys = omega arith in
      rw e (
        take_long _ (best_first above ys)
          (omega (arith, length-sort (λ a b. above b a) IsLinear-flip ys)))
  take-best_first (suc d) [] h = let e : 0 - suc d ≡ 0 = omega arith in rw e
  take-best_first (suc d) (y ∷ ys) (h, hs) =
      let e : suc (length ys) - suc d ≡ length ys - d = omega arith in
      rw e (
        take-put_least (length ys - d) y (best_first above ys)
          (omega (arith, length-sort (λ a b. above b a) IsLinear-flip ys))
          (NoneBelow-best_first y ys h) (Ascends-sort (λ a b. above b a) IsLinear-flip ys)
        ∙ take-best_first d ys hs)

  pub best_first-push_all :
      (k : ℕ) (xs : List A)
      → best_first above (push_all above k [] xs) ≡ take k (best_first above xs)
  unfolding best_first
  best_first-push_all k xs =
      let n = length (sort above xs) in
      let best = best_first above xs in
      let size : length best ≡ length xs = length-sort (λ a b. above b a) IsLinear-flip xs in
      let size' : n ≡ length xs = length-sort above linear xs in
      ap (best_first above) (push_all-sort above linear k xs)
      ∙ sym (take-best_first (n - k) (sort above xs) (Ascends-sort above linear xs))
      ∙ ap (take (n - (n - k))) (best_first-sort xs)
      ∙ elim (Bool-cases (leb k n)) [
        | inl e ↦ let same : n - (n - k) ≡ k = ground arith in rw same
        | inr e ↦
            take_long (n - (n - k)) best (ground arith) ∙ sym (take_long k best (ground arith))
      ]

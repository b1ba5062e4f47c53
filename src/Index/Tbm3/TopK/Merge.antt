-- ===== src/Index/Tbm3/TopK/Merge.antt =====
-- The best elements of parts, merged: the best elements of all.
use toradb.Prelude.{
  ℕ, zero, suc, ◌-◌, ◌≤◌, ◌≡◌, refl, sym, ap, ◌∙◌, Bool, false, Bool-cases, inl, inr, List, [], ◌∷◌,
  arith, leb, concat, length, drop, take, sort, put_in_order, length-drop, take-append-drop, map,
}
use mathlib.Core.Path.{subst}
use toradb.Index.Tbm3.TopK.{push_all}
use toradb.Index.Tbm3.TopK.Insert.{
  IsLinear, NoneBelow-put, NoneBelow, Ascends, Ascends-put, Ascends-sort, length-put,
  push_all-append,
}
use toradb.Index.Tbm3.TopK.Best.{
  displaced, displaced-drop, last_of, put_all, push_all-last_of, push_all-sort,
}
use toradb.Index.Tbm3.TopK.Inserted.{
  put_all-sort_right, put_all-append, put_all_comm, Ascends-put_all, length-put_all, put_all_swap,
}

module _ {A : Type 0} (above : A → A → Bool) (linear : IsLinear above) where
  -- Where there are k elements at least, one more displaces the least of the last k.
  last_of-put :
      (k : ℕ) (x : A) (ys : List A)
      → Ascends above ys
      → k ≤ length ys
      → last_of above linear k (put_in_order above x ys)
        ≡ displaced above linear x (last_of above linear k ys)
  last_of-put k x ys h long =
      let more : suc (length ys) - k ≡ suc (length ys - k) = omega arith in
      rw (length-put above linear x ys, more)
        (sym (displaced-drop above linear x (length ys - k) ys h))

  displaced_low : (x : A) (ys : List A) → NoneBelow above x ys → displaced above linear x ys ≡ ys
  unfolding displaced
  displaced_low x [] h = refl
  displaced_low x (y ∷ ys) (h, hs) = rw h refl

  NoneBelow-displaced :
      (l s : A) (ys : List A)
      → NoneBelow above l ys
      → NoneBelow above l (displaced above linear s ys)
  unfolding displaced
  NoneBelow-displaced l s [] h = h
  NoneBelow-displaced l s (m ∷ rest) (h, hs) = elim (Bool-cases (above s m)) [
    | inr e ↦ rw e (h, hs)
    | inl e ↦
        let low : above l s ≡ false = ground (arith, linear.1 l s m) in
        rw e (NoneBelow-put above linear l s rest low hs)
  ]

  NoneBelow-put_all :
      (k : ℕ) (l : A) (zs ys : List A)
      → Ascends above ys
      → k ≤ length ys
      → NoneBelow above l (last_of above linear k ys)
      → NoneBelow above l (last_of above linear k (put_all above linear ys zs))
  unfolding put_all
  NoneBelow-put_all k l [] ys h long low = low
  NoneBelow-put_all k l (z ∷ zs) ys h long low =
      NoneBelow-put_all k l zs (put_in_order above z ys) (Ascends-put above linear z ys h)
        (omega (arith, length-put above linear z ys))
        (subst (NoneBelow above l) (sym (last_of-put k z ys h long))
          (NoneBelow-displaced l z (last_of above linear k ys) low))

  abbrev AllLow : List A → List A → Type 0
  AllLow [] ys = Unit {0}
  AllLow (l ∷ ls) ys = NoneBelow above l ys × AllLow ls ys

  last_of-put_all_low :
      (k : ℕ) (ls ys : List A)
      → Ascends above ys
      → k ≤ length ys
      → AllLow ls (last_of above linear k ys)
      → last_of above linear k (put_all above linear ys ls) ≡ last_of above linear k ys
  unfolding put_all
  last_of-put_all_low k [] ys h long low = refl
  last_of-put_all_low k (l ∷ ls) ys h long (low, lows) =
      let same = last_of-put k l ys h long ∙ displaced_low l (last_of above linear k ys) low in
      last_of-put_all_low k ls (put_in_order above l ys) (Ascends-put above linear l ys h)
        (omega (arith, length-put above linear l ys)) (subst (AllLow ls) (sym same) lows)
      ∙ same

  -- The front of an ascending list is low for its end.
  NoneBelow-drop :
      (d : ℕ) (l : A) (ys : List A) → NoneBelow above l ys → NoneBelow above l (drop d ys)
  NoneBelow-drop zero l ys h = h
  NoneBelow-drop (suc d) l [] h = h
  NoneBelow-drop (suc d) l (y ∷ ys) (h, hs) = NoneBelow-drop d l ys hs

  Ascends-drop : (d : ℕ) (ys : List A) → Ascends above ys → Ascends above (drop d ys)
  Ascends-drop zero ys h = h
  Ascends-drop (suc d) [] h = h
  Ascends-drop (suc d) (y ∷ ys) (h, hs) = Ascends-drop d ys hs

  take-AllLow : (d : ℕ) (ys : List A) → Ascends above ys → AllLow (take d ys) (drop d ys)
  take-AllLow zero ys h = _
  take-AllLow (suc d) [] h = _
  take-AllLow (suc d) (y ∷ ys) (h, hs) = (NoneBelow-drop d y ys h, take-AllLow d ys hs)

  AllLow-put_all :
      (k : ℕ) (ls zs ys : List A)
      → Ascends above ys
      → k ≤ length ys
      → AllLow ls (last_of above linear k ys)
      → AllLow ls (last_of above linear k (put_all above linear ys zs))
  AllLow-put_all k [] zs ys h long low = _
  AllLow-put_all k (l ∷ ls) zs ys h long (low, lows) =
      (NoneBelow-put_all k l zs ys h long low, AllLow-put_all k ls zs ys h long lows)

  -- Of an ascending list, only the last k matter for the last k.
  last_of-put_all_last :
      (k : ℕ) (zs ys : List A)
      → Ascends above zs
      → Ascends above ys
      → last_of above linear k (put_all above linear ys (last_of above linear k zs))
        ≡ last_of above linear k (put_all above linear ys zs)
  last_of-put_all_last k zs ys hz hy = elim (Bool-cases (leb (length zs) k)) [
    | inl few ↦ let e : length zs - k ≡ 0 = ground arith in rw e refl
    | inr many ↦
        let d = length zs - k in
        let low = take d zs in
        let high = drop d zs in
        let size : length high ≡ k = ground (arith, length-drop d zs) in
        let size' : length high - k ≡ 0 = omega arith in
        let up : Ascends above high = Ascends-drop d zs hz in
        let t = put_all above linear ys high in
        let lows : AllLow low (last_of above linear k high) =
          subst (λ (n : ℕ). AllLow low (drop n high)) (sym size') (take-AllLow d zs hz) in
        let lows' : AllLow low (last_of above linear k t) =
          subst (λ (l : List A). AllLow low (last_of above linear k l))
            (put_all_swap above linear high ys up hy)
            (AllLow-put_all k low ys high up (omega arith) lows) in
        sym (
          last_of-put_all_low k low t (Ascends-put_all above linear high ys hy)
            (omega (arith, length-put_all above linear high ys)) lows')
        ∙ ap (last_of above linear k) (
            sym (put_all_comm above linear low high ys)
            ∙ sym (put_all-append above linear low high ys)
            ∙ ap (put_all above linear ys) (take-append-drop d zs))
  ]

  push_all-heaps :
      (k : ℕ) (parts : List (List A)) (ys : List A)
      → Ascends above ys
      → push_all above k (last_of above linear k ys) (concat (map (push_all above k []) parts))
        ≡ push_all above k (last_of above linear k ys) (concat parts)
  push_all-heaps k [] ys h = refl
  push_all-heaps k (p ∷ ps) ys h =
      let heap = push_all above k [] p in
      let heaps = concat (map (push_all above k []) ps) in
      let ys' = put_all above linear ys p in
      let first : push_all above k (last_of above linear k ys) heap ≡ last_of above linear k ys' =
        ap (push_all above k (last_of above linear k ys)) (push_all-sort above linear k p)
        ∙ push_all-last_of above linear k (last_of above linear k (sort above p)) ys h
        ∙ last_of-put_all_last k (sort above p) ys (Ascends-sort above linear p) h
        ∙ ap (last_of above linear k) (put_all-sort_right above linear p ys) in
      push_all-append above k heap heaps (last_of above linear k ys)
      ∙ ap (λ (l : List A). push_all above k l heaps) first
      ∙ push_all-heaps k ps ys' (Ascends-put_all above linear p ys h)
      ∙ ap (λ (l : List A). push_all above k l (concat ps))
          (sym (push_all-last_of above linear k p ys h))
      ∙ sym (push_all-append above k p (concat ps) (last_of above linear k ys))

  -- The heaps of the parts, pushed into one heap, leave what all elements leave.
  pub push_all-merged :
      (k : ℕ) (parts : List (List A))
      → push_all above k [] (concat (map (push_all above k []) parts))
        ≡ push_all above k [] (concat parts)
  push_all-merged k parts =
      let e : 0 - k ≡ 0 = omega arith in
      let none : last_of above linear k [] ≡ [] = rw e in
      subst
        (λ (l : List A).
          push_all above k l (concat (map (push_all above k []) parts))
          ≡ push_all above k l (concat parts))
        none (push_all-heaps k parts [] _)

-- ===== src/Core/Candidate/Pairs.antt =====
-- The two lists of a candidate set read as one list of pairs, and what the operations do to it.
use toradb.Prelude.{
  ℕ, zero, suc, ◌+◌, ◌-◌, ◌%◌, ◌^◌, ◌<◌, ◌≤◌, ◌≡◌, refl, sym, ap, ◌∙◌, Bool, true, not, Bool-cases,
  inl, inr, Option, none, some, List, [], ◌∷◌, ◌++◌, append_assoc, arith, length, get_elem?, take,
  drop, ltb, leb, if◌then◌else◌, filter_map, retain, nat_eq, min, length-append, length-take,
  length-drop,
}
use toradb.Collections.Keys.{contains}
use toradb.Core.Candidate.{
  CandidateSet, zip, empty, len, push, reorder, remove_ids, remove_from, slice_range, range,
  is_empty,
}

range_ok :
    {A : Type 0} (a b : ℕ) (xs : List A)
    → a ≤ b
    → b ≤ length xs
    → range a b xs ≡ some (take (b - a) (drop a xs))
unfolding range
range_ok a b xs h k = ground arith

length-range :
    {A : Type 0} (a b : ℕ) (xs : List A)
    → a ≤ b
    → b ≤ length xs
    → length (take (b - a) (drop a xs)) ≡ b - a
length-range a b xs h k = omega (arith, length-take (b - a) (drop a xs), length-drop a xs)

take_short : {A : Type 0} (n m : ℕ) (xs : List A) → length xs ≤ n → take n xs ≡ xs
take_short zero m [] h = refl
take_short zero m (x ∷ xs) h = absurd (omega arith)
take_short (suc n) m [] h = refl
take_short (suc n) m (x ∷ xs) h = ap (λ ys. x ∷ ys) (take_short n m xs (omega arith))

drop_short : {A : Type 0} (n : ℕ) (xs : List A) → length xs ≤ n → drop n xs ≡ []
drop_short zero [] h = refl
drop_short zero (x ∷ xs) h = absurd (omega arith)
drop_short (suc n) [] h = refl
drop_short (suc n) (x ∷ xs) h = drop_short n xs (omega arith)

take_rest :
    {A : Type 0} (offset limit : ℕ) (xs : List A)
    → offset < length xs
    → take (min (offset + limit) (length xs) - offset) (drop offset xs)
      ≡ take limit (drop offset xs)
take_rest offset limit xs h = elim (Bool-cases (leb (offset + limit) (length xs))) [
  | inl e ↦ ap (λ (k : ℕ). take k (drop offset xs)) (ground arith)
  | inr e ↦
      take_short _ 0 (drop offset xs) (ground (arith, length-drop offset xs))
      ∙ sym (take_short limit 0 (drop offset xs) (ground (arith, length-drop offset xs)))
]

take_nothing : {A : Type 0} (n : ℕ) → take {A = A} n [] ≡ []
take_nothing zero = refl
take_nothing (suc n) = refl

not_in_nil : (i : ℕ) → not (contains i []) ≡ true
unfolding contains
not_in_nil i = refl

module _ {S : Type 0} where
  -- Every id has its score.
  abbrev pub IsPaired : CandidateSet S → Type 0
  IsPaired c = length c.ids ≡ length c.scores

  abbrev pub pairs : CandidateSet S → List (ℕ × S)
  pairs c = zip c.ids c.scores

  pub push-IsPaired : (id : ℕ) (s : S) (c : CandidateSet S) → IsPaired c → IsPaired (push id s c)
  unfolding push
  push-IsPaired id s c h =
      omega (arith, length-append c.ids (id ∷ []), length-append c.scores (s ∷ []))

  pub zip-append :
      (is : List ℕ) (ss : List S) (i : ℕ) (s : S)
      → length is ≡ length ss
      → zip (is ++ i ∷ []) (ss ++ s ∷ []) ≡ zip is ss ++ (i, s) ∷ []
  unfolding zip
  zip-append [] [] i s h = refl
  zip-append [] (t ∷ ss) i s h = absurd (omega arith)
  zip-append (j ∷ is) [] i s h = absurd (omega arith)
  zip-append (j ∷ is) (t ∷ ss) i s h = ap (λ ps. (j, t) ∷ ps) (zip-append is ss i s (omega arith))

  zip_nil : (ss : List S) → zip [] ss ≡ []
  unfolding zip
  zip_nil ss = refl

  zip-take : (n : ℕ) (is : List ℕ) (ss : List S) → zip (take n is) (take n ss) ≡ take n (zip is ss)
  unfolding zip
  zip-take zero is ss = refl
  zip-take (suc n) [] ss = refl
  zip-take (suc n) (i ∷ is) [] = refl
  zip-take (suc n) (i ∷ is) (s ∷ ss) = ap (λ ps. (i, s) ∷ ps) (zip-take n is ss)

  zip-drop :
      (n : ℕ) (is : List ℕ) (ss : List S)
      → length is ≡ length ss
      → zip (drop n is) (drop n ss) ≡ drop n (zip is ss)
  unfolding zip
  zip-drop zero is ss h = refl
  zip-drop (suc n) [] [] h = refl
  zip-drop (suc n) [] (s ∷ ss) h = absurd (omega arith)
  zip-drop (suc n) (i ∷ is) [] h = absurd (omega arith)
  zip-drop (suc n) (i ∷ is) (s ∷ ss) h = zip-drop n is ss (omega arith)

  length-zip : (is : List ℕ) (ss : List S) → length is ≡ length ss → length (zip is ss) ≡ length is
  unfolding zip
  length-zip [] ss h = refl
  length-zip (i ∷ is) [] h = absurd (omega arith)
  length-zip (i ∷ is) (s ∷ ss) h = ap suc (length-zip is ss (omega arith))

  get-zip :
      (n : ℕ) (is : List ℕ) (ss : List S)
      → n < length is
      → length is ≡ length ss
      → (i : ℕ) × (s : S) × (get_elem? is n ≡ some i)
        × (get_elem? ss n ≡ some s)
        × (get_elem? (zip is ss) n ≡ some (i, s))
  unfolding zip
  get-zip n [] ss h e = absurd (omega arith)
  get-zip n (i ∷ is) [] h e = absurd (omega arith)
  get-zip zero (i ∷ is) (s ∷ ss) h e = (i, s, refl, refl, refl)
  get-zip (suc n) (i ∷ is) (s ∷ ss) h e = get-zip n is ss (omega arith) (omega arith)

  get-zip-none :
      (n : ℕ) (is : List ℕ) (ss : List S) → length is ≤ n → get_elem? (zip is ss) n ≡ none
  unfolding zip
  get-zip-none n [] ss h = refl
  get-zip-none n (i ∷ is) [] h = refl
  get-zip-none zero (i ∷ is) (s ∷ ss) h = absurd (omega arith)
  get-zip-none (suc n) (i ∷ is) (s ∷ ss) h = get-zip-none n is ss (omega arith)

  filter_map-some :
      (f : ℕ → Option (ℕ × S)) (n : ℕ) (ns : List ℕ) (y : ℕ × S)
      → f n ≡ some y
      → filter_map f (n ∷ ns) ≡ y ∷ filter_map f ns
  unfolding filter_map
  filter_map-some f n ns y h = rw (h, filter_map) refl

  filter_map-none :
      (f : ℕ → Option (ℕ × S)) (n : ℕ) (ns : List ℕ)
      → f n ≡ none
      → filter_map f (n ∷ ns) ≡ filter_map f ns
  unfolding filter_map
  filter_map-none f n ns h = rw (h, filter_map) refl

  zip_cons :
      (i : ℕ) (s : S) (is : List ℕ) (ss : List S) → zip (i ∷ is) (s ∷ ss) ≡ (i, s) ∷ zip is ss
  unfolding zip
  zip_cons i s is ss = refl

  -- On a paired set `reorder` does not panic, and gives the pairs at the indices that exist, in
  -- their order.
  pub reorder-pairs :
      (order : List ℕ) (c : CandidateSet S)
      → IsPaired c
      → (d : CandidateSet S) × (reorder order c ≡ some d)
        × (pairs d ≡ filter_map (get_elem? (pairs c)) order)
        × IsPaired d
  unfolding reorder empty len
  reorder-pairs [] c h = (empty, refl, (unfold zip filter_map in refl), refl)
  reorder-pairs (n ∷ order) c h =
      let (d, e, p, q) = reorder-pairs order c h in
      elim (Bool-cases (ltb n (length c.ids))) [
        | inl small ↦
            let (i, s, a, b, z) = get-zip n c.ids c.scores (ground arith) h in
            (
              record { ids = i ∷ d.ids; scores = s ∷ d.scores },
              rw (small, a, b, e) refl,
              zip_cons i s d.ids d.scores
                  ∙ ap (λ ps. (i, s) ∷ ps) p
                  ∙ sym (filter_map-some (get_elem? (pairs c)) n order (i, s) z),
              ap suc q,
            )
        | inr large ↦
            let z = get-zip-none n c.ids c.scores (ground arith) in
            (d, rw (large, e) refl, p ∙ sym (filter_map-none (get_elem? (pairs c)) n order z), q)
      ]

  skip_retain :
      (p : ℕ × S → Bool) (x : ℕ × S) (xs : List (ℕ × S))
      → retain p (x ∷ xs) ≡ (if p x then x ∷ retain p xs else retain p xs)
  unfolding retain
  skip_retain p x xs = refl

  get-append :
      (before : List S) (s : S) (ss : List S)
      → get_elem? (before ++ s ∷ ss) (length before) ≡ some s
  get-append [] s ss = refl
  get-append (b ∷ before) s ss = get-append before s ss

  -- The loop of `remove_ids` after `before` scores.
  remove_from-pairs :
      (deleted ids : List ℕ) (before scores : List S)
      → length ids ≡ length scores
      → (d : CandidateSet S) × (remove_from deleted (length before) ids (before ++ scores) ≡ some d)
        × (pairs d ≡ retain (λ p. not (contains p.0 deleted)) (zip ids scores))
        × IsPaired d
  unfolding remove_from empty
  remove_from-pairs deleted [] before [] h = (empty, refl, (unfold zip retain in refl), refl)
  remove_from-pairs deleted [] before (s ∷ ss) h = absurd (omega arith)
  remove_from-pairs deleted (i ∷ ids) before [] h = absurd (omega arith)
  remove_from-pairs deleted (i ∷ ids) before (s ∷ ss) h =
      let whole : before ++ s ∷ ss ≡ (before ++ s ∷ []) ++ ss =
        sym (append_assoc before (s ∷ []) ss) in
      let at : length (before ++ s ∷ []) ≡ suc (length before) =
        omega (arith, length-append before (s ∷ [])) in
      let (d, e, p, q) = remove_from-pairs deleted ids (before ++ s ∷ []) ss (omega arith) in
      let e' : remove_from deleted (suc (length before)) ids (before ++ s ∷ ss) ≡ some d =
        cc (e, at, whole) in
      let keep : pairs d ≡ retain (λ p. not (contains p.0 deleted)) (zip ids ss) = p in
      let split = skip_retain (λ p. not (contains p.0 deleted)) (i, s) (zip ids ss) in
      elim (Bool-cases (contains i deleted)) [
        | inl gone ↦ (d, rw (gone, e') refl, rw (zip_cons i s ids ss, split, gone) keep, q)
        | inr kept ↦ (
          record { ids = i ∷ d.ids; scores = s ∷ d.scores },
          rw (kept, get-append before s ss, e') refl,
          rw (zip_cons i s ids ss, split, kept, zip_cons i s d.ids d.scores)
              (ap (λ ps. (i, s) ∷ ps) keep),
          ap suc q,
        )
      ]

  retain_all :
      (p : ℕ × S → Bool) (xs : List (ℕ × S)) → ((x : ℕ × S) → p x ≡ true) → retain p xs ≡ xs
  unfolding retain
  retain_all p [] h = refl
  retain_all p (x ∷ xs) h = rw (h x, retain) (ap (λ ys. x ∷ ys) (retain_all p xs h))

  no_pairs :
      (gone : List ℕ) (c : CandidateSet S)
      → is_empty c.ids ≡ true
      → pairs c ≡ retain (λ p. not (contains p.0 gone)) (pairs c)
  unfolding zip retain is_empty
  no_pairs gone c e = no_pairs_list c.ids c.scores e
    where
      no_pairs_list :
          (is : List ℕ) (ss : List S)
          → is_empty is ≡ true
          → zip is ss ≡ retain (λ p. not (contains p.0 gone)) (zip is ss)
      no_pairs_list [] ss h = refl
      no_pairs_list (i ∷ is) ss h = absurd (ground arith)

  -- On a paired set `remove_ids` does not panic, and keeps the pairs whose id is not deleted.
  pub remove_ids-pairs :
      (deleted : List ℕ) (c : CandidateSet S)
      → IsPaired c
      → (d : CandidateSet S) × (remove_ids deleted c ≡ some d)
        × (pairs d ≡ retain (λ p. not (contains p.0 deleted)) (pairs c))
        × IsPaired d
  unfolding remove_ids is_empty
  remove_ids-pairs [] c h =
      (c, refl, sym (retain_all (λ p. not (contains p.0 [])) (pairs c) (λ p. not_in_nil p.0)), h)
  remove_ids-pairs (x ∷ deleted) c h = elim (Bool-cases (is_empty c.ids)) [
    | inl e ↦ (c, rw e refl, no_pairs (x ∷ deleted) c e, h)
    | inr e ↦
        let (d, r, p, q) = remove_from-pairs (x ∷ deleted) c.ids [] c.scores h in (d, rw e r, p, q)
  ]

  -- On a paired set, where the sum fits 64 bits, `slice_range` does not panic and gives `limit`
  -- pairs from `offset` on, or those there are.
  pub slice_range-pairs :
      (offset limit : ℕ) (c : CandidateSet S)
      → IsPaired c
      → offset + limit < 2 ^ 64
      → (d : CandidateSet S) × (slice_range offset limit c ≡ some d)
        × (pairs d ≡ take limit (drop offset (pairs c)))
        × IsPaired d
  unfolding slice_range len empty
  slice_range-pairs offset limit c h fits =
      let end = min (offset + limit) (length c.ids) in
      let sum : (offset + limit) % 2 ^ 64 ≡ offset + limit = omega arith in
      elim (Bool-cases (leb (length c.ids) offset)) [
        | inl out ↦ (
          empty,
          rw out refl,
          zip_nil []
              ∙ sym (
                  ap (take limit) (
                    sym (zip-drop offset c.ids c.scores h)
                    ∙ ap (λ (is : List ℕ). zip is (drop offset c.scores))
                        (drop_short offset c.ids (ground arith))
                    ∙ zip_nil (drop offset c.scores))
                  ∙ take_nothing limit),
          refl,
        )
        | inr inside ↦
            let a : offset ≤ end = ground arith in
            let b : end ≤ length c.ids = ground arith in
            let b' : end ≤ length c.scores = omega arith in
            (
              record {
                ids = take (end - offset) (drop offset c.ids);
                scores = take (end - offset) (drop offset c.scores);
              },
              rw (inside, sum, range_ok offset end c.ids a b, range_ok offset end c.scores a b')
                  refl,
              zip-take (end - offset) (drop offset c.ids) (drop offset c.scores)
                  ∙ ap (take (end - offset)) (zip-drop offset c.ids c.scores h)
                  ∙ ap (λ (n : ℕ). take (min (offset + limit) n - offset) (drop offset (pairs c)))
                      (sym (length-zip c.ids c.scores h))
                  ∙ take_rest offset limit (pairs c) (ground (arith, length-zip c.ids c.scores h)),
              length-range offset end c.ids a b ∙ sym (length-range offset end c.scores a b'),
            )
      ]

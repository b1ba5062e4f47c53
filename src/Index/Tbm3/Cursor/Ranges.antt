-- ===== src/Index/Tbm3/Cursor/Ranges.antt =====
-- Ranges of the blocks of a term.
use toradb.Prelude.{
  ℕ, zero, suc, ◌+◌, ◌-◌, ◌*◌, ◌/◌, ◌<◌, ◌≤◌, ◌≡◌, refl, sym, ap, ◌∙◌, some, List, [], ◌∷◌, ◌++◌,
  take, drop, concat, length, get_elem?, arith, append_assoc,
}
use native.Mathlib.Nat.{div-add-mod, mod-lt}
use toradb.Index.Bytes.{Bytes}
use toradb.Index.Tbm3.Postings.{Float, Posting}
use toradb.Index.Tbm3.Cursor.{BlockStart, starts_from}
use toradb.Index.Tbm3.Cursor.Drain.{Blocks}

pub concat-append :
    {A : Type 0} (xs ys : List (List A)) → concat (xs ++ ys) ≡ concat xs ++ concat ys
concat-append [] ys = refl
concat-append (x ∷ xs) ys =
    ap (λ (l : List _). x ++ l) (concat-append xs ys) ∙ sym (append_assoc x (concat xs) (concat ys))

-- A part of a list from one place up to another.
abbrev pub part : {A : Type 0} → ℕ → ℕ → List A → List A
part lo hi xs = take (hi - lo) (drop lo xs)

take-split :
    {A : Type 0} (mid hi : ℕ) (xs : List A)
    → mid ≤ hi
    → hi ≤ length xs
    → take hi xs ≡ take mid xs ++ take (hi - mid) (drop mid xs)
take-split zero hi xs h k = let e : hi - 0 ≡ hi = omega arith in rw e refl
take-split (suc mid) zero xs h k = absurd (omega arith)
take-split (suc mid) (suc hi) [] h k = absurd (omega arith)
take-split (suc mid) (suc hi) (x ∷ xs) h k =
    let e : suc hi - suc mid ≡ hi - mid = omega arith in
    rw e (ap (λ (l : List _). x ∷ l) (take-split mid hi xs (omega arith) (omega arith)))

pub part-append :
    {A : Type 0} (lo mid hi : ℕ) (xs : List A)
    → lo ≤ mid
    → mid ≤ hi
    → hi ≤ length xs
    → part lo hi xs ≡ part lo mid xs ++ part mid hi xs
part-append zero mid hi xs h k l =
    let e : hi - 0 ≡ hi = omega arith in
    let e' : mid - 0 ≡ mid = omega arith in rw (e, e') (take-split mid hi xs k l)
part-append (suc lo) zero hi xs h k l = absurd (omega arith)
part-append (suc lo) (suc mid) zero xs h k l = absurd (omega arith)
part-append (suc lo) (suc mid) (suc hi) [] h k l = absurd (omega arith)
part-append (suc lo) (suc mid) (suc hi) (x ∷ xs) h k l =
    let e : suc hi - suc lo ≡ hi - lo = omega arith in
    let e' : suc mid - suc lo ≡ mid - lo = omega arith in
    let e'' : suc hi - suc mid ≡ hi - mid = omega arith in
    rw (e, e', e'') (part-append lo mid hi xs (omega arith) (omega arith) (omega arith))

pub div_ceil_enough : (n w : ℕ) → 0 < w → n ≤ w * ((n + w - 1) / w)
div_ceil_enough n w h =
    let parts = div-add-mod (n + w - 1) w in
    let rest = mod-lt (n + w - 1) h in omega (arith, parts, rest)

module _ {F : Type 0} (fl : Float F) (bytes : Bytes) where
  pub start_at :
      (i n : ℕ) {off prev : ℕ} {cs : List (List Posting)}
      → Blocks fl bytes off prev cs
      → i < n
      → n ≤ length cs
      → (s : BlockStart) × (get_elem? (starts_from fl bytes n off prev) i ≡ some s)
        × Blocks fl bytes s.header_off s.prev_doc (drop i cs)
  unfolding starts_from
  start_at i zero blocks h k = absurd (omega arith)
  start_at zero (suc n) {off = off} {prev = prev} blocks h k =
      (record { header_off = off; prev_doc = prev }, refl, blocks)
  start_at (suc i) (suc n) Blocks.done h k = absurd (omega arith)
  start_at (suc i) (suc n) (Blocks.next b read at more) h k =
      rw read (start_at i n more (omega arith) (omega arith))

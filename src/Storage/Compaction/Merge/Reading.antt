-- ===== src/Storage/Compaction/Merge/Reading.antt =====
-- The rows that a source still has, and what of some rows is written.
use toradb.Prelude.{
  ℕ, zero, suc, ◌<◌, ◌≡◌, refl, Bool, true, false, Option, none, some, List, [], ◌∷◌, ◌++◌, length,
  drop, retain, arith, Result, ok, err,
}
use toradb.Storage.Compaction.Merge.{Row, Disk, is_live, read}

module _ {C : Type 0} where
  -- The rows that a source still has.
  unfoldable pub unread_reader : List (Result (List (Row C))) → List (Row C)
  unread_reader [] = []
  unread_reader (err e ∷ rs) = []
  unread_reader (ok b ∷ rs) = b ++ unread_reader rs

  unfoldable pub unread : Option (List (Row C)) → List (Result (List (Row C))) → List (Row C)
  unfolding unread_reader
  unread none rs = []
  unread (some b) rs = b ++ unread_reader rs

  -- Every batch is read, and has a row.
  unfoldable pub is_readable : List (Result (List (Row C))) → Bool
  is_readable [] = true
  is_readable (err e ∷ rs) = false
  is_readable (ok [] ∷ rs) = false
  is_readable (ok (r ∷ b) ∷ rs) = is_readable rs

  unfoldable pub is_ready : Option (List (Row C)) → List (Result (List (Row C))) → Bool
  unfolding is_readable
  is_ready none [] = true
  is_ready none (r ∷ rs) = false
  is_ready (some []) rs = false
  is_ready (some (r ∷ b)) rs = is_readable rs

  pub next_is_ready :
      (r : Result (List (Row C))) (rs : List (Result (List (Row C))))
      → is_readable (r ∷ rs) ≡ true
      → (is_ready (read r) rs ≡ true) × (unread (read r) rs ≡ unread_reader (r ∷ rs))
  unfolding is_readable is_ready unread unread_reader
  next_is_ready (err e) rs h = absurd (ground arith)
  next_is_ready (ok []) rs h = absurd (ground arith)
  next_is_ready (ok (r ∷ b)) rs h = (h, refl)

pub drop-is_ready :
    {C : Type 0} (n : ℕ) (b : List (Row C)) (rs : List (Result (List (Row C))))
    → n < length b
    → is_readable rs ≡ true
    → is_ready (some (drop n b)) rs ≡ true
unfolding is_ready
drop-is_ready n [] rs h e = absurd (omega arith)
drop-is_ready zero (r ∷ b) rs h e = e
drop-is_ready (suc n) (r ∷ b) rs h e = drop-is_ready n b rs (omega arith) e

unfoldable pub recast : {C : Type 0} {D : Type 0} → (C → D) → List (Row C) → List (Row D)
recast f [] = []
recast f (r ∷ rs) = (r.0, f (r.1)) ∷ recast f rs

pub recast-append :
    {C : Type 0} {D : Type 0} (f : C → D) (xs ys : List (Row C))
    → recast f (xs ++ ys) ≡ recast f xs ++ recast f ys
unfolding recast
recast-append f [] ys = refl
recast-append f (x ∷ xs) ys = rw (recast-append f xs ys)

-- What of some rows goes to the new segment.
abbrev pub live_rows : {C : Type 0} {D : Type 0} → List ℕ → (C → D) → List (Row C) → List (Row D)
live_rows deleted f rs = recast f (retain (is_live deleted) rs)

pub live_rows-append :
    {C : Type 0} {D : Type 0} (deleted : List ℕ) (f : C → D) (xs ys : List (Row C))
    → live_rows deleted f (xs ++ ys) ≡ live_rows deleted f xs ++ live_rows deleted f ys
unfolding retain recast
live_rows-append deleted f [] ys = refl
live_rows-append deleted f (x ∷ xs) ys = ground (arith, live_rows-append deleted f xs ys)

-- The cast turns each row by itself, keeps its id, and does not fail.
abbrev pub Casts : {C : Type 0} {D : Type 0} → Disk C D → (C → D) → Type 0
Casts {C = C} disk f = (b : List (Row C)) → disk.cast_and_write b ≡ ok (recast f b)

-- ===== src/Storage/Compaction/Merge/Writing.antt =====
-- A batch, or its part below a cutoff, goes to the new segment.
use toradb.Prelude.{
  ℕ, zero, suc, ◌+◌, ◌%◌, ◌^◌, ◌<◌, ◌≡◌, refl, sym, ap, ◌∙◌, inl, inr, false, Option, none, some,
  List, [], ◌∷◌, ◌++◌, append-nil, ◌==◌, ◌⊎◌, if◌then◌else◌, Text, length, take, drop, retain,
  arith, Result,
}
use toradb.Storage.Compaction.Merge.{
  Row, MergeSource, Merged, Attempt, went_on, failed, Disk, is_live, batch_min_id, batch_max_id,
  split_pos, split_batch_at, source, with_min, with_max, put, write_batch, write_left, write_part,
  delete_if_done,
}
use toradb.Storage.Compaction.Merge.Batches.{kept_is_retain}
use toradb.Storage.Compaction.Merge.Reading.{recast, live_rows, Casts}

module _ {C : Type 0} {D : Type 0} (disk : Disk C D) (deleted : List ℕ) (f : C → D) where
  out-counted : (a b : Option ℕ) (w : Merged D) → (with_max a (with_min b w)).out ≡ w.out
  out-counted none none w = refl
  out-counted none (some n) w = refl
  out-counted (some m) none w = refl
  out-counted (some m) (some n) w = refl

  put_kept :
      Casts disk f
      → (kept : List (Row C)) (w counted : Merged D) → counted.out ≡ w.out
      → (w' : Merged D) × ((if length kept == 0
            then went_on w
            else put (disk.cast_and_write kept) counted)
          ≡ went_on w')
        × (w'.out ≡ w.out ++ recast f kept)
  unfolding Casts recast
  put_kept casts [] w counted e = (w, refl, sym (append-nil w.out))
  put_kept casts (r ∷ rs) w counted e =
      let some_rows : (length (r ∷ rs) == 0) ≡ false = ground arith in
      rw some_rows (
        record counted { out = counted.out ++ recast f (r ∷ rs) },
        ap (λ (a : Result (List (Row D))). put a counted) (casts (r ∷ rs)),
        ap (λ (o : List (Row D)). o ++ recast f (r ∷ rs)) e,
      )

  pub write_batch_lem :
      Casts disk f
      → (b : List (Row C)) (w : Merged D)
      → (w' : Merged D) × (write_batch disk deleted b w ≡ went_on w')
        × (w'.out ≡ w.out ++ live_rows deleted f b)
  unfolding write_batch
  write_batch_lem casts b w =
      let kept = retain (is_live deleted) b in
      let counted = with_max (batch_max_id kept) (with_min (batch_min_id kept) w) in
      rw (kept_is_retain deleted b) (
        put_kept casts kept w (record counted { row_count = (w.row_count + length kept) % 2 ^ 64 })
          (out-counted (batch_max_id kept) (batch_min_id kept) w))

split_at :
    {C : Type 0} (p : ℕ) (b : List (Row C))
    → p < length b
    → let cut : Option (List (Row C)) × Option (List (Row C)) =
        if p == 0
        then (none, some b)
        else (if p == length b then (some b, none) else (some (take p b), some (drop p b))) in
      ((cut ≡ (none, some (drop p b))) × (take p b ≡ []))
      ⊎ (cut ≡ (some (take p b), some (drop p b)))
split_at zero b h = inl (refl, refl)
split_at (suc p) b h =
    let not_first : (suc p == 0) ≡ false = ground arith in
    let not_last : (suc p == length b) ≡ false = ground arith in inr (rw (not_first, not_last))

split_batch_at_lem :
    {C : Type 0} (b : List (Row C)) (c : ℕ)
    → let p = split_pos b c in
      p < length b
      → ((split_batch_at b c ≡ (none, some (drop p b))) × (take p b ≡ []))
        ⊎ (split_batch_at b c ≡ (some (take p b), some (drop p b)))
unfolding split_batch_at
split_batch_at_lem b c h = split_at (split_pos b c) b h

module _ {C : Type 0} {D : Type 0} (disk : Disk C D) (deleted : List ℕ) (f : C → D) where
  part_written :
      Text
      → List (Result (List (Row C)))
      → Merged D
      → Option (List (Row C)) × Option (List (Row C))
      → Attempt (MergeSource C × Merged D)
  unfolding write_left
  part_written path rs w cut = elim (write_left disk deleted (cut.0) w) [
    | failed e gone ↦ failed e gone
    | went_on w' ↦ went_on (source path (cut.1) rs, w')
  ]

  pub write_part_lem :
      Casts disk f
      → (c : ℕ) (path : Text) (b : List (Row C)) (rs : List (Result (List (Row C)))) (w : Merged D)
      → split_pos b c < length b
      → (w' : Merged D) × (write_part disk deleted c path b rs w
          ≡ went_on (source path (some (drop (split_pos b c) b)) rs, w'))
        × (w'.out ≡ w.out ++ live_rows deleted f (take (split_pos b c) b))
  unfolding write_part write_left part_written recast retain
  write_part_lem casts c path b rs w found = elim (split_batch_at_lem b c found) [
    | inl (e, nothing) ↦
        (w, ap (part_written path rs w) e, rw (nothing, live_rows) (sym (append-nil w.out)))
    | inr e ↦
        let (w', wrote, out) = write_batch_lem disk deleted f casts (take (split_pos b c) b) w in
        (w', ap (part_written path rs w) e ∙ rw (wrote, part_written), out)
  ]

  pub out-delete_if_done :
      (path : Text) (o : Option (List (Row C))) (w : Merged D)
      → (delete_if_done path o w).out ≡ w.out
  out-delete_if_done path none w = refl
  out-delete_if_done path (some b) w = refl

-- ===== src/Storage/Compaction/Scores.antt =====
-- How urgent the merge of a group is. The scores are 64-bit floats, as an interface; a tier that has no
-- bound is a panic.
use toradb.Prelude.{
  ℕ, zero, suc, ◌-◌, ◌*◌, min, Bool, Option, none, some, List, [], ◌∷◌, map, ◌==◌, if◌then◌else◌,
  length, get_elem?,
}
use toradb.Storage.Manifest.{SegmentMeta}
use toradb.Storage.Compaction.Policy.{TierPolicy}

-- 64-bit floats.
pub record Float (F : Type 0) : Type 0 where
  pub of_nat : ℕ → F
  pub tenths : ℕ → F
  pub largest : F
  pub add : F → F → F
  pub div : F → F → F
  pub max_of : F → F → F
  pub is_less : F → F → Bool

module _ {F : Type 0} (fl : Float F) where
  unfoldable pub size_score : SegmentMeta → TierPolicy → Option F
  size_score s p =
      let score = λ (lower upper : ℕ).
        fl.div
          (fl.div (fl.add (fl.of_nat lower) (fl.of_nat (min upper (512 * 1024 * 1024))))
            (fl.of_nat 2))
          (fl.max_of (fl.of_nat s.byte_size) (fl.of_nat 1)) in
      elim (get_elem? p.tier_bounds s.tier) [
        | none ↦ none
        | some upper ↦ elim s.tier [
          | zero ↦ some (score 0 upper)
          | suc t ↦ elim (get_elem? p.tier_bounds t) [
            | none ↦ none
            | some lower ↦ some (score lower upper)
          ]
        ]
      ]

  unfoldable pub delete_score : SegmentMeta → F
  delete_score s =
      if s.row_count == 0
      then fl.of_nat 0
      else fl.div (fl.of_nat s.deleted_count) (fl.of_nat s.row_count)

  unfoldable pub tier_weight : ℕ → F
  tier_weight t = fl.of_nat (4 - min t 3)

  -- `iter().map(…).sum()`, where a score may panic.
  unfoldable pub sum_scores : F → List (Option F) → Option F
  sum_scores total [] = some total
  sum_scores total (x ∷ xs) = elim x [ none ↦ none | some a ↦ sum_scores (fl.add total a) xs ]

  unfoldable pub group_score : List SegmentMeta → TierPolicy → Option F
  unfolding size_score delete_score tier_weight sum_scores
  group_score [] p = some (fl.of_nat 0)
  group_score (s ∷ ss) p =
      let n = fl.of_nat (length (s ∷ ss)) in
      elim (sum_scores (fl.of_nat 0) (map (λ (x : SegmentMeta). size_score x p) (s ∷ ss))) [
        | none ↦ none
        | some sizes ↦
            elim (sum_scores (fl.of_nat 0)
              (map (λ (x : SegmentMeta). some (delete_score x)) (s ∷ ss))) [
                | none ↦ none
                | some deletes ↦
                    some (fl.add (fl.add (fl.div sizes n) (fl.div deletes n)) (tier_weight s.tier))
              ]
      ]

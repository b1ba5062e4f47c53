-- ===== src/Storage/Cache/Blob/Tests.antt =====
-- An `IndexBlobCache` at concrete inputs; a file is its length.
use toradb.Prelude.{ℕ, ◌≤◌, ◌≡◌, ◌⊎◌, String, [], ◌∷◌, some, arith, string_eq}
use toradb.Collections.Dict.{lookup}
use toradb.Storage.Cache.Blob.{IndexBlobCache, new, insert}
use toradb.Storage.Cache.Blob.Budget.{IsValid, IsValid-new, insert_budget}
use toradb.Storage.Cache.ByteQueue.Room.{total}

abbrev len : ℕ → ℕ
len n = n

abbrev empty : IndexBlobCache String ℕ
empty = new 2000

insert_budget_example :
    IsValid len (insert len "/i" 5000 empty)
    × (lookup "/i" (insert len "/i" 5000 empty).map ≡ some 5000)
    × (((insert len "/i" 5000 empty).bytes_used ≤ empty.byte_budget)
        ⊎ ((insert len "/i" 5000 empty).order ≡ "/i" ∷ []))
unfolding new total
insert_budget_example = insert_budget len "/i" 5000 empty (IsValid-new len 2000) (omega arith)

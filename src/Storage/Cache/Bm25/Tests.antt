-- ===== src/Storage/Cache/Bm25/Tests.antt =====
-- A `SegmentBm25Cache` at concrete inputs; an entry is a number.
use toradb.Prelude.{ℕ, String, arith, string_eq, ok}
use toradb.Storage.Cache.ByteQueue.Room.{total}
use toradb.Storage.Cache.Bm25.{SegmentBm25Cache, new, get_or_insert}
use toradb.Storage.Cache.Bm25.Budget.{IsValid-new, Answered, get_or_insert_budget}

abbrev entry_bytes : String → ℕ
entry_bytes path = 700

abbrev empty : SegmentBm25Cache String ℕ
empty = new 1024

get_or_insert_budget_example :
    Answered entry_bytes "/s" empty (get_or_insert entry_bytes "/s" (ok 9) empty)
unfolding new total
get_or_insert_budget_example =
    get_or_insert_budget entry_bytes "/s" (ok 9) empty (IsValid-new entry_bytes 1024) (omega arith)

-- ===== src/Index/Tbm3/Bitpack/Tests.antt =====
-- Five numbers of three bits, in two bytes.
use toradb.Prelude.{ℕ, ◌^◌, ◌≡◌, refl, List, [], ◌∷◌, arith}
use toradb.Index.Tbm3.Bitpack.{bitpack, pack_loop, flush, flush_within, bitunpack}
use toradb.Index.Tbm3.Bitpack.Fields.{AllBelow}
use toradb.Index.Tbm3.Bitpack.RoundTrip.{bitunpack-bitpack}

abbrev five : List ℕ
five = 5 ∷ 0 ∷ 7 ∷ 1 ∷ 6 ∷ []

five-packed : bitpack five 3 ≡ 197 ∷ 99 ∷ []
unfolding bitpack pack_loop flush flush_within
five-packed = refl

five-AllBelow : AllBelow (2 ^ 3) five
unfolding AllBelow
five-AllBelow = (omega arith, (omega arith, (omega arith, (omega arith, (omega arith, _)))))

bitunpack-bitpack_example : bitunpack (bitpack five 3) 3 5 ≡ five
bitunpack-bitpack_example = bitunpack-bitpack 3 five (omega arith) (omega arith) five-AllBelow

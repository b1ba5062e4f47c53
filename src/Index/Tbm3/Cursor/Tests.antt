-- ===== src/Index/Tbm3/Cursor/Tests.antt =====
-- The best two of three documents, with scores that are numbers.
use toradb.Prelude.{
  ℕ, ◌+◌, ◌-◌, ◌*◌, ◌/◌, max, true, false, ltb, ◌==◌, if◌then◌else◌, ◌≡◌, refl, ap, sym, ◌∙◌,
  Option, some, [], ◌∷◌, ◌++◌, take, arith, ok, ◌>>=◌,
}
use Prim.Native.Nat.{compare, Ordering}
use toradb.Core.Candidate.{empty, or_equal, ordering_then}
use toradb.Index.Bytes.{Bytes}
use toradb.Index.Tbm3.Postings.{Float, posting_blob, in_order, idf_of}
use toradb.Index.Tbm3.Postings.Blocks.{KeepsBytes}
use toradb.Index.Tbm3.Postings.Tests.{some_posts, some_posts-FitsFrom, few_posts}
use toradb.Index.Tbm3.TopK.{above, cmp, best_first, push_docs}
use toradb.Index.Tbm3.TopK.Insert.{IsLinear}
use toradb.Index.Tbm3.Cursor.{open_cursor, scored, single_term_topk}
use toradb.Index.Tbm3.Cursor.Search.{single_term_topk-posting_blob}

abbrev number_of : Bytes → ℕ
number_of [] = 0
number_of (b ∷ bs) = b

abbrev whole_numbers : Float ℕ
whole_numbers = record {
  of_nat = λ n. n;
  half = 0;
  k1 = 1;
  b = 0;
  add = λ x y. x + y;
  sub = λ x y. x - y;
  mul = λ x y. x * y;
  div = λ x y. x / y;
  max_of = λ x y. max x y;
  ln = λ x. x;
  to_le_bytes = λ x. x ∷ 0 ∷ 0 ∷ 0 ∷ [];
  from_le_bytes = number_of;
}

abbrev whole_numbers-KeepsBytes : KeepsBytes whole_numbers
whole_numbers-KeepsBytes = (λ x. refl, λ x. refl)

abbrev compare_numbers : ℕ → ℕ → Option Ordering
compare_numbers a b = some (compare a b)

-- A greater score first, then a smaller id.
above_iff :
    (s i t j : ℕ)
    → above compare_numbers (record { score = s; doc_id = i }) (record { score = t; doc_id = j })
      ≡ (if ltb t s then true else (if s == t then ltb i j else false))
unfolding above cmp or_equal ordering_then
above_iff s i t j = ground arith

above-IsLinear : IsLinear (above compare_numbers)
above-IsLinear = (
  λ a b h.
      (above_iff (b.score) (b.doc_id) (a.score) (a.doc_id)
        ∙ ground (arith, sym (above_iff (a.score) (a.doc_id) (b.score) (b.doc_id)) ∙ h)),
  λ a b c h k.
      (above_iff (a.score) (a.doc_id) (c.score) (c.doc_id)
        ∙ ground (
          arith,
          sym (above_iff (a.score) (a.doc_id) (b.score) (b.doc_id)) ∙ h,
          sym (above_iff (b.score) (b.doc_id) (c.score) (c.doc_id)) ∙ k,
        )),
  λ a b h k.
      let h' = sym (above_iff (a.score) (a.doc_id) (b.score) (b.doc_id)) ∙ h in
      let k' = sym (above_iff (b.score) (b.doc_id) (a.score) (a.doc_id)) ∙ k in
      let score : a.score ≡ b.score = ground (arith, h', k') in
      let id : a.doc_id ≡ b.doc_id = ground (arith, h', k') in
      ap (λ (s : ℕ). record { score = s; doc_id = a.doc_id }) score
      ∙ ap (λ (i : ℕ). record { score = b.score; doc_id = i }) id,
)

single_term_topk-posting_blob_example :
    (open_cursor whole_numbers (posting_blob whole_numbers 3 some_posts ++ []) 0 3 10 >>= λ c. ok (
      single_term_topk whole_numbers compare_numbers
        (posting_blob whole_numbers 3 some_posts ++ [])
        4
        c
        2
        3))
    ≡ ok (
        some (
          push_docs
            (take 2 (
              best_first
                (above compare_numbers)
                (scored whole_numbers (idf_of whole_numbers 10 3) 3 (in_order some_posts))))
            empty))
single_term_topk-posting_blob_example =
    single_term_topk-posting_blob whole_numbers compare_numbers 3 whole_numbers-KeepsBytes
      above-IsLinear some_posts [] [] 3 10 2 4 some_posts-FitsFrom few_posts

-- ===== src/Index/Tbm3/Postings/Tests.antt =====
-- The postings of one term, with scores as four numbers of which the first counts.
use toradb.Prelude.{
  ℕ, ◌+◌, ◌-◌, ◌*◌, ◌/◌, max, ◌^◌, ◌<◌, ◌≡◌, refl, List, [], ◌∷◌, ◌++◌, arith, length, ok, chunks,
  map, sort, put_in_order,
}
use toradb.Index.Bytes.{Bytes}
use toradb.Index.Tbm3.Postings.{
  Float, Posting, in_order, posting_blob, parse_postings, TermPostings, block_max, block_size,
}
use toradb.Index.Tbm3.Postings.Gaps.{FitsFrom}
use toradb.Index.Tbm3.Postings.Blocks.{KeepsBytes}
use toradb.Index.Tbm3.Postings.RoundTrip.{ends_from, parse_postings-posting_blob}

abbrev pub Four : Type 0
Four = ℕ × ℕ × ℕ × ℕ

abbrev pub on_first : (ℕ → ℕ → ℕ) → Four → Four → Four
on_first f x y = (f (x.0) (y.0), x.1, x.2, x.3)

abbrev pub four_of : Bytes → Four
four_of (a ∷ b ∷ c ∷ d ∷ []) = (a, b, c, d)
four_of bs = (0, 0, 0, 0)

abbrev pub fixed : Float Four
fixed = record {
  of_nat = λ n. (n, 0, 0, 0);
  half = (0, 0, 0, 0);
  k1 = (1, 0, 0, 0);
  b = (0, 0, 0, 0);
  add = on_first (λ x y. x + y);
  sub = on_first (λ x y. x - y);
  mul = on_first (λ x y. x * y);
  div = on_first (λ x y. x / y);
  max_of = on_first (λ x y. max x y);
  ln = λ x. x;
  to_le_bytes = λ x. x.0 ∷ x.1 ∷ x.2 ∷ x.3 ∷ [];
  from_le_bytes = four_of;
}

abbrev pub fixed-KeepsBytes : KeepsBytes fixed
fixed-KeepsBytes = (λ x. refl, λ x. refl)

abbrev pub avg : Four
avg = (3, 0, 0, 0)

-- Out of order, and read back in order.
abbrev pub some_posts : List Posting
some_posts = (300, 2) ∷ (7, 1) ∷ (9, 500) ∷ []

some_posts-in_order : in_order some_posts ≡ (7, 1) ∷ (9, 500) ∷ (300, 2) ∷ []
unfolding in_order sort put_in_order
some_posts-in_order = refl

pub some_posts-FitsFrom : FitsFrom 0 (in_order some_posts)
unfolding in_order sort put_in_order
some_posts-FitsFrom = (
  (omega arith, omega arith, omega arith, omega arith, omega arith),
  (
    (omega arith, omega arith, omega arith, omega arith, omega arith),
    ((omega arith, omega arith, omega arith, omega arith, omega arith), _),
  ),
)

pub few_posts : length (in_order some_posts) < 2 ^ 32
unfolding in_order sort put_in_order
few_posts = omega arith

parse_postings-posting_blob_example :
    (p : TermPostings Four) × (parse_postings fixed
        ((1 ∷ 2 ∷ []) ++ (posting_blob fixed avg some_posts ++ (9 ∷ [])))
        2
        10
        3
      ≡ ok p)
    × (p.docs ≡ in_order some_posts)
    × (p.block_ends ≡ ends_from 0 (chunks block_size (in_order some_posts)))
    × (p.block_max_tf
        ≡ map
            (λ (c : List Posting). block_max fixed avg (0, 0, 0, 0) c)
            (chunks block_size (in_order some_posts)))
parse_postings-posting_blob_example =
    parse_postings-posting_blob fixed fixed-KeepsBytes avg some_posts (1 ∷ 2 ∷ []) (9 ∷ []) 10 3
      some_posts-FitsFrom few_posts

-- ===== src/Regions/AspaceLaws.antt =====
-- SharedHeap.cpp: `MyComparator` as an order.
use sbllmalloc.Shared.{ℕ, ◌^◌, ◌<◌, ◌≡◌, arith, ltb, is_neg, is_pos}
use sbllmalloc.Avl.Order.{IsComparator}
use sbllmalloc.Regions.Aspace.{my_comparator}

my_comparator-is_neg : (a b : ℕ) → a < 2 ^ 63 → b < 2 ^ 63 → is_neg (my_comparator a b) ≡ ltb a b
unfolding my_comparator
my_comparator-is_neg a b p q = ground arith

my_comparator-is_pos : (a b : ℕ) → a < 2 ^ 63 → b < 2 ^ 63 → is_pos (my_comparator a b) ≡ ltb b a
unfolding my_comparator
my_comparator-is_pos a b p q = ground arith

-- `MyComparator` orders the addresses below 2^63 as unsigned numbers, although it compares their
-- signed difference.
pub my_comparator-IsComparator : IsComparator (2 ^ 63) my_comparator
my_comparator-IsComparator = record {
  negative = my_comparator-is_neg;
  positive = my_comparator-is_pos;
}

-- ===== src/Avl/Heights.antt =====
-- AVL.cpp: the heights that the nodes store, and what `Balance` makes of them.
use sbllmalloc.Shared.{
  ℕ, suc, ◌+◌, ◌≤◌, ◌<◌, ◌≡◌, arith, true, false, sub_ℕ, is_neg, is_pos, below_minus_one, above_one,
}
use sbllmalloc.Avl.Tree.{
  Entry, AvlNode, null, node, get_height, taller, get_balance, rotate_single_right,
  rotate_single_left, rotate_double_right, refresh_height, rotate, balance,
}
use Prim.Native.Nat.{max}
use native.Mathlib.Decide.{dec_lt}

-- Each stored height is one more than that of the taller child.
abbrev pub HasHeights : AvlNode → Type 0
HasHeights null = Unit {0}
HasHeights (node e h l r) =
    (h ≡ suc (taller (get_height l) (get_height r))) × HasHeights l × HasHeights r

-- Stored heights are right, and those of two siblings differ by at most one.
abbrev pub IsAvl : AvlNode → Type 0
IsAvl null = Unit {0}
IsAvl (node e h l r) =
    (h ≡ suc (taller (get_height l) (get_height r)))
    × (get_height l ≤ get_height r + 1)
    × (get_height r ≤ get_height l + 1)
    × IsAvl l
    × IsAvl r

pub taller-max : (a b : ℕ) → taller a b ≡ max a b
unfolding taller
taller-max a b = ground arith

module _ (e : Entry) (h : ℕ) (l r : AvlNode) where
  pub rotate_deep_left :
      get_height r + 1 < get_height l
      → is_pos (get_balance l) ≡ false
      → rotate (node e h l r) ≡ rotate_single_right (node e h l r)
  unfolding rotate get_balance
  rotate_deep_left deep once =
      let test : below_minus_one (sub_ℕ (get_height r) (get_height l)) ≡ true = ground arith in
      rw (test, once)

  pub rotate_deep_left_inner :
      get_height r + 1 < get_height l
      → is_pos (get_balance l) ≡ true
      → rotate (node e h l r) ≡ rotate_double_right (node e h l r)
  unfolding rotate get_balance
  rotate_deep_left_inner deep twice =
      let test : below_minus_one (sub_ℕ (get_height r) (get_height l)) ≡ true = ground arith in
      rw (test, twice)

  pub rotate_deep_right :
      get_height l + 1 < get_height r
      → is_neg (get_balance r) ≡ false
      → rotate (node e h l r) ≡ rotate_single_left (node e h l r)
  unfolding rotate get_balance
  rotate_deep_right deep once =
      let test : below_minus_one (sub_ℕ (get_height r) (get_height l)) ≡ false = ground arith in
      let test2 : above_one (sub_ℕ (get_height r) (get_height l)) ≡ true = ground arith in
      rw (test, test2, once)

  pub rotate_even :
      get_height l ≤ get_height r + 1
      → get_height r ≤ get_height l + 1
      → rotate (node e h l r) ≡ node e h l r
  unfolding rotate get_balance
  rotate_even p q =
      let test : below_minus_one (sub_ℕ (get_height r) (get_height l)) ≡ false = ground arith in
      let test2 : above_one (sub_ℕ (get_height r) (get_height l)) ≡ false = ground arith in
      rw (test, test2)

deep_left-IsAvl :
    (e : Entry) (h : ℕ) (l r : AvlNode)
    → IsAvl l
    → IsAvl r
    → get_height l ≡ get_height r + 2
    → is_pos (get_balance l) ≡ false
    → IsAvl (refresh_height (rotate_single_right (node e h l r)))
unfolding refresh_height get_balance rotate_single_right
deep_left-IsAvl e h null r a b p once = absurd (omega arith)
deep_left-IsAvl e h (node d dh x y) r a b p once =
    let leans : get_height y ≤ get_height x = ground arith in
    (
      omega (arith, taller-max),
      omega (arith, taller-max),
      omega (arith, taller-max),
      a.3,
      (omega (arith, taller-max), omega (arith, taller-max), omega (arith, taller-max), a.4, b),
    )

deep_right-IsAvl :
    (e : Entry) (h : ℕ) (l r : AvlNode)
    → IsAvl l
    → IsAvl r
    → get_height r ≡ get_height l + 2
    → is_neg (get_balance r) ≡ false
    → IsAvl (refresh_height (rotate_single_left (node e h l r)))
unfolding refresh_height get_balance rotate_single_left
deep_right-IsAvl e h l null a b p once = absurd (omega arith)
deep_right-IsAvl e h l (node d dh x y) a b p once =
    let leans : get_height x ≤ get_height y = ground arith in
    (
      omega (arith, taller-max),
      omega (arith, taller-max),
      omega (arith, taller-max),
      (omega (arith, taller-max), omega (arith, taller-max), omega (arith, taller-max), a, b.3),
      b.4,
    )

-- Where the stored heights of both subtrees are right and balanced, those of the children differ
-- by at most two, the left child does not lean right and the right child does not lean left,
-- `Balance` returns a balanced tree with right heights.
pub balance-IsAvl :
    (e : Entry) (h : ℕ) (l r : AvlNode)
    → IsAvl l
    → IsAvl r
    → get_height l ≤ get_height r + 2
    → get_height r ≤ get_height l + 2
    → is_pos (get_balance l) ≡ false
    → is_neg (get_balance r) ≡ false
    → IsAvl (balance (node e h l r))
unfolding balance refresh_height
balance-IsAvl e h l r a b p q once1 once2 = elim (dec_lt (get_height r + 1) (get_height l)) [
  | yes deep ↦
      rw (rotate_deep_left e h l r deep once1)
        (unfold refresh_height in deep_left-IsAvl e h l r a b (omega arith) once1)
  | no shallow ↦ elim (dec_lt (get_height l + 1) (get_height r)) [
    | yes deep ↦
        rw (rotate_deep_right e h l r deep once2) (deep_right-IsAvl e h l r a b (omega arith) once2)
    | no other ↦
        rw (rotate_even e h l r (omega arith) (omega arith))
          (omega arith, omega arith, omega arith, a, b)
  ]
]

-- Where the left child stores a height that calls for a right rotation and its inner child one
-- above that of its outer child, so that `Balance` rotates twice, and the right part of the inner
-- child stores a smaller height than the right child of the root, the result of `Balance` stores a
-- height that is not one more than that of the taller child.
pub balance-not_HasHeights :
    (e d m : Entry) (h dh mh : ℕ) (a b1 b2 c : AvlNode)
    → get_height c + 1 < dh
    → get_height a < mh
    → get_height b2 < get_height c
    → ¬ HasHeights (balance (node e h (node d dh a (node m mh b1 b2)) c))
unfolding balance
balance-not_HasHeights e d m h dh mh a b1 b2 c deep inner left heights =
    too_small
      (rw (rotate_deep_left_inner e h (node d dh a (node m mh b1 b2)) c deep leans) at heights)
  where
    leans : is_pos (get_balance (node d dh a (node m mh b1 b2))) ≡ true
    leans = unfold get_balance in ground arith

    too_small :
        HasHeights
          (refresh_height (rotate_double_right (node e h (node d dh a (node m mh b1 b2)) c)))
        → ⊥
    too_small =
        unfold refresh_height rotate_double_right rotate_single_right rotate_single_left in
        λ s. omega (arith, s.2.0, taller-max)

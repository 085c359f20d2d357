-- ===== src/Avl/Order.antt =====
-- The search-tree order of the regions in AVL.cpp, and what the code
-- relies on of a comparator.
use sbllmalloc.Shared.{
  ℕ, suc, ◌≤◌, ◌<◌, ◌≡◌, arith, ltb, Bool-cases, inl, inr, is_neg, is_pos, below_minus_one,
  above_one,
}
use sbllmalloc.Avl.Tree.{
  Comparator, AvlNode, null, node, get_balance, rotate_single_right, rotate_single_left,
  rotate_double_right, rotate_double_left, refresh_height, rotate, balance,
}

-- A comparator that orders the keys below `limit`.
pub record IsComparator (limit : ℕ) (c : Comparator) : Type 0 where
  pub negative : (a b : ℕ) → a < limit → b < limit → is_neg (c a b) ≡ ltb a b
  pub positive : (a b : ℕ) → a < limit → b < limit → is_pos (c a b) ≡ ltb b a

-- All keys lie from `lo` up to but not `hi`, and in order.
abbrev pub IsOrdered : ℕ → ℕ → AvlNode → Type 0
IsOrdered lo hi null = Unit {0}
IsOrdered lo hi (node e h l r) =
    (lo ≤ e.key) × (e.key < hi) × IsOrdered lo e.key l × IsOrdered (suc e.key) hi r

refresh_height-IsOrdered :
    (lo hi : ℕ) (t : AvlNode) → IsOrdered lo hi t → IsOrdered lo hi (refresh_height t)
unfolding refresh_height
refresh_height-IsOrdered lo hi null s = tt
refresh_height-IsOrdered lo hi (node e h l r) s = s

rotate_single_right-IsOrdered :
    (lo hi : ℕ) (t : AvlNode) → IsOrdered lo hi t → IsOrdered lo hi (rotate_single_right t)
unfolding rotate_single_right
rotate_single_right-IsOrdered lo hi null s = tt
rotate_single_right-IsOrdered lo hi (node e h null c) s = s
rotate_single_right-IsOrdered lo hi (node e h (node d dh a b) c) s =
    (s.2.0, omega arith, s.2.2, (s.2.1, s.1, s.2.3, s.3))

rotate_single_left-IsOrdered :
    (lo hi : ℕ) (t : AvlNode) → IsOrdered lo hi t → IsOrdered lo hi (rotate_single_left t)
unfolding rotate_single_left
rotate_single_left-IsOrdered lo hi null s = tt
rotate_single_left-IsOrdered lo hi (node d h a null) s = s
rotate_single_left-IsOrdered lo hi (node d h a (node e eh b c)) s =
    (omega arith, s.3.1, (s.0, s.3.0, s.2, s.3.2), s.3.3)

rotate_double_right-IsOrdered :
    (lo hi : ℕ) (t : AvlNode) → IsOrdered lo hi t → IsOrdered lo hi (rotate_double_right t)
unfolding rotate_double_right
rotate_double_right-IsOrdered lo hi null s = tt
rotate_double_right-IsOrdered lo hi (node e h l r) s =
    rotate_single_right-IsOrdered lo hi (node e h _ r)
      (s.0, s.1, rotate_single_left-IsOrdered lo e.key l s.2, s.3)

rotate_double_left-IsOrdered :
    (lo hi : ℕ) (t : AvlNode) → IsOrdered lo hi t → IsOrdered lo hi (rotate_double_left t)
unfolding rotate_double_left
rotate_double_left-IsOrdered lo hi null s = tt
rotate_double_left-IsOrdered lo hi (node e h l r) s =
    rotate_single_left-IsOrdered lo hi (node e h l _)
      (s.0, s.1, s.2, rotate_single_right-IsOrdered (suc e.key) hi r s.3)

-- `rotate` is one of the rotations or leaves the tree.
pub rotate_cases {ℓ} :
    (P : AvlNode → Type ℓ) (t : AvlNode)
    → P t
    → P (rotate_single_right t)
    → P (rotate_double_right t)
    → P (rotate_single_left t)
    → P (rotate_double_left t)
    → P (rotate t)
unfolding rotate
rotate_cases P null stay right right2 left left2 = stay
rotate_cases P (node e h l r) stay right right2 left left2 =
    elim (Bool-cases (below_minus_one (get_balance (node e h l r)))) [
      | inl deep_left ↦ elim (Bool-cases (is_pos (get_balance l))) [
        | inl twice ↦ rw (deep_left, twice) right2
        | inr once ↦ rw (deep_left, once) right
      ]
      | inr other ↦ elim (Bool-cases (above_one (get_balance (node e h l r)))) [
        | inl deep_right ↦ elim (Bool-cases (is_neg (get_balance r))) [
          | inl twice ↦ rw (other, deep_right, twice) left2
          | inr once ↦ rw (other, deep_right, once) left
        ]
        | inr even ↦ rw (other, even) stay
      ]
    ]

-- `Balance` keeps the order.
pub balance-IsOrdered : (lo hi : ℕ) (t : AvlNode) → IsOrdered lo hi t → IsOrdered lo hi (balance t)
unfolding balance
balance-IsOrdered lo hi t s = refresh_height-IsOrdered lo hi (rotate t) (
    rotate_cases (IsOrdered lo hi) t s (rotate_single_right-IsOrdered lo hi t s)
      (rotate_double_right-IsOrdered lo hi t s) (rotate_single_left-IsOrdered lo hi t s)
      (rotate_double_left-IsOrdered lo hi t s))

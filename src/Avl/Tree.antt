-- ===== src/Avl/Tree.antt =====
-- AVL.h, AVL.cpp: the nodes, their heights, the rotations and `Balance`. A tree owns its nodes, so a
-- `AVLTreeNode **` that is written through is a tree that is returned.
use sbllmalloc.Shared.{
  ℕ, ◌+◌, List, ltb, if◌then◌else◌, ℤ, pos, sub_ℕ, is_neg, is_pos, below_minus_one, above_one,
}

-- `AVLComparator`: the sign of the result orders the two keys.
abbrev pub Comparator : Type 0
Comparator = ℕ → ℕ → ℤ

-- What an `AVLTreeNode` holds beside its links and its height. Keys and values are addresses and
-- sizes cast to pointers.
pub record Entry : Type 0 where
  pub key : ℕ
  pub value : ℕ
  pub dirty : ℕ
  pub creator : ℕ
  pub call_stack : List ℕ

-- An `AVLTreeNode *`, with the stored height.
pub data AvlNode : Type 0 where
  null : AvlNode
  node : Entry → ℕ → AvlNode → AvlNode → AvlNode

pub record AvlTreeData : Type 0 where
  pub root : AvlNode
  pub comparator : Comparator
  pub size : ℕ

unfoldable pub create_avl : Comparator → AvlTreeData
create_avl comparator = record { root = null; comparator = comparator; size = 0 }

-- `GetHeight`: the stored height, 0 for no node.
abbrev pub get_height : AvlNode → ℕ
get_height null = 0
get_height (node e h l r) = h

-- `left > right ? left : right`
unfoldable pub taller : ℕ → ℕ → ℕ
taller left right = if ltb right left then left else right

-- `GetBalance`: a missing child counts 0, as `get_height` does.
unfoldable pub get_balance : AvlNode → ℤ
get_balance null = pos 0
get_balance (node e h l r) = sub_ℕ (get_height r) (get_height l)

-- Both heights that the new right child's height is taken from are those of `b`. The code reads
-- through `(*node)->left`: without it there is no rotation to speak of.
unfoldable pub rotate_single_right : AvlNode → AvlNode
rotate_single_right (node e eh (node d dh a b) c) =
    let e_height = taller (get_height b) (get_height b) + 1 in
    node d (e_height + 1) a (node e e_height b c)
rotate_single_right (node e eh null c) = node e eh null c
rotate_single_right null = null

unfoldable pub rotate_single_left : AvlNode → AvlNode
rotate_single_left (node d dh a (node e eh b c)) =
    let d_height = taller (get_height a) (get_height b) + 1 in
    node e (d_height + 1) (node d d_height a b) c
rotate_single_left (node d dh a null) = node d dh a null
rotate_single_left null = null

unfoldable pub rotate_double_right : AvlNode → AvlNode
rotate_double_right (node e h l r) = rotate_single_right (node e h (rotate_single_left l) r)
rotate_double_right null = null

unfoldable pub rotate_double_left : AvlNode → AvlNode
rotate_double_left (node e h l r) = rotate_single_left (node e h l (rotate_single_right r))
rotate_double_left null = null

-- The end of `Balance`: the height is taken anew from the children.
unfoldable pub refresh_height : AvlNode → AvlNode
refresh_height (node e h l r) = node e (taller (get_height l) (get_height r) + 1) l r
refresh_height null = null

-- The rotations that `Balance` chooses among.
unfoldable pub rotate : AvlNode → AvlNode
rotate (node e h l r) =
    let t = node e h l r in
    if below_minus_one (get_balance t)
    then (if is_pos (get_balance l) then rotate_double_right t else rotate_single_right t)
    else if above_one (get_balance t)
    then (if is_neg (get_balance r) then rotate_double_left t else rotate_single_left t)
    else t
rotate null = null

-- `Balance` is called on nodes only.
unfoldable pub balance : AvlNode → AvlNode
balance t = refresh_height (rotate t)

-- ===== src/Avl/Remove.antt =====
-- AVL.cpp: `RemoveAVL`, its helper `Remove`, and the removal of an outermost node.
use sbllmalloc.Shared.{ℕ, ◌+◌, ◌-◌, List, [], ◌∷◌, ◌++◌, if◌then◌else◌, is_neg, is_pos}
use sbllmalloc.Avl.Tree.{Comparator, Entry, AvlNode, null, node, AvlTreeData, taller, balance}
use sbllmalloc.Avl.Insert.{Outcome}

-- `lh` and `rh` of `RemoveLeftMost`: 0 without a child
abbrev reach : AvlNode → ℕ
reach null = 0
reach (node e h l r) = h + 1

-- The node that is left when a subtree has lost its outermost node.
unfoldable pub reseat : Entry → AvlNode → AvlNode → AvlNode
reseat e l r = balance (node e (taller (reach r) (reach l)) l r)

-- Both take the four parts of a node, and return the node removed and what is left.
unfoldable pub remove_left_most : Entry → ℕ → AvlNode → AvlNode → Entry × AvlNode
remove_left_most e h null r = (e, r)
remove_left_most e h (node le lh ll lr) r =
    let (left, rest) = remove_left_most le lh ll lr in (left, reseat e rest r)

unfoldable pub remove_right_most : Entry → ℕ → AvlNode → AvlNode → Entry × AvlNode
remove_right_most e h l null = (e, l)
remove_right_most e h l (node re rh rl rr) =
    let (right, rest) = remove_right_most re rh rl rr in (right, reseat e l rest)

-- "Move the data in np to this node": the key and the value move, the other fields stay.
unfoldable pub move_data : Entry → Entry → Entry
move_data e np = record e { key = np.key; value = np.value }

-- The node that takes the place of a found one.
unfoldable pub unlink : Entry → ℕ → AvlNode → AvlNode → AvlNode
unlink e h l (node re rh rl rr) =
    let (np, rest) = remove_left_most re rh rl rr in balance (node (move_data e np) h l rest)
unlink e h (node le lh ll lr) null =
    let (np, rest) = remove_right_most le lh ll lr in balance (node (move_data e np) h rest null)
unlink e h null null = null

module _ (comparator : Comparator) (key : ℕ) where
  unfoldable pub remove : ℕ → AvlNode → Outcome
  remove size null = record { size = size; tree = null; result = 0 }
  remove size (node e h l r) =
      let rc = comparator key e.key in
      let in_left = remove size l in
      let on_left : Outcome = record {
        size = in_left.size;
        tree = balance (node e h in_left.tree r);
        result = in_left.result;
      } in
      let in_right = remove size r in
      let on_right : Outcome = record {
        size = in_right.size;
        tree = balance (node e h l in_right.tree);
        result = in_right.result;
      } in
      if is_neg rc
      then on_left
      else if is_pos rc
      then on_right
      else record { size = size - 1; tree = unlink e h l r; result = e.value }

-- `RemoveAVL`: the value removed, 0 if the key was not there.
unfoldable pub remove_avl : AvlTreeData → ℕ → AvlTreeData × ℕ
remove_avl tree key =
    let out = remove tree.comparator key tree.size tree.root in
    (record tree { root = out.tree; size = out.size }, out.result)

-- `Destroy`: the nodes in the order in which they are freed, the children before their node.
unfoldable pub destroy : AvlNode → List Entry
destroy null = []
destroy (node e h l r) = destroy l ++ (destroy r ++ e ∷ [])

-- ===== src/Avl/Search.antt =====
-- AVL.cpp: `FindAVL`, `FindRangeAVL`, `TraverseAVL`, `GetAVLSize` and `GetAVLHeight`.
use sbllmalloc.Shared.{ℕ, ◌+◌, ◌%◌, ◌^◌, Option, none, some, ltb, if◌then◌else◌, is_neg, is_pos}
use sbllmalloc.Avl.Tree.{Comparator, Entry, AvlNode, null, node, AvlTreeData, get_height}

module _ (comparator : Comparator) (key : ℕ) where
  -- The value, 0 for NULL.
  unfoldable pub find : AvlNode → ℕ
  find null = 0
  find (node e h l r) =
      let rc = comparator key e.key in
      let in_left = find l in
      let in_right = find r in
      if is_neg rc then in_left else if is_pos rc then in_right else e.value

  -- The key may lie in the region of a node whose key is below it. The sum is one of `unsigned long`.
  unfoldable pub find_range : AvlNode → Option Entry
  find_range null = none
  find_range (node e h l r) =
      let rc = comparator key e.key in
      let in_left = find_range l in
      let in_right = find_range r in
      if is_neg rc
      then in_left
      else if is_pos rc
      then (if ltb key ((e.key + e.value) % 2 ^ 64) then some e else in_right)
      else some e

  -- The same walk, for the caller that writes through the pointer to the node that it got.
  unfoldable pub update_range : (Entry → Entry) → AvlNode → AvlNode
  update_range f null = null
  update_range f (node e h l r) =
      let rc = comparator key e.key in
      let in_left = node e h (update_range f l) r in
      let in_right = node e h l (update_range f r) in
      if is_neg rc
      then in_left
      else if is_pos rc
      then (if ltb key ((e.key + e.value) % 2 ^ 64) then node (f e) h l r else in_right)
      else node (f e) h l r

unfoldable pub find_avl : AvlTreeData → ℕ → ℕ
find_avl tree key = find tree.comparator key tree.root

unfoldable pub find_range_avl : AvlTreeData → ℕ → Option Entry
find_range_avl tree key = find_range tree.comparator key tree.root

-- `Traverse`: the callback may change `dirty` through the pointer that it gets, so it returns the
-- entry. `S` is the state that the callback works on.
module _ {ℓ} {S : Type ℓ} (func : S → Entry → S × Entry) where
  unfoldable pub traverse : S → AvlNode → S × AvlNode
  traverse s null = (s, null)
  traverse s (node e h l r) =
      let (s1, l') = traverse s l in
      let (s2, e') = func s1 e in let (s3, r') = traverse s2 r in (s3, node e' h l' r')

  unfoldable pub traverse_avl : S → AvlTreeData → S × AvlTreeData
  traverse_avl s tree = let (s', root) = traverse s tree.root in (s', record tree { root = root })

unfoldable pub get_avl_size : AvlTreeData → ℕ
get_avl_size tree = tree.size

unfoldable pub get_avl_height : AvlTreeData → ℕ
get_avl_height tree = get_height tree.root

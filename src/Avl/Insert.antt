-- ===== src/Avl/Insert.antt =====
-- AVL.cpp: `InsertAVL` and its helper `Insert`.
use sbllmalloc.Shared.{
  ℕ, ◌+◌, List, Bool, true, false, not, ◌&&◌, ◌||◌, if◌then◌else◌, is_neg, is_pos,
}
use sbllmalloc.Avl.Tree.{Comparator, AvlNode, null, node, AvlTreeData, balance}

-- What a new node is filled with besides the key and the value: the results of `GetBacktrace` and
-- `GetCallStack`, and the content that `ptmalloc` left in the memory of the node.
pub record Fresh : Type 0 where
  pub creator : ℕ
  pub call_stack : List ℕ
  pub garbage : ℕ

-- The results of `Insert` and `Remove`: the new size, the new subtree and the value returned, 0 for
-- NULL.
pub record Outcome : Type 0 where
  pub size : ℕ
  pub tree : AvlNode
  pub result : ℕ

-- `dirty` is given, since only the branch of an empty tree sets it.
unfoldable pub new_node : Fresh → ℕ → ℕ → ℕ → AvlNode
new_node f dirty key value =
    node
      (record {
        key = key;
        value = value;
        dirty = dirty;
        creator = f.creator;
        call_stack = f.call_stack;
      })
      1 null null

abbrev pub is_null : AvlNode → Bool
is_null null = true
is_null (node e h l r) = false

-- `++(*node)->height` if the node now has exactly one child
unfoldable pub grow : AvlNode → AvlNode
grow null = null
grow (node e h l r) =
    if (not (is_null r) && is_null l) || (not (is_null l) && is_null r)
    then node e (h + 1) l r
    else node e h l r

module _ (comparator : Comparator) (fresh : Fresh) (key value : ℕ) where
  unfoldable pub insert : ℕ → AvlNode → Outcome
  insert size null = record { size = size + 1; tree = new_node fresh 0 key value; result = 0 }
  insert size (node e h l r) =
      let rc = comparator key e.key in
      let np = new_node fresh fresh.garbage key value in
      let on_left : Outcome = elim l [
        | null ↦ record { size = size + 1; tree = balance (grow (node e h np r)); result = 0 }
        | node _ _ _ _ ↦
            let sub = insert size l in
            record { size = sub.size; tree = balance (node e h sub.tree r); result = sub.result }
      ] in
      let on_right : Outcome = elim r [
        | null ↦ record { size = size + 1; tree = balance (grow (node e h l np)); result = 0 }
        | node _ _ _ _ ↦
            let sub = insert size r in
            record { size = sub.size; tree = balance (node e h l sub.tree); result = sub.result }
      ] in
      if is_neg rc
      then on_left
      else if is_pos rc
      then on_right
      else record { size = size; tree = node e h l r; result = e.value }

-- `InsertAVL`: the value already in the tree, 0 if there was none.
unfoldable pub insert_avl : Fresh → AvlTreeData → ℕ → ℕ → AvlTreeData × ℕ
insert_avl fresh tree key value =
    let out = insert tree.comparator fresh key value tree.size tree.root in
    (record tree { root = balance out.tree; size = out.size }, out.result)

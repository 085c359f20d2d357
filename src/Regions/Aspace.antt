-- ===== src/Regions/Aspace.antt =====
-- SharedHeap.cpp: `MyComparator` and the `AspaceAvl...Wrapper` functions. `allocRecord` is `none` until
-- `InitAddrSpace` creates the tree.
use sbllmalloc.Shared.{
  ℕ, ◌+◌, ◌-◌, ◌%◌, ◌^◌, Option, none, some, ltb, ◌==◌, if◌then◌else◌, pos, negsuc,
}
use sbllmalloc.Avl.Tree.{Comparator, Entry, AvlTreeData}
use sbllmalloc.Avl.Insert.{Fresh, insert_avl}
use sbllmalloc.Avl.Remove.{remove_avl}
use sbllmalloc.Avl.Search.{find_avl, find_range_avl, update_range}

-- The difference wraps at 64 bits and is read as signed.
unfoldable pub my_comparator : Comparator
my_comparator key1 key2 =
    let diff = (key1 % 2 ^ 64 + 2 ^ 64 - key2 % 2 ^ 64) % 2 ^ 64 in
    if diff == 0 then pos 0 else if ltb diff (2 ^ 63) then pos 1 else negsuc 0

unfoldable pub aspace_avl_insert_wrapper : Fresh → Option AvlTreeData → ℕ → ℕ → Option AvlTreeData
aspace_avl_insert_wrapper fresh none start_addr size = none
aspace_avl_insert_wrapper fresh (some tree) start_addr size =
    some (insert_avl fresh tree start_addr size).0

-- The size of the region, 0 if not found
unfoldable pub aspace_avl_remove_wrapper : Option AvlTreeData → ℕ → Option AvlTreeData × ℕ
aspace_avl_remove_wrapper none start_addr = (none, 0)
aspace_avl_remove_wrapper (some tree) start_addr =
    let (tree', size) = remove_avl tree start_addr in (some tree', size)

unfoldable pub aspace_avl_search_wrapper : Option AvlTreeData → ℕ → ℕ
aspace_avl_search_wrapper none start_addr = 0
aspace_avl_search_wrapper (some tree) start_addr = find_avl tree start_addr

unfoldable pub aspace_avl_search_range_wrapper : Option AvlTreeData → ℕ → Option Entry
aspace_avl_search_range_wrapper none start_addr = none
aspace_avl_search_range_wrapper (some tree) start_addr = find_range_avl tree start_addr

-- `n->dirty = 1` in the signal handler, for the node that the range search returns.
unfoldable pub mark_dirty : Option AvlTreeData → ℕ → Option AvlTreeData
mark_dirty none addr = none
mark_dirty (some tree) addr = some (record tree {
  root = update_range tree.comparator addr (λ e. record e { dirty = 1 }) tree.root;
})

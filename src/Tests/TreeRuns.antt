-- ===== src/Tests/TreeRuns.antt =====
-- Runs of AVL.cpp and of the logarithms.
use mathlib.Core.Option
use sbllmalloc.Shared.{ℕ, suc, ◌+◌, ◌^◌, ◌≤◌, ◌<◌, ◌≡◌, refl, arith, pos}
use sbllmalloc.Log2.{floor_log2, floor_log2_bounds}
use sbllmalloc.Avl.Tree.{Entry, AvlNode, null, node, balance, taller, get_balance}
use sbllmalloc.Avl.Insert.{insert_avl}
use sbllmalloc.Avl.Remove.{remove_avl}
use sbllmalloc.Avl.Search.{find_avl, find_range_avl, traverse}
use sbllmalloc.Avl.Assoc.{insert_region, delete_region, lookup_region}
use sbllmalloc.Avl.Ranges.{region_at, Disjoint}
use sbllmalloc.Avl.Bindings.{bindings}
use sbllmalloc.Avl.SearchLaws.{region_of, InSpace}
use sbllmalloc.Avl.Refinement.{
  IsValid, regions, insert_avl-refines, remove_avl-refines, find_avl-eq-lookup_region,
  find_range_avl-eq-region_at,
}
use sbllmalloc.Avl.Heights.{HasHeights, IsAvl, balance-IsAvl, balance-not_HasHeights}
use sbllmalloc.Avl.TraverseLaws.{entries, run_callback, traverse-eq-run_callback}
use sbllmalloc.Tests.Samples.{fresh, region, tree, tree-IsValid}

insert_avl-refines_example :
    let (t', result) = insert_avl fresh tree 0x13000 0x2000 in
    IsValid (2 ^ 63) t'
    × (regions t' ≡ insert_region 0x13000 0x2000 (regions tree))
    × (result ≡ lookup_region 0x13000 (regions tree))
insert_avl-refines_example =
    insert_avl-refines (2 ^ 63) tree tree-IsValid 0x13000 (omega arith) fresh 0x2000

remove_avl-refines_example :
    let (t', result) = remove_avl tree 0x12000 in
    IsValid (2 ^ 63) t'
    × (regions t' ≡ delete_region 0x12000 (regions tree))
    × (result ≡ lookup_region 0x12000 (regions tree))
remove_avl-refines_example = remove_avl-refines (2 ^ 63) tree tree-IsValid 0x12000 (omega arith)

find_avl-eq-lookup_region_example : find_avl tree 0x12000 ≡ lookup_region 0x12000 (regions tree)
find_avl-eq-lookup_region_example =
    find_avl-eq-lookup_region (2 ^ 63) tree tree-IsValid 0x12000 (omega arith)

tree-InSpace : InSpace tree.root
tree-InSpace = (omega arith, (omega arith, tt, tt), (omega arith, tt, tt))

tree-Disjoint : Disjoint (regions tree)
unfolding bindings
tree-Disjoint = (
  omega arith,
  (omega arith, (omega arith, tt)),
  (omega arith, (omega arith, tt), (omega arith, tt, tt)),
)

find_range_avl-eq-region_at_example :
    Option.map region_of (find_range_avl tree 0x12800) ≡ region_at 0x12800 (regions tree)
find_range_avl-eq-region_at_example =
    find_range_avl-eq-region_at (2 ^ 63) tree tree-IsValid 0x12800 (omega arith) tree-InSpace
      tree-Disjoint

abbrev leaf : ℕ → AvlNode
leaf key = node (region key 0x1000) 1 null null

leaf-IsAvl : (key : ℕ) → IsAvl (leaf key)
unfolding taller
leaf-IsAvl key = (refl, omega arith, omega arith, tt, tt)

abbrev chain : AvlNode
chain = node (region 0x12000 0x1000) 2 (leaf 0x11000) null

chain-IsAvl : IsAvl chain
unfolding taller
chain-IsAvl = (refl, omega arith, omega arith, leaf-IsAvl 0x11000, tt)

balance-IsAvl_example : IsAvl (balance (node (region 0x13000 0x1000) 2 chain null))
unfolding get_balance
balance-IsAvl_example =
    balance-IsAvl (region 0x13000 0x1000) 2 chain null chain-IsAvl tt (omega arith) (omega arith)
      refl refl

balance-not_HasHeights_example : ¬ HasHeights (
    balance (
      node
        (region 0x15000 0x1000)
        3
        (node
          (region 0x12000 0x1000)
          3
          (leaf 0x11000)
          (node (region 0x14000 0x1000) 2 (leaf 0x13000) null))
        (leaf 0x16000)))
balance-not_HasHeights_example =
    balance-not_HasHeights (region 0x15000 0x1000) (region 0x12000 0x1000) (region 0x14000 0x1000) 3
      3 2 (leaf 0x11000) (leaf 0x13000) null (leaf 0x16000) (omega arith) (omega arith)
      (omega arith)

abbrev add_size : ℕ → Entry → ℕ × Entry
add_size s e = (s + e.value, record e { dirty = 1 })

traverse-eq-run_callback_example :
    let (s', t') = traverse add_size 0 tree.root in
    run_callback add_size 0 (entries tree.root) ≡ (s', entries t')
traverse-eq-run_callback_example = traverse-eq-run_callback add_size 0 tree.root

floor_log2_bounds_example :
    (p : ℕ) × (floor_log2 4097 ≡ pos p) × (2 ^ p ≤ 4097) × (4097 < 2 ^ suc p)
floor_log2_bounds_example = floor_log2_bounds 4097 (omega arith) (omega arith)

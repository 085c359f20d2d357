-- ===== src/Avl/Refinement.antt =====
-- The whole tree, `AVLTreeData`: its invariant, and its operations as operations on the list of
-- regions.
use sbllmalloc.Shared.{ℕ, ◌<◌, ◌≡◌, refl, ◌∙◌, arith, List, [], length}
use mathlib.Core.Option
use sbllmalloc.Avl.Tree.{Comparator, AvlTreeData, create_avl}
use sbllmalloc.Avl.Insert.{Fresh, insert, insert_avl}
use sbllmalloc.Avl.Remove.{remove_avl}
use sbllmalloc.Avl.Search.{find_avl, find_range_avl}
use sbllmalloc.Avl.Order.{IsComparator, IsOrdered, balance-IsOrdered}
use sbllmalloc.Avl.Assoc.{Region, insert_region, delete_region, lookup_region}
use sbllmalloc.Avl.Ranges.{region_at, Disjoint}
use sbllmalloc.Avl.Bindings.{bindings, bindings-balance}
use sbllmalloc.Avl.InsertLaws.{insert-IsOrdered, insert-Inserts}
use sbllmalloc.Avl.RemoveLaws.{remove-IsOrdered, remove-Removes}
use sbllmalloc.Avl.SearchLaws.{region_of, InSpace, find-eq-lookup_region, find_range-eq-region_at}

-- The comparator orders the keys below `limit`, all keys are there and in order, and `size` counts
-- the nodes.
pub record IsValid (limit : ℕ) (t : AvlTreeData) : Type 0 where
  pub lawful : IsComparator limit t.comparator
  pub ordered : IsOrdered 0 limit t.root
  pub counted : t.size ≡ length (bindings t.root)

abbrev pub regions : AvlTreeData → List Region
regions t = bindings t.root

pub create_avl-IsValid :
    (limit : ℕ) (c : Comparator)
    → IsComparator limit c
    → IsValid limit (create_avl c) × (regions (create_avl c) ≡ [])
unfolding create_avl bindings
create_avl-IsValid limit c law = (record { lawful = law; ordered = tt; counted = refl }, refl)

module _ (limit : ℕ) (t : AvlTreeData) (valid : IsValid limit t) (k : ℕ) (fits : k < limit) where
  -- In a valid tree, `InsertAVL` of a key below the bound adds the region to the ordered list of
  -- regions unless its key is there, returns the value that was there or 0, and leaves the tree
  -- valid: ordered, with `size` equal to the number of nodes.
  pub insert_avl-refines :
      (f : Fresh) (v : ℕ)
      → let (t', result) = insert_avl f t k v in
        IsValid limit t'
        × (regions t' ≡ insert_region k v (regions t))
        × (result ≡ lookup_region k (regions t))
  unfolding insert_avl
  insert_avl-refines f v =
      let law = valid.lawful in
      let does =
        insert-Inserts t.comparator f k v limit law fits t.size 0 limit t.root valid.ordered
          (omega arith) in
      let same = bindings-balance (insert t.comparator f k v t.size t.root).tree ∙ does.0 in
      (
        record {
          lawful = law;
          ordered = balance-IsOrdered 0 limit _ (
              insert-IsOrdered t.comparator f k v limit law fits t.size 0 limit t.root valid.ordered
                (omega arith) (omega arith) fits);
          counted = rw same (omega (arith, does.2, valid.counted));
        },
        same,
        does.1,
      )

  -- In a valid tree, `RemoveAVL` of a key below the bound takes the region out of the list of
  -- regions, returns its value or 0, and leaves the tree valid.
  pub remove_avl-refines :
      let (t', result) = remove_avl t k in
      IsValid limit t'
      × (regions t' ≡ delete_region k (regions t))
      × (result ≡ lookup_region k (regions t))
  unfolding remove_avl
  remove_avl-refines =
      let law = valid.lawful in
      let does =
        remove-Removes t.comparator k limit law fits t.size 0 limit t.root valid.ordered
          (omega arith) (omega (arith, valid.counted)) in
      (
        record {
          lawful = law;
          ordered =
              remove-IsOrdered t.comparator k limit law fits t.size 0 limit t.root valid.ordered
                (omega arith);
          counted = rw does.0 (omega (arith, does.2, valid.counted));
        },
        does.0,
        does.1,
      )

  -- In a valid tree, `FindAVL` of a key below the bound returns the value that the list of regions
  -- has for the key, and 0 if it has none.
  pub find_avl-eq-lookup_region : find_avl t k ≡ lookup_region k (regions t)
  unfolding find_avl
  find_avl-eq-lookup_region =
      find-eq-lookup_region t.comparator k limit valid.lawful fits 0 limit t.root valid.ordered
        (omega arith)

  -- In a valid tree whose regions do not overlap nor reach 2^64, `FindRangeAVL` of an address
  -- below the bound finds the region in which the address lies, and nothing if there is none.
  pub find_range_avl-eq-region_at :
      InSpace t.root
      → Disjoint (regions t)
      → Option.map region_of (find_range_avl t k) ≡ region_at k (regions t)
  unfolding find_range_avl
  find_range_avl-eq-region_at space d =
      find_range-eq-region_at t.comparator k limit valid.lawful fits 0 limit t.root valid.ordered
        (omega arith) space d

-- ===== src/Avl/SearchLaws.antt =====
-- `FindAVL` and `FindRangeAVL` against the list of regions.
use sbllmalloc.Shared.{ℕ, suc, ◌+◌, ◌^◌, ◌≤◌, ◌<◌, ◌≡◌, refl, ap, arith, ◌∷◌}
use mathlib.Core.Option
use sbllmalloc.Avl.Tree.{Comparator, Entry, AvlNode, null, node}
use sbllmalloc.Avl.Search.{find, find_range, update_range}
use sbllmalloc.Avl.Order.{IsComparator, IsOrdered}
use sbllmalloc.Avl.Assoc.{
  Region, lookup_region, lookup_region_before, lookup_region_after, Below-le,
}
use sbllmalloc.Avl.Ranges.{
  region_at, Disjoint, Disjoint-EndBy, Disjoint-left, Disjoint-right, region_at_before,
  region_at_after,
}
use sbllmalloc.Avl.Bindings.{bindings, bindings-Below}

abbrev pub region_of : Entry → Region
region_of e = (e.key, e.value)

-- No region reaches the end of the address space.
abbrev pub InSpace : AvlNode → Type 0
InSpace null = Unit {0}
InSpace (node e h l r) = (e.key + e.value < 2 ^ 64) × InSpace l × InSpace r

module _ (c : Comparator) (k limit : ℕ) (law : IsComparator limit c) (fits : k < limit) where
  -- `FindAVL` looks the key up in the list of regions.
  pub find-eq-lookup_region :
      (lo hi : ℕ) (t : AvlNode)
      → IsOrdered lo hi t
      → hi ≤ limit
      → find c k t ≡ lookup_region k (bindings t)
  unfolding find bindings lookup_region
  find-eq-lookup_region lo hi null s top = refl
  find-eq-lookup_region lo hi (node e h l r) s top = ground (
    arith,
    law.negative k e.key fits (omega arith),
    law.positive k e.key fits (omega arith),
    find-eq-lookup_region lo e.key l s.2 (omega arith),
    find-eq-lookup_region (suc e.key) hi r s.3 top,
    lookup_region_before k 0 e.key e.value (bindings r) (bindings l),
    λ (le : e.key ≤ k).
        lookup_region_after k 0 ((e.key, e.value) ∷ bindings r) (bindings l)
          (Below-le e.key k (bindings l) le (bindings-Below lo e.key l s.2)),
  )

  -- `FindRangeAVL` finds the region in which an address lies.
  pub find_range-eq-region_at :
      (lo hi : ℕ) (t : AvlNode)
      → IsOrdered lo hi t
      → hi ≤ limit
      → InSpace t
      → Disjoint (bindings t)
      → Option.map region_of (find_range c k t) ≡ region_at k (bindings t)
  unfolding find_range bindings region_at
  find_range-eq-region_at lo hi null s top space d = refl
  find_range-eq-region_at lo hi (node e h l r) s top space d =
      let ends = Disjoint-EndBy e.key e.value (bindings l) (bindings r) d in
      let rest = Disjoint-right (bindings l) ((e.key, e.value) ∷ bindings r) d in
      ground (
        arith,
        law.negative k e.key fits (omega arith),
        law.positive k e.key fits (omega arith),
        find_range-eq-region_at lo e.key l s.2 (omega arith) space.1
            (Disjoint-left (bindings l) ((e.key, e.value) ∷ bindings r) d),
        find_range-eq-region_at (suc e.key) hi r s.3 top space.2 rest.2,
        region_at_before k e.key e.value (bindings r) (bindings l),
        λ (le : e.key ≤ k). region_at_after k e.key e.value (bindings r) (bindings l) le ends,
      )

-- A write through the pointer that `FindRangeAVL` returns changes that node and moves no region.
module _ (c : Comparator) (k : ℕ) (f : Entry → Entry) where
  pub bindings-update_range :
      ((e : Entry) → region_of (f e) ≡ region_of e)
      → (t : AvlNode) → bindings (update_range c k f t) ≡ bindings t
  unfolding update_range bindings
  bindings-update_range keeps null = refl
  bindings-update_range keeps (node e h l r) =
      ground (arith, keeps e, bindings-update_range keeps l, bindings-update_range keeps r)

  pub find_range-update_range :
      ((e : Entry) → region_of (f e) ≡ region_of e)
      → (t : AvlNode) → find_range c k (update_range c k f t) ≡ Option.map f (find_range c k t)
  unfolding update_range find_range
  find_range-update_range keeps null = refl
  find_range-update_range keeps (node e h l r) = ground (
    arith,
    keeps e,
    ap (λ (n : ℕ). c k n) (ap (λ (b : Region). b.0) (keeps e)),
    find_range-update_range keeps l,
    find_range-update_range keeps r,
  )

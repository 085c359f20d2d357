-- ===== src/Avl/RemoveLaws.antt =====
-- `RemoveAVL` against the list of regions.
use sbllmalloc.Shared.{
  ℕ, suc, ◌+◌, ◌≤◌, ◌<◌, ◌≡◌, refl, ◌∙◌, arith, List, [], ◌∷◌, ◌++◌, length, length-append,
  append_assoc, append-nil,
}
use sbllmalloc.Shared.Trichotomy.{below, above, same, trichotomy}
use sbllmalloc.Avl.Tree.{Comparator, Entry, AvlNode, null, node}
use sbllmalloc.Avl.Insert.{Outcome}
use sbllmalloc.Avl.Remove.{
  reseat, remove_left_most, remove_right_most, move_data, unlink, remove, destroy,
}
use sbllmalloc.Avl.Order.{IsComparator, IsOrdered, balance-IsOrdered}
use sbllmalloc.Avl.Assoc.{
  Region, delete_region, lookup_region, length-regions, delete_region_before, delete_region_after,
  lookup_region_before, lookup_region_after, Below-le,
}
use sbllmalloc.Avl.Bindings.{bindings, bindings-balance, bindings-Below}

bindings-reseat :
    (e : Entry) (l r : AvlNode)
    → bindings (reseat e l r) ≡ bindings l ++ (e.key, e.value) ∷ bindings r
unfolding reseat bindings
bindings-reseat e l r = bindings-balance _

-- The leftmost node held the first region.
bindings-remove_left_most :
    (e : Entry) (h : ℕ) (l r : AvlNode)
    → let (first, rest) = remove_left_most e h l r in
      bindings (node e h l r) ≡ (first.key, first.value) ∷ bindings rest
unfolding remove_left_most bindings
bindings-remove_left_most e h null r = refl
bindings-remove_left_most e h (node le lh ll lr) r =
    rw (bindings-remove_left_most le lh ll lr, bindings-reseat)

bindings-remove_right_most :
    (e : Entry) (h : ℕ) (l r : AvlNode)
    → let (last, rest) = remove_right_most e h l r in
      bindings (node e h l r) ≡ bindings rest ++ (last.key, last.value) ∷ []
unfolding remove_right_most bindings
bindings-remove_right_most e h l null = refl
bindings-remove_right_most e h l (node re rh rl rr) =
    simp (bindings-remove_right_most re rh rl rr, bindings-reseat, append_assoc)

-- The node that takes the place of a found one holds the regions of both children.
bindings-unlink :
    (e : Entry) (h : ℕ) (l r : AvlNode) → bindings (unlink e h l r) ≡ bindings l ++ bindings r
unfolding unlink bindings move_data
bindings-unlink e h l (node re rh rl rr) =
    bindings-balance _ ∙ rw (bindings-remove_left_most re rh rl rr)
bindings-unlink e h (node le lh ll lr) null =
    bindings-balance _ ∙ rw (append-nil, bindings-remove_right_most le lh ll lr)
bindings-unlink e h null null = refl

IsOrdered-le :
    (lo hi low high : ℕ) (t : AvlNode)
    → low ≤ lo
    → hi ≤ high
    → IsOrdered lo hi t
    → IsOrdered low high t
IsOrdered-le lo hi low high null a b s = tt
IsOrdered-le lo hi low high (node e h l r) a b s = (
  omega arith,
  omega arith,
  IsOrdered-le lo e.key low e.key l a (omega arith) s.2,
  IsOrdered-le (suc e.key) hi (suc e.key) high r (omega arith) b s.3,
)

remove_left_most-IsOrdered :
    (lo hi : ℕ) (e : Entry) (h : ℕ) (l r : AvlNode)
    → IsOrdered lo hi (node e h l r)
    → let (first, rest) = remove_left_most e h l r in
      (lo ≤ first.key) × (first.key < hi) × IsOrdered (suc first.key) hi rest
unfolding remove_left_most reseat
remove_left_most-IsOrdered lo hi e h null r s = (s.0, s.1, s.3)
remove_left_most-IsOrdered lo hi e h (node le lh ll lr) r s =
    let (low, high, rest) = remove_left_most-IsOrdered lo e.key le lh ll lr s.2 in
    (low, omega arith, balance-IsOrdered _ hi (node e _ _ r) (high, s.1, rest, s.3))

remove_right_most-IsOrdered :
    (lo hi : ℕ) (e : Entry) (h : ℕ) (l r : AvlNode)
    → IsOrdered lo hi (node e h l r)
    → let (last, rest) = remove_right_most e h l r in
      (lo ≤ last.key) × (last.key < hi) × IsOrdered lo last.key rest
unfolding remove_right_most reseat
remove_right_most-IsOrdered lo hi e h l null s = (s.0, s.1, s.2)
remove_right_most-IsOrdered lo hi e h l (node re rh rl rr) s =
    let (low, high, rest) = remove_right_most-IsOrdered (suc e.key) hi re rh rl rr s.3 in
    (omega arith, high, balance-IsOrdered lo _ (node e _ l _) (s.0, low, s.2, rest))

unlink-IsOrdered :
    (lo hi : ℕ) (e : Entry) (h : ℕ) (l r : AvlNode)
    → IsOrdered lo hi (node e h l r)
    → IsOrdered lo hi (unlink e h l r)
unfolding unlink move_data
unlink-IsOrdered lo hi e h l (node re rh rl rr) s =
    let (low, high, rest) = remove_left_most-IsOrdered (suc e.key) hi re rh rl rr s.3 in
    balance-IsOrdered lo hi (node _ h l _)
      (omega arith, high, IsOrdered-le lo e.key lo _ l (omega arith) (omega arith) s.2, rest)
unlink-IsOrdered lo hi e h (node le lh ll lr) null s =
    let (low, high, rest) = remove_right_most-IsOrdered lo e.key le lh ll lr s.2 in
    balance-IsOrdered lo hi (node _ h _ null) (low, omega arith, rest, tt)
unlink-IsOrdered lo hi e h null null s = tt

-- What `Remove` does to the regions, to the value returned and to the size.
abbrev pub Removes : ℕ → ℕ → List Region → Outcome → Type 0
Removes k n m out =
    (bindings out.tree ≡ delete_region k m)
    × (out.result ≡ lookup_region k m)
    × (out.size + length m ≡ n + length (delete_region k m))

module _ (c : Comparator) (k limit : ℕ) (law : IsComparator limit c) (fits : k < limit) where
  pub remove-IsOrdered :
      (n lo hi : ℕ) (t : AvlNode)
      → IsOrdered lo hi t
      → hi ≤ limit
      → IsOrdered lo hi (remove c k n t).tree
  unfolding remove
  remove-IsOrdered n lo hi null s top = tt
  remove-IsOrdered n lo hi (node e h l r) s top = elim (trichotomy k e.key) [
    | below p q ↦
        rw (law.negative k e.key fits (omega arith), q)
          (balance-IsOrdered lo hi (node e h _ r)
            (s.0, s.1, remove-IsOrdered n lo e.key l s.2 (omega arith), s.3))
    | above p q w ↦
        rw (law.negative k e.key fits (omega arith), law.positive k e.key fits (omega arith), q, w)
          (balance-IsOrdered lo hi (node e h l _)
            (s.0, s.1, s.2, remove-IsOrdered n (suc e.key) hi r s.3 top))
    | same p q w ↦
        rw (law.negative k e.key fits (omega arith), law.positive k e.key fits (omega arith), q, w)
          (unlink-IsOrdered lo hi e h l r s)
  ]

  -- `Remove` implements the deletion from the list of regions.
  pub remove-Removes :
      (n lo hi : ℕ) (t : AvlNode)
      → IsOrdered lo hi t
      → hi ≤ limit
      → length (bindings t) ≤ n
      → Removes k n (bindings t) (remove c k n t)
  unfolding remove delete_region lookup_region bindings
  remove-Removes n lo hi null s top counted = (refl, refl, refl)
  remove-Removes n lo hi (node e h l r) s top counted = elim (trichotomy k e.key) [
    | below p q ↦
        let ih = remove-Removes n lo e.key l s.2 (omega arith) (omega (arith, length-regions)) in
        let before = delete_region_before k 0 e.key e.value (bindings r) (bindings l) p in
        let there = lookup_region_before k 0 e.key e.value (bindings r) (bindings l) p in
        rw (law.negative k e.key fits (omega arith), q, before, there)
          (bindings-balance _ ∙ rw ih.0, ih.1, omega (arith, ih.2, length-regions))
    | above p q w ↦
        let ih = remove-Removes n (suc e.key) hi r s.3 top (omega (arith, length-regions)) in
        let low = Below-le e.key k (bindings l) (omega arith) (bindings-Below lo e.key l s.2) in
        let after = delete_region_after k 0 ((e.key, e.value) ∷ bindings r) (bindings l) low in
        let there = lookup_region_after k 0 ((e.key, e.value) ∷ bindings r) (bindings l) low in
        rw
          (
            law.negative k e.key fits (omega arith),
            law.positive k e.key fits (omega arith),
            after,
            there,
            q,
            w,
          )
          (bindings-balance _ ∙ rw ih.0, ih.1, omega (arith, ih.2, length-regions))
    | same p q w ↦
        let low = Below-le e.key k (bindings l) (omega arith) (bindings-Below lo e.key l s.2) in
        let after = delete_region_after k 0 ((e.key, e.value) ∷ bindings r) (bindings l) low in
        let there = lookup_region_after k 0 ((e.key, e.value) ∷ bindings r) (bindings l) low in
        rw
          (
            law.negative k e.key fits (omega arith),
            law.positive k e.key fits (omega arith),
            after,
            there,
            q,
            w,
          )
          (bindings-unlink e h l r, refl, omega (arith, length-regions))
  ]

-- `Destroy` frees as many nodes as there are.
pub length-destroy : (t : AvlNode) → length (destroy t) ≡ length (bindings t)
unfolding destroy bindings
length-destroy null = refl
length-destroy (node e h l r) = omega (
  arith,
  length-destroy l,
  length-destroy r,
  length-append (destroy l) (destroy r ++ e ∷ []),
  length-append (destroy r) (e ∷ []),
  length-append (bindings l) ((e.key, e.value) ∷ bindings r),
)

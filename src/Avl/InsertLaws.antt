-- ===== src/Avl/InsertLaws.antt =====
-- `InsertAVL` against the list of regions: what is inserted, what is returned, what is counted, and
-- the order. One lemma for each side hides whether the child that is entered was there.
use sbllmalloc.Shared.{
  ℕ, suc, ◌+◌, ◌≤◌, ◌<◌, ◌≡◌, refl, sym, ◌∙◌, arith, List, [], ◌∷◌, ◌++◌, length, true, false,
  is_neg, is_pos,
}
use sbllmalloc.Shared.Trichotomy.{below, above, same, trichotomy}
use sbllmalloc.Avl.Tree.{Comparator, Entry, AvlNode, null, node}
use sbllmalloc.Avl.Insert.{Fresh, Outcome, new_node, grow, insert}
use sbllmalloc.Avl.Order.{IsComparator, IsOrdered, balance-IsOrdered}
use sbllmalloc.Avl.Assoc.{
  Region, insert_region, lookup_region, length-regions, insert_region_before, insert_region_after,
  lookup_region_before, lookup_region_after, Below-le,
}
use sbllmalloc.Avl.Bindings.{bindings, bindings-balance, bindings-Below}

grow-IsOrdered : (lo hi : ℕ) (t : AvlNode) → IsOrdered lo hi t → IsOrdered lo hi (grow t)
unfolding grow
grow-IsOrdered lo hi null s = tt
grow-IsOrdered lo hi (node e h l r) s = ground arith

bindings-grow : (t : AvlNode) → bindings (grow t) ≡ bindings t
unfolding grow bindings
bindings-grow null = refl
bindings-grow (node e h l r) = ground arith

-- What `Insert` does to the regions, to the value returned and to the size.
abbrev pub Inserts : ℕ → ℕ → ℕ → List Region → Outcome → Type 0
Inserts k v n m out =
    (bindings out.tree ≡ insert_region k v m)
    × (out.result ≡ lookup_region k m)
    × (out.size + length m ≡ n + length (insert_region k v m))

module _ (c : Comparator) (f : Fresh) (k v : ℕ) where
  -- The new tree, the value returned and the new size, where the walk goes left.
  left_step :
      (n : ℕ) (e : Entry) (h : ℕ) (l r : AvlNode)
      → is_neg (c k e.key) ≡ true
      → let out = insert c f k v n (node e h l r) in
        let sub = insert c f k v n l in
        (bindings out.tree ≡ bindings sub.tree ++ (e.key, e.value) ∷ bindings r)
        × (out.result ≡ sub.result)
        × (out.size ≡ sub.size)
  unfolding insert bindings new_node
  left_step n e h null r neg = rw neg (simp (bindings-balance, bindings-grow), refl, refl)
  left_step n e h (node le lh ll lr) r neg = rw neg (simp bindings-balance, refl, refl)

  right_step :
      (n : ℕ) (e : Entry) (h : ℕ) (l r : AvlNode)
      → is_neg (c k e.key) ≡ false
      → is_pos (c k e.key) ≡ true
      → let out = insert c f k v n (node e h l r) in
        let sub = insert c f k v n r in
        (bindings out.tree ≡ bindings l ++ (e.key, e.value) ∷ bindings sub.tree)
        × (out.result ≡ sub.result)
        × (out.size ≡ sub.size)
  unfolding insert bindings new_node
  right_step n e h l null neg pos =
      rw (neg, pos) (simp (bindings-balance, bindings-grow), refl, refl)
  right_step n e h l (node re rh rl rr) neg pos = rw (neg, pos) (simp bindings-balance, refl, refl)

  null_step : (n : ℕ) → Inserts k v n [] (insert c f k v n null)
  unfolding insert new_node insert_region lookup_region bindings
  null_step n = (refl, refl, omega arith)

  same_step :
      (n : ℕ) (e : Entry) (h : ℕ) (l r : AvlNode)
      → is_neg (c k e.key) ≡ false
      → is_pos (c k e.key) ≡ false
      → insert c f k v n (node e h l r) ≡ record { size = n; tree = node e h l r; result = e.value }
  unfolding insert
  same_step n e h l r neg pos = rw (neg, pos)

  left_step-IsOrdered :
      (lo hi n : ℕ) (e : Entry) (h : ℕ) (l r : AvlNode)
      → is_neg (c k e.key) ≡ true
      → IsOrdered lo hi (node e h (insert c f k v n l).tree r)
      → IsOrdered lo hi (insert c f k v n (node e h l r)).tree
  unfolding insert new_node
  left_step-IsOrdered lo hi n e h null r neg s =
      rw neg (balance-IsOrdered lo hi (grow _) (grow-IsOrdered lo hi (node e h _ r) s))
  left_step-IsOrdered lo hi n e h (node le lh ll lr) r neg s =
      rw neg (balance-IsOrdered lo hi (node e h _ r) s)

  right_step-IsOrdered :
      (lo hi n : ℕ) (e : Entry) (h : ℕ) (l r : AvlNode)
      → is_neg (c k e.key) ≡ false
      → is_pos (c k e.key) ≡ true
      → IsOrdered lo hi (node e h l (insert c f k v n r).tree)
      → IsOrdered lo hi (insert c f k v n (node e h l r)).tree
  unfolding insert new_node
  right_step-IsOrdered lo hi n e h l null neg pos s =
      rw (neg, pos) (balance-IsOrdered lo hi (grow _) (grow-IsOrdered lo hi (node e h l _) s))
  right_step-IsOrdered lo hi n e h l (node re rh rl rr) neg pos s =
      rw (neg, pos) (balance-IsOrdered lo hi (node e h l _) s)

module _ (c : Comparator) (f : Fresh) (k v limit : ℕ) (law : IsComparator limit c)
    (fits : k < limit) where
  pub insert-IsOrdered :
      (n lo hi : ℕ) (t : AvlNode)
      → IsOrdered lo hi t
      → hi ≤ limit
      → lo ≤ k
      → k < hi
      → IsOrdered lo hi (insert c f k v n t).tree
  unfolding insert new_node
  insert-IsOrdered n lo hi null s top low high = (low, high, tt, tt)
  insert-IsOrdered n lo hi (node e h l r) s top low high = elim (trichotomy k e.key) [
    | below p q ↦
        left_step-IsOrdered c f k v lo hi n e h l r (law.negative k e.key fits (omega arith) ∙ q)
          (s.0, s.1, insert-IsOrdered n lo e.key l s.2 (omega arith) low p, s.3)
    | above p q w ↦
        right_step-IsOrdered c f k v lo hi n e h l r (law.negative k e.key fits (omega arith) ∙ q)
          (law.positive k e.key fits (omega arith) ∙ w)
          (s.0, s.1, s.2, insert-IsOrdered n (suc e.key) hi r s.3 top p high)
    | same p q w ↦
        rw
          (same_step c f k v n e h l r (law.negative k e.key fits (omega arith) ∙ q)
            (law.positive k e.key fits (omega arith) ∙ w))
          s
  ]

  -- `Insert` implements the insertion into the list of regions.
  pub insert-Inserts :
      (n lo hi : ℕ) (t : AvlNode)
      → IsOrdered lo hi t
      → hi ≤ limit
      → Inserts k v n (bindings t) (insert c f k v n t)
  unfolding insert_region lookup_region bindings
  insert-Inserts n lo hi null s top = null_step c f k v n
  insert-Inserts n lo hi (node e h l r) s top = elim (trichotomy k e.key) [
    | below p q ↦
        let step = left_step c f k v n e h l r (law.negative k e.key fits (omega arith) ∙ q) in
        let ih = insert-Inserts n lo e.key l s.2 (omega arith) in
        let before = insert_region_before k v e.key e.value (bindings r) (bindings l) p in
        (
          step.0 ∙ rw (ih.0, before),
          step.1 ∙ ih.1 ∙ sym (lookup_region_before k v e.key e.value (bindings r) (bindings l) p),
          rw (before, step.2) (omega (arith, ih.2, length-regions)),
        )
    | above p q w ↦
        let step =
          right_step c f k v n e h l r (law.negative k e.key fits (omega arith) ∙ q)
            (law.positive k e.key fits (omega arith) ∙ w) in
        let ih = insert-Inserts n (suc e.key) hi r s.3 top in
        let low = Below-le e.key k (bindings l) (omega arith) (bindings-Below lo e.key l s.2) in
        let after = insert_region_after k v ((e.key, e.value) ∷ bindings r) (bindings l) low in
        (
          step.0 ∙ rw (ih.0, after, insert_region, q, w),
          step.1
              ∙ ih.1
              ∙ sym (
                  lookup_region_after k v ((e.key, e.value) ∷ bindings r) (bindings l) low
                  ∙ rw (q, w)),
          rw (after, step.2, q, w) (omega (arith, ih.2, length-regions)),
        )
    | same p q w ↦
        let low = Below-le e.key k (bindings l) (omega arith) (bindings-Below lo e.key l s.2) in
        let step =
          same_step c f k v n e h l r (law.negative k e.key fits (omega arith) ∙ q)
            (law.positive k e.key fits (omega arith) ∙ w) in
        let after = insert_region_after k v ((e.key, e.value) ∷ bindings r) (bindings l) low in
        let there = lookup_region_after k v ((e.key, e.value) ∷ bindings r) (bindings l) low in
        rw (step, after, there, q, w) (refl, refl, refl)
  ]

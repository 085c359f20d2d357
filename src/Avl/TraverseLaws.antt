-- ===== src/Avl/TraverseLaws.antt =====
-- AVL.cpp: `TraverseAVL` and the callback run over a list.
use sbllmalloc.Shared.{◌≡◌, refl, ap, ◌∙◌, List, [], ◌∷◌, ◌++◌}
use sbllmalloc.Avl.Tree.{Entry, AvlNode, null, node}
use sbllmalloc.Avl.Search.{traverse}
use sbllmalloc.Avl.SearchLaws.{region_of}
use sbllmalloc.Avl.Bindings.{bindings}

unfoldable pub entries : AvlNode → List Entry
entries null = []
entries (node e h l r) = entries l ++ e ∷ entries r

module _ {ℓ} {S : Type ℓ} (func : S → Entry → S × Entry) where
  -- The callback, called on the entries of a list one after another.
  unfoldable pub run_callback : S → List Entry → S × List Entry
  run_callback s [] = (s, [])
  run_callback s (e ∷ es) =
      let (s1, e') = func s e in let (s2, es') = run_callback s1 es in (s2, e' ∷ es')

  run_callback-append :
      (s : S) (xs ys : List Entry)
      → let (s1, xs') = run_callback s xs in
        let (s2, ys') = run_callback s1 ys in run_callback s (xs ++ ys) ≡ (s2, xs' ++ ys')
  unfolding run_callback
  run_callback-append s [] ys = refl
  run_callback-append s (x ∷ xs) ys = let (s1, x') = func s x in rw (run_callback-append s1 xs ys)

  -- `Traverse` runs the callback on the entries in the order of the tree, once each, and what it
  -- leaves in the tree is what the callback leaves of the entries.
  pub traverse-eq-run_callback :
      (s : S) (t : AvlNode)
      → let (s', t') = traverse func s t in run_callback s (entries t) ≡ (s', entries t')
  unfolding traverse entries run_callback
  traverse-eq-run_callback s null = refl
  traverse-eq-run_callback s (node e h l r) =
      let (s1, l') = traverse func s l in
      let (s2, e') = func s1 e in
      run_callback-append s (entries l) (e ∷ entries r)
      ∙ ap (λ p. after e r p) (traverse-eq-run_callback s l)
      ∙ ap (λ p. (p.0, entries l' ++ e' ∷ p.1)) (traverse-eq-run_callback s2 r)
    where
      after : Entry → AvlNode → S × List Entry → S × List Entry
      after e r p = let q = run_callback p.0 (e ∷ entries r) in (q.0, p.1 ++ q.1)

  -- A callback that writes nothing but `dirty` moves no region.
  pub bindings-traverse :
      ((s : S) (e : Entry) → region_of (func s e).1 ≡ region_of e)
      → (s : S) (t : AvlNode) → bindings (traverse func s t).1 ≡ bindings t
  unfolding traverse bindings
  bindings-traverse keeps s null = refl
  bindings-traverse keeps s (node e h l r) =
      let (s1, l') = traverse func s l in
      let (s2, e') = func s1 e in
      rw (bindings-traverse keeps s l, bindings-traverse keeps s2 r, keeps s1 e)

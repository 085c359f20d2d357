-- ===== src/Avl/Bindings.antt =====
-- The regions that a tree of AVL.cpp holds, in order.
use sbllmalloc.Shared.{ℕ, suc, ◌≡◌, refl, ◌∙◌, arith, List, [], ◌∷◌, ◌++◌, append_assoc, All-append}
use sbllmalloc.Avl.Tree.{
  AvlNode, null, node, rotate_single_right, rotate_single_left, rotate_double_right,
  rotate_double_left, refresh_height, rotate, balance,
}
use sbllmalloc.Avl.Order.{IsOrdered, rotate_cases}
use sbllmalloc.Avl.Assoc.{Region, Below, Below-le, From, From-le}

unfoldable pub bindings : AvlNode → List Region
bindings null = []
bindings (node e h l r) = bindings l ++ (e.key, e.value) ∷ bindings r

pub bindings-rotate_single_right : (t : AvlNode) → bindings (rotate_single_right t) ≡ bindings t
unfolding bindings rotate_single_right
bindings-rotate_single_right null = refl
bindings-rotate_single_right (node e h null c) = refl
bindings-rotate_single_right (node e h (node d dh a b) c) = simp append_assoc

pub bindings-rotate_single_left : (t : AvlNode) → bindings (rotate_single_left t) ≡ bindings t
unfolding bindings rotate_single_left
bindings-rotate_single_left null = refl
bindings-rotate_single_left (node d h a null) = refl
bindings-rotate_single_left (node d h a (node e eh b c)) = simp append_assoc

bindings-rotate_double_right : (t : AvlNode) → bindings (rotate_double_right t) ≡ bindings t
unfolding bindings rotate_double_right
bindings-rotate_double_right null = refl
bindings-rotate_double_right (node e h l r) =
    bindings-rotate_single_right (node e h (rotate_single_left l) r)
    ∙ rw (bindings-rotate_single_left l)

bindings-rotate_double_left : (t : AvlNode) → bindings (rotate_double_left t) ≡ bindings t
unfolding bindings rotate_double_left
bindings-rotate_double_left null = refl
bindings-rotate_double_left (node e h l r) =
    bindings-rotate_single_left (node e h l (rotate_single_right r))
    ∙ rw (bindings-rotate_single_right r)

bindings-refresh_height : (t : AvlNode) → bindings (refresh_height t) ≡ bindings t
unfolding bindings refresh_height
bindings-refresh_height null = refl
bindings-refresh_height (node e h l r) = refl

-- `Balance` moves no region.
pub bindings-balance : (t : AvlNode) → bindings (balance t) ≡ bindings t
unfolding balance
bindings-balance t =
    bindings-refresh_height (rotate t)
    ∙ rotate_cases (λ u. bindings u ≡ bindings t) t refl (bindings-rotate_single_right t)
        (bindings-rotate_double_right t) (bindings-rotate_single_left t)
        (bindings-rotate_double_left t)

-- The keys of an ordered tree lie in its bounds.
pub bindings-Below : (lo hi : ℕ) (t : AvlNode) → IsOrdered lo hi t → Below hi (bindings t)
unfolding bindings
bindings-Below lo hi null s = tt
bindings-Below lo hi (node e h l r) s =
    All-append _ (bindings l) _
      (Below-le e.key hi (bindings l) (omega arith) (bindings-Below lo e.key l s.2))
      (s.1, bindings-Below (suc e.key) hi r s.3)

pub bindings-From : (lo hi : ℕ) (t : AvlNode) → IsOrdered lo hi t → From lo (bindings t)
unfolding bindings
bindings-From lo hi null s = tt
bindings-From lo hi (node e h l r) s =
    All-append _ (bindings l) _ (bindings-From lo e.key l s.2)
      (s.0, From-le (suc e.key) lo (bindings r) (omega arith) (bindings-From (suc e.key) hi r s.3))

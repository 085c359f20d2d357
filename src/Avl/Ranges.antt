-- ===== src/Avl/Ranges.antt =====
-- Regions that do not overlap, and the region in which an address lies.
use sbllmalloc.Shared.{
  ℕ, ◌+◌, ◌≤◌, ◌<◌, ◌≡◌, ◌⊎◌, refl, arith, List, [], ◌∷◌, ◌++◌, All, Option, none, some, ltb,
  if◌then◌else◌,
}
use sbllmalloc.Avl.Assoc.{Region, From, insert_region}

unfoldable pub region_at : ℕ → List Region → Option Region
region_at k [] = none
region_at k ((j, w) ∷ m) =
    if ltb k j then none else if ltb k (j + w) then some (j, w) else region_at k m

-- In the order of the addresses, each region ends before the next begins, and none is empty.
abbrev pub Disjoint : List Region → Type 0
Disjoint [] = Unit {0}
Disjoint ((j, w) ∷ m) = (0 < w) × From (j + w) m × Disjoint m

-- All regions end at `k` or below.
abbrev pub EndBy : ℕ → List Region → Type 0
EndBy k m = All (λ b. b.0 + b.1 ≤ k) m

From-pivot : (j k w : ℕ) (xs ys : List Region) → From k (xs ++ (j, w) ∷ ys) → k ≤ j
From-pivot j k w [] ys f = f.0
From-pivot j k w (x ∷ xs) ys f = From-pivot j k w xs ys f.1

pub Disjoint-EndBy : (j w : ℕ) (xs ys : List Region) → Disjoint (xs ++ (j, w) ∷ ys) → EndBy j xs
Disjoint-EndBy j w [] ys d = tt
Disjoint-EndBy j w ((i, u) ∷ xs) ys d =
    (From-pivot j (i + u) w xs ys d.1, Disjoint-EndBy j w xs ys d.2)

From-left : (k : ℕ) (xs ys : List Region) → From k (xs ++ ys) → From k xs
From-left k [] ys f = tt
From-left k (x ∷ xs) ys f = (f.0, From-left k xs ys f.1)

pub Disjoint-left : (xs ys : List Region) → Disjoint (xs ++ ys) → Disjoint xs
Disjoint-left [] ys d = tt
Disjoint-left ((i, u) ∷ xs) ys d = (d.0, From-left (i + u) xs ys d.1, Disjoint-left xs ys d.2)

pub Disjoint-right : (xs ys : List Region) → Disjoint (xs ++ ys) → Disjoint ys
Disjoint-right [] ys d = d
Disjoint-right ((i, u) ∷ xs) ys d = Disjoint-right xs ys d.2

EndBy-le : (k n : ℕ) (m : List Region) → k ≤ n → EndBy k m → EndBy n m
EndBy-le k n [] le b = tt
EndBy-le k n ((j, w) ∷ m) le b = (omega arith, EndBy-le k n m le b.1)

module _ (k j w : ℕ) (ys : List Region) where
  pub region_at_before :
      (xs : List Region) → k < j → region_at k (xs ++ (j, w) ∷ ys) ≡ region_at k xs
  unfolding region_at
  region_at_before [] lt = ground arith
  region_at_before ((i, u) ∷ xs) lt = ground (arith, region_at_before xs lt)

  pub region_at_after :
      (xs : List Region)
      → j ≤ k
      → EndBy j xs
      → region_at k (xs ++ (j, w) ∷ ys) ≡ region_at k ((j, w) ∷ ys)
  unfolding region_at
  region_at_after [] le b = refl
  region_at_after ((i, u) ∷ xs) le b = ground (arith, region_at_after xs le b.1)

-- A region is free for `k` and `v` if it overlaps none of the list.
abbrev pub FreeFor : ℕ → ℕ → List Region → Type 0
FreeFor k v m = All (λ b. (b.0 + b.1 ≤ k) ⊎ (k + v ≤ b.0)) m

From-insert_region : (n k v : ℕ) (m : List Region) → n ≤ k → From n m → From n (insert_region k v m)
unfolding insert_region
From-insert_region n k v [] le f = (le, tt)
From-insert_region n k v ((j, w) ∷ m) le f = ground (arith, From-insert_region n k v m)

From-trans : (n k : ℕ) (m : List Region) → n ≤ k → From k m → From n m
From-trans n k [] le f = tt
From-trans n k ((j, w) ∷ m) le f = (omega arith, From-trans n k m le f.1)

-- A region that overlaps none of the others may be added.
pub Disjoint-insert_region :
    (k v : ℕ) (m : List Region)
    → 0 < v
    → FreeFor k v m
    → Disjoint m
    → Disjoint (insert_region k v m)
unfolding insert_region
Disjoint-insert_region k v [] some_bytes free d = (some_bytes, tt, tt)
Disjoint-insert_region k v ((j, w) ∷ m) some_bytes free d = ground (
  arith,
  Disjoint-insert_region k v m some_bytes free.1 d.2,
  From-insert_region (j + w) k v m,
  From-trans (k + v) (j + w) m,
)

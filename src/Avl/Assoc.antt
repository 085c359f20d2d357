-- ===== src/Avl/Assoc.antt =====
-- The abstract view of the record of regions: a list of (address, size) pairs in the order of the
-- addresses, and the three operations on it.
use sbllmalloc.Shared.{
  ℕ, ◌+◌, ◌≤◌, ◌<◌, ◌≡◌, refl, arith, List, [], ◌∷◌, ◌++◌, All, length, length-append, ltb,
  if◌then◌else◌,
}

abbrev pub Region : Type 0
Region = ℕ × ℕ

pub length-regions : (xs ys : List Region) → length (xs ++ ys) ≡ length xs + length ys
length-regions xs ys = length-append xs ys

-- A key that is there keeps its value.
unfoldable pub insert_region : ℕ → ℕ → List Region → List Region
insert_region k v [] = (k, v) ∷ []
insert_region k v ((j, w) ∷ m) =
    if ltb k j
    then (k, v) ∷ (j, w) ∷ m
    else if ltb j k
    then (j, w) ∷ insert_region k v m
    else (j, w) ∷ m

unfoldable pub delete_region : ℕ → List Region → List Region
delete_region k [] = []
delete_region k ((j, w) ∷ m) =
    if ltb k j then (j, w) ∷ m else if ltb j k then (j, w) ∷ delete_region k m else m

-- 0 for a key that is not there
unfoldable pub lookup_region : ℕ → List Region → ℕ
lookup_region k [] = 0
lookup_region k ((j, w) ∷ m) = if ltb k j then 0 else if ltb j k then lookup_region k m else w

-- All keys are below `k`.
abbrev pub Below : ℕ → List Region → Type 0
Below k m = All (λ b. b.0 < k) m

-- All keys are `k` or above.
abbrev pub From : ℕ → List Region → Type 0
From k m = All (λ b. k ≤ b.0) m

pub Below-le : (k n : ℕ) (m : List Region) → k ≤ n → Below k m → Below n m
Below-le k n [] le b = tt
Below-le k n ((j, w) ∷ m) le b = (omega arith, Below-le k n m le b.1)

pub From-le : (k n : ℕ) (m : List Region) → n ≤ k → From k m → From n m
From-le k n [] le b = tt
From-le k n ((j, w) ∷ m) le b = (omega arith, From-le k n m le b.1)

module _ (k v j w : ℕ) (ys : List Region) where
  -- A key below a pivot is dealt with before it.
  pub insert_region_before :
      (xs : List Region)
      → k < j
      → insert_region k v (xs ++ (j, w) ∷ ys) ≡ insert_region k v xs ++ (j, w) ∷ ys
  unfolding insert_region
  insert_region_before [] lt = ground arith
  insert_region_before ((i, u) ∷ xs) lt = ground (arith, insert_region_before xs lt)

  pub delete_region_before :
      (xs : List Region)
      → k < j
      → delete_region k (xs ++ (j, w) ∷ ys) ≡ delete_region k xs ++ (j, w) ∷ ys
  unfolding delete_region
  delete_region_before [] lt = ground arith
  delete_region_before ((i, u) ∷ xs) lt = ground (arith, delete_region_before xs lt)

  pub lookup_region_before :
      (xs : List Region) → k < j → lookup_region k (xs ++ (j, w) ∷ ys) ≡ lookup_region k xs
  unfolding lookup_region
  lookup_region_before [] lt = ground arith
  lookup_region_before ((i, u) ∷ xs) lt = ground (arith, lookup_region_before xs lt)

module _ (k v : ℕ) (ys : List Region) where
  -- A key above all of the first part is dealt with in the second.
  pub insert_region_after :
      (xs : List Region) → Below k xs → insert_region k v (xs ++ ys) ≡ xs ++ insert_region k v ys
  unfolding insert_region
  insert_region_after [] b = refl
  insert_region_after ((i, u) ∷ xs) b = ground (arith, insert_region_after xs b.1)

  pub delete_region_after :
      (xs : List Region) → Below k xs → delete_region k (xs ++ ys) ≡ xs ++ delete_region k ys
  unfolding delete_region
  delete_region_after [] b = refl
  delete_region_after ((i, u) ∷ xs) b = ground (arith, delete_region_after xs b.1)

  pub lookup_region_after :
      (xs : List Region) → Below k xs → lookup_region k (xs ++ ys) ≡ lookup_region k ys
  unfolding lookup_region
  lookup_region_after [] b = refl
  lookup_region_after ((i, u) ∷ xs) b = ground (arith, lookup_region_after xs b.1)

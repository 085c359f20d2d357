-- ===== src/Pages/Sums.antt =====
-- Sums over the pages, or over the processes, below a number.
use native.Mathlib.Decide.{ℕ_discrete}
use sbllmalloc.Shared.{ℕ, zero, suc, ◌+◌, ◌*◌, ◌≤◌, ◌<◌, ◌≡◌, ◌≢◌, refl, sym, ap, ◌∙◌, arith}

unfoldable pub sum_below : ℕ → (ℕ → ℕ) → ℕ
sum_below zero f = 0
sum_below (suc n) f = sum_below n f + f n

pub sum_below-same :
    (n : ℕ) (f g : ℕ → ℕ) → ((j : ℕ) → j < n → g j ≡ f j) → sum_below n g ≡ sum_below n f
unfolding sum_below
sum_below-same zero f g same = refl
sum_below-same (suc n) f g same =
    omega (arith, sum_below-same n f g (λ j lt. same j (omega arith)), same n (omega arith))

-- Sums over functions that differ at one place.
pub sum_below-change :
    (n i : ℕ) (f g : ℕ → ℕ)
    → i < n
    → ((j : ℕ) → j < n → j ≢ i → g j ≡ f j)
    → sum_below n g + f i ≡ sum_below n f + g i
unfolding sum_below
sum_below-change zero i f g lt same = absurd (omega arith)
sum_below-change (suc n) i f g lt same = elim (ℕ_discrete n i) [
  | yes e ↦ omega (
    arith,
    sum_below-same n f g (λ j less. same j (omega arith) (λ k. absurd (omega arith))),
    ap f e,
    ap g e,
  )
  | no ne ↦ omega (
    arith,
    sum_below-change n i f g (omega arith) (λ j less. same j (omega arith)),
    same n (omega arith) ne,
  )
]

-- Sums over functions of which one is the sum of the others.
pub sum_below-plus :
    (n : ℕ) (f g e : ℕ → ℕ)
    → ((j : ℕ) → f j ≡ g j + e j)
    → sum_below n f ≡ sum_below n g + sum_below n e
unfolding sum_below
sum_below-plus zero f g e split = refl
sum_below-plus (suc n) f g e split = omega (arith, sum_below-plus n f g e split, split n)

pub sum_below-zero : (n : ℕ) (f : ℕ → ℕ) → ((j : ℕ) → f j ≡ 0) → sum_below n f ≡ 0
unfolding sum_below
sum_below-zero zero f none_there = refl
sum_below-zero (suc n) f none_there = omega (arith, sum_below-zero n f none_there, none_there n)

pub sum_below-grow :
    (n k : ℕ) (f g : ℕ → ℕ)
    → k ≡ suc n
    → ((j : ℕ) → j < n → g j ≡ f j)
    → g n ≡ 0
    → sum_below k g ≡ sum_below n f
sum_below-grow n k f g e same none_there =
    ap (λ m. sum_below m g) e
    ∙ unfold sum_below in omega (arith, sum_below-same n f g same, none_there)

-- A sum that starts with its first part
pub sum_below-suc : (n : ℕ) (f : ℕ → ℕ) → sum_below (suc n) f ≡ f 0 + sum_below n (λ r. f (suc r))
unfolding sum_below
sum_below-suc zero f = omega arith
sum_below-suc (suc n) f = omega (arith, sum_below-suc n f)

pub sum_below-last : (n : ℕ) (f : ℕ → ℕ) → sum_below (suc n) f ≡ sum_below n f + f n
unfolding sum_below
sum_below-last n f = refl

-- What is zero from `n` on does not count.
pub sum_below-cut :
    (k n : ℕ) (f : ℕ → ℕ)
    → ((r : ℕ) → n ≤ r → r < n + k → f r ≡ 0)
    → sum_below (n + k) f ≡ sum_below n f
sum_below-cut zero n f none_there = ap (λ m. sum_below m f) (omega arith)
sum_below-cut (suc k) n f none_there =
    let e : n + suc k ≡ suc (n + k) = omega arith in
    ap (λ m. sum_below m f) e
    ∙ omega (
      arith,
      sum_below-last (n + k) f,
      sum_below-cut k n f (λ r low high. none_there r low (omega arith)),
      none_there (n + k) (omega arith) (omega arith),
    )

pub sum_below-le : (n : ℕ) (f : ℕ → ℕ) → ((r : ℕ) → f r ≤ 1) → sum_below n f ≤ n
unfolding sum_below
sum_below-le zero f small = omega arith
sum_below-le (suc n) f small = omega (arith, sum_below-le n f small, small n)

pub sum_below-swap :
    (m n : ℕ) (f : ℕ → ℕ → ℕ)
    → sum_below m (λ r. sum_below n (f r)) ≡ sum_below n (λ i. sum_below m (λ r. f r i))
unfolding sum_below
sum_below-swap zero n f = sym (sum_below-none n)
  where
    sum_below-none : (k : ℕ) → sum_below k (λ i. 0) ≡ 0
    sum_below-none zero = refl
    sum_below-none (suc k) = omega (arith, sum_below-none k)
sum_below-swap (suc m) n f = omega (
  arith,
  sum_below-swap m n f,
  sum_below-plus n (λ i. sum_below m (λ r. f r i) + f m i) (λ i. sum_below m (λ r. f r i)) (f m)
      (λ i. refl),
)

pub sum_below-ordered :
    (n : ℕ) (f g : ℕ → ℕ) → ((i : ℕ) → f i ≤ g i) → sum_below n f ≤ sum_below n g
unfolding sum_below
sum_below-ordered zero f g le = omega arith
sum_below-ordered (suc n) f g le = omega (arith, sum_below-ordered n f g le, le n)

pub sum_below-times : (n k : ℕ) (f : ℕ → ℕ) → ((i : ℕ) → f i ≤ k) → sum_below n f ≤ n * k
unfolding sum_below
sum_below-times zero k f le = omega arith
sum_below-times (suc n) k f le = grind (arith, sum_below-times n k f le, le n)

-- ===== src/Shared/Trichotomy.antt =====
-- Two numbers compared three ways, with the results of both tests.
use Prim.Native.Nat.{ℕ, ◌<◌}
use mathlib.Core.Path.{◌≡◌}
use mathlib.Core.Bool.{true, false}
use native.Mathlib.Omega.{arith}
use native.Mathlib.Decide.{dec_lt}
use sbllmalloc.Shared.Tests.{ltb, lt→ltb, le→ltb}

pub data Trichotomy (a b : ℕ) : Type 0 where
  below : a < b → ltb a b ≡ true → Trichotomy a b
  above : b < a → ltb a b ≡ false → ltb b a ≡ true → Trichotomy a b
  same : a ≡ b → ltb a b ≡ false → ltb b a ≡ false → Trichotomy a b

pub trichotomy : (a b : ℕ) → Trichotomy a b
trichotomy a b = elim (dec_lt a b) [
  | yes p ↦ below p (lt→ltb a b p)
  | no p ↦ elim (dec_lt b a) [
    | yes q ↦ above q (le→ltb a b (omega arith)) (lt→ltb b a q)
    | no q ↦ same (omega arith) (le→ltb a b (omega arith)) (le→ltb b a (omega arith))
  ]
]

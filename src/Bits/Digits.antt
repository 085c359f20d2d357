-- ===== src/Bits/Digits.antt =====
-- `&` and `|`, from the lowest binary digit upwards.
use Prim.Native.Nat.{digits, bitwise, bit_and, bit_or, bit_and-bitwise, bit_or-bitwise, min, max}
use sbllmalloc.Shared.{ℕ, zero, suc, ◌+◌, ◌*◌, ◌/◌, ◌%◌, ◌≤◌, ◌≡◌, refl, arith}

-- Bit `i` of a word.
unfoldable pub bit : ℕ → ℕ → ℕ
bit a zero = a % 2
bit a (suc i) = bit (a / 2) i

module _ (rest : ℕ → ℕ) (op : ℕ → ℕ → ℕ) where
  -- The fuel of the recursion on digits does not matter, once there is enough.
  fuel_irrelevant : (j k x y : ℕ) → x ≤ j → x ≤ k → digits rest op j x y ≡ digits rest op k x y
  fuel_irrelevant zero zero x y p q = refl
  fuel_irrelevant zero (suc k) (suc x) y p q = absurd (omega arith)
  fuel_irrelevant zero (suc k) zero y p q = refl
  fuel_irrelevant (suc j) zero (suc x) y p q = absurd (omega arith)
  fuel_irrelevant (suc j) zero zero y p q = refl
  fuel_irrelevant (suc j) (suc k) zero y p q = refl
  fuel_irrelevant (suc j) (suc k) (suc x) y p q =
      let half = suc x / 2 in rw (fuel_irrelevant j k half (y / 2) (omega arith) (omega arith))

  bitwise_step :
      (x y : ℕ)
      → bitwise rest op (suc x) y ≡ bitwise rest op (suc x / 2) (y / 2) * 2 + op (suc x % 2) (y % 2)
  bitwise_step x y =
      let half = suc x / 2 in
      omega (arith, fuel_irrelevant x half half (y / 2) (omega arith) (omega arith))

pub bit_and-digit : (x y : ℕ) → bit_and x y ≡ bit_and (x / 2) (y / 2) * 2 + min (x % 2) (y % 2)
bit_and-digit zero y = simp bit_and-bitwise (omega arith)
bit_and-digit (suc x) y = simp bit_and-bitwise (bitwise_step _ min x y)

pub bit_or-digit : (x y : ℕ) → bit_or x y ≡ bit_or (x / 2) (y / 2) * 2 + max (x % 2) (y % 2)
bit_or-digit zero y = simp bit_or-bitwise (omega arith)
bit_or-digit (suc x) y = simp bit_or-bitwise (bitwise_step _ max x y)

bit_and-half : (x y : ℕ) → bit_and x y / 2 ≡ bit_and (x / 2) (y / 2)
bit_and-half x y = omega (arith, bit_and-digit x y)

bit_or-half : (x y : ℕ) → bit_or x y / 2 ≡ bit_or (x / 2) (y / 2)
bit_or-half x y = omega (arith, bit_or-digit x y)

-- Each bit of `x & y`.
pub bit-bit_and : (x y i : ℕ) → bit (bit_and x y) i ≡ min (bit x i) (bit y i)
unfolding bit
bit-bit_and x y zero = omega (arith, bit_and-digit x y)
bit-bit_and x y (suc i) = rw (bit_and-half x y) (bit-bit_and (x / 2) (y / 2) i)

-- Each bit of `x | y`.
pub bit-bit_or : (x y i : ℕ) → bit (bit_or x y) i ≡ max (bit x i) (bit y i)
unfolding bit
bit-bit_or x y zero = omega (arith, bit_or-digit x y)
bit-bit_or x y (suc i) = rw (bit_or-half x y) (bit-bit_or (x / 2) (y / 2) i)

pub bit-lt : (x i : ℕ) → bit x i ≤ 1
unfolding bit
bit-lt x zero = omega arith
bit-lt x (suc i) = bit-lt (x / 2) i

pub bit-zero : (i : ℕ) → bit 0 i ≡ 0
unfolding bit
bit-zero zero = refl
bit-zero (suc i) = bit-zero i

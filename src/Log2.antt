-- ===== src/Log2.antt =====
-- SharedHeap.cpp: `FloorLog2` and `CeilLog2`, from which `InitAddrSpace` takes the shift of a page
-- address. The argument is an `unsigned long` of 64 bits.
use Prim.Native.Nat.{bit_and}
use native.Mathlib.Nat.{one-le-pow, mul-div-le, lt-mul-div-succ, div-eq_of_lt}
use native.Mathlib.Decide.{dec_lt}
use sbllmalloc.Shared.{
  ℕ, zero, suc, ◌+◌, ◌-◌, ◌*◌, ◌/◌, ◌%◌, ◌^◌, ◌≤◌, ◌<◌, ◌≡◌, refl, ap, ◌∙◌, arith, ◌==◌, leb,
  if◌then◌else◌, Bool-cases, inl, inr, ℤ, pos, negsuc,
}
use sbllmalloc.Bits.{bit_and-shifted, bit_and-low, to_bool, two_pow-suc}

-- `if (n & mask) { p += k; n >>= k; }`
unfoldable pub narrow : ℕ → ℕ → ℕ × ℕ → ℕ × ℕ
narrow mask k (p, n) = if to_bool (bit_and n mask) then (p + k, n / 2 ^ k) else (p, n)

-- The five steps: the position of the highest bit, and what is left of the word.
unfoldable pub highest_bit : ℕ → ℕ × ℕ
highest_bit n =
    narrow 0x00000002 1 (
      narrow 0x0000000c 2 (narrow 0x000000f0 4 (narrow 0x0000ff00 8 (narrow 0xffff0000 16 (0, n)))))

unfoldable pub floor_log2 : ℕ → ℤ
floor_log2 n = if n == 0 then negsuc 0 else pos (highest_bit n).0

abbrev succ_ℤ : ℤ → ℤ
succ_ℤ (pos n) = pos (n + 1)
succ_ℤ (negsuc zero) = pos 0
succ_ℤ (negsuc (suc n)) = negsuc n

-- `n - 1` wraps at 0.
unfoldable pub ceil_log2 : ℕ → ℤ
ceil_log2 n = succ_ℤ (floor_log2 ((n + 2 ^ 64 - 1) % 2 ^ 64))

two_pow-add : (a b : ℕ) → 2 ^ (a + b) ≡ 2 ^ a * 2 ^ b
two_pow-add zero b = ground arith
two_pow-add (suc a) b =
    let e : suc a + b ≡ suc (a + b) = omega arith in
    rw e (
      omega
        (arith, two_pow-suc (a + b), two_pow-add a b, ap (λ (t : ℕ). t * 2 ^ b) (two_pow-suc a)))

-- `n` is the number `whole`, shifted down by `p`, and not 0.
abbrev IsShifted : ℕ → ℕ × ℕ → Type 0
IsShifted whole (p, n) = (2 ^ p * n ≤ whole) × (whole < 2 ^ p * (n + 1)) × (0 < n)

mul_mono : (c a b : ℕ) → a ≤ b → c * a ≤ c * b
mul_mono c a b h = grind arith

product_pos : (q w : ℕ) → 0 < q → 0 < w → 0 < q * w
product_pos q w a b = grind arith

quotient_bounds : (n w : ℕ) → 0 < w → (w * (n / w) ≤ n) × (n < w * (n / w + 1))
quotient_bounds n w h = (mul-div-le n w, lt-mul-div-succ n h)

quotient_lt : (n w : ℕ) → 0 < w → n < w * w → n / w < w
quotient_lt n w h fits = elim (dec_lt (n / w) w) [
  | yes p ↦ p
  | no p ↦ absurd (too_large (omega arith))
]
  where
    too_large : w ≤ n / w → ⊥
    too_large p = let low = (quotient_bounds n w h).0 in grind arith

quotient_pos : (n w : ℕ) → 0 < w → w ≤ n → 0 < n / w
quotient_pos n w h le = elim (dec_lt 0 (n / w)) [
  | yes p ↦ p
  | no p ↦
      let zero_quotient : n / w ≡ 0 = omega arith in
      absurd (omega (arith, (quotient_bounds n w h).1, ap (λ (t : ℕ). w * (t + 1)) zero_quotient))
]

quotient_zero : (n w : ℕ) → 0 < w → n < w → n / w ≡ 0
quotient_zero n w h lt = div-eq_of_lt lt

mask_test :
    (k n : ℕ) → n < 2 ^ k * 2 ^ k → to_bool (bit_and n ((2 ^ k - 1) * 2 ^ k)) ≡ leb (2 ^ k) n
mask_test k n fits =
    rw (bit_and-shifted k n (2 ^ k - 1), masked)
      (elim (Bool-cases (leb (2 ^ k) n)) [
        | inl high ↦
            let positive =
              product_pos (n / 2 ^ k) (2 ^ k) (quotient_pos n (2 ^ k) one (ground arith)) one in
            rw high (ground arith)
        | inr low ↦
            let none_left = quotient_zero n (2 ^ k) one (ground arith) in
            rw low (rw none_left (ground arith))
      ])
  where
    one : 1 ≤ 2 ^ k
    one = one-le-pow k 2 (omega arith)

    masked : bit_and (n / 2 ^ k) (2 ^ k - 1) ≡ n / 2 ^ k
    masked =
        ap (λ t. bit_and t (2 ^ k - 1)) (omega arith)
        ∙ bit_and-low k 0 (n / 2 ^ k) (quotient_lt n (2 ^ k) one fits)

narrow-IsShifted :
    (k whole p n : ℕ)
    → n < 2 ^ k * 2 ^ k
    → IsShifted whole (p, n)
    → let s = narrow ((2 ^ k - 1) * 2 ^ k) k (p, n) in IsShifted whole s × (s.1 < 2 ^ k)
unfolding narrow
narrow-IsShifted k whole p n fits s = elim (Bool-cases (leb (2 ^ k) n)) [
  | inl high ↦
      let power = two_pow-add p k in
      let bounds = quotient_bounds n (2 ^ k) one in
      let down : 2 ^ p * (2 ^ k * (n / 2 ^ k)) ≤ 2 ^ p * n = mul_mono (2 ^ p) _ _ bounds.0 in
      let up : 2 ^ p * (n + 1) ≤ 2 ^ p * (2 ^ k * (n / 2 ^ k + 1)) =
        mul_mono (2 ^ p) _ _ (omega (arith, bounds.1)) in
      rw (mask_test k n fits, high)
        (
          (
            rw power (omega (arith, down)),
            rw power (omega (arith, up)),
            quotient_pos n (2 ^ k) one (ground arith),
          ),
          quotient_lt n (2 ^ k) one fits,
        )
  | inr low ↦ rw (mask_test k n fits, low) (s, ground arith)
]
  where
    one : 1 ≤ 2 ^ k
    one = one-le-pow k 2 (omega arith)

highest_bit-IsShifted :
    (n : ℕ) → 0 < n → n < 2 ^ 32 → IsShifted n (highest_bit n) × ((highest_bit n).1 < 2)
unfolding highest_bit
highest_bit-IsShifted n some_bit fits =
    let s0 : IsShifted n (0, n) = (omega arith, omega arith, some_bit) in
    let s1 = narrow-IsShifted 16 n 0 n fits s0 in
    let s2 = narrow-IsShifted 8 n _ _ s1.1 s1.0 in
    let s3 = narrow-IsShifted 4 n _ _ s2.1 s2.0 in
    let s4 = narrow-IsShifted 2 n _ _ s3.1 s3.0 in narrow-IsShifted 1 n _ _ s4.1 s4.0

highest_bit_bounds :
    (n : ℕ)
    → 0 < n
    → n < 2 ^ 32
    → let p = (highest_bit n).0 in (floor_log2 n ≡ pos p) × (2 ^ p ≤ n) × (n < 2 ^ suc p)
unfolding floor_log2
highest_bit_bounds n some_bit fits =
    let (p, m) = highest_bit n in
    let shifted = highest_bit-IsShifted n some_bit fits in
    let last : m ≡ 1 = omega (arith, shifted.0.2, shifted.1) in
    (
      ground arith,
      omega (arith, shifted.0.0, ap (λ (t : ℕ). 2 ^ p * t) last),
      omega (arith, shifted.0.1, ap (λ (t : ℕ). 2 ^ p * (t + 1)) last, two_pow-suc p),
    )

-- For a word from 1 to 2^32 - 1, `FloorLog2` returns the exponent of the largest power of two that
-- is not above it.
pub floor_log2_bounds :
    (n : ℕ) → 0 < n → n < 2 ^ 32 → (p : ℕ) × (floor_log2 n ≡ pos p) × (2 ^ p ≤ n) × (n < 2 ^ suc p)
floor_log2_bounds n some_bit fits =
    let bounds = highest_bit_bounds n some_bit fits in
    ((highest_bit n).0, bounds.0, bounds.1, bounds.2)

-- For a word from 2 to 2^32, `CeilLog2` returns the exponent of the least power of two that is not
-- below it.
pub ceil_log2_bounds :
    (n : ℕ)
    → 1 < n
    → n ≤ 2 ^ 32
    → (p : ℕ) × (ceil_log2 n ≡ pos (p + 1)) × (2 ^ p < n) × (n ≤ 2 ^ suc p)
unfolding ceil_log2
ceil_log2_bounds n two fits =
    let before : (n + 2 ^ 64 - 1) % 2 ^ 64 ≡ n - 1 = omega arith in
    let (e, low, high) = highest_bit_bounds (n - 1) (omega arith) (omega arith) in
    ((highest_bit (n - 1)).0, rw (before, e), omega (arith, low), omega (arith, high))

-- What the header says of 0 and 1: `CeilLog2` returns 32 and 0.
ceil_log2_zero : (ceil_log2 0 ≡ pos 32) × (ceil_log2 1 ≡ pos 0) × (ceil_log2 4096 ≡ pos 12)
unfolding ceil_log2 floor_log2 highest_bit narrow
ceil_log2_zero = (refl, refl, refl)

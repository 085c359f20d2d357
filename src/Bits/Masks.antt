-- ===== src/Bits/Masks.antt =====
-- Words with one bit, and complements.
use Prim.Native.Nat.{bit_and}
use native.Mathlib.Nat.{pow-suc, one-le-pow, mul-one, div-one, div-div-eq-div-mul}
use sbllmalloc.Shared.{
  ℕ, zero, suc, ◌+◌, ◌-◌, ◌*◌, ◌/◌, ◌%◌, ◌^◌, ◌≤◌, ◌<◌, ◌≡◌, refl, ap, ◌∙◌, arith, Bool, not, ◌==◌,
  if◌then◌else◌,
}
use sbllmalloc.Bits.Digits.{bit, bit_and-digit, bit-lt, bit-zero}

-- The conversion of an integer to `bool`.
abbrev pub to_bool : ℕ → Bool
to_bool n = not (n == 0)

-- `~x` in a word of `w` bits.
unfoldable pub complement : ℕ → ℕ → ℕ
complement w x = 2 ^ w - 1 - x

pub two_pow-suc : (n : ℕ) → 2 ^ suc n ≡ 2 * 2 ^ n
two_pow-suc n = omega (arith, pow-suc 2 n)

pub two_pow-half : (n : ℕ) → 2 ^ suc n / 2 ≡ 2 ^ n
two_pow-half n = omega (arith, pow-suc 2 n)

-- `1 << j` has bit `j` alone.
pub bit-two_pow : (j i : ℕ) → bit (2 ^ j) i ≡ (if i == j then 1 else 0)
unfolding bit
bit-two_pow zero zero = refl
bit-two_pow zero (suc i) = ground (arith, bit-zero i)
bit-two_pow (suc j) zero = ground (arith, pow-suc 2 j)
bit-two_pow (suc j) (suc i) = ground (arith, two_pow-half j, bit-two_pow j i)

bit_and-zero_below : (n y : ℕ) → y ≤ n → bit_and y 0 ≡ 0
bit_and-zero_below n zero h = refl
bit_and-zero_below zero (suc y) h = absurd (omega arith)
bit_and-zero_below (suc n) (suc y) h =
    omega (arith, bit_and-digit (suc y) 0, bit_and-zero_below n (suc y / 2) (omega arith))

pub bit_and-zero : (y : ℕ) → bit_and y 0 ≡ 0
bit_and-zero y = bit_and-zero_below y y (omega arith)

-- A mask with one bit reads that bit.
pub bit_and-two_pow : (x j : ℕ) → bit_and x (2 ^ j) ≡ bit x j * 2 ^ j
unfolding bit
bit_and-two_pow x zero = omega (arith, bit_and-digit x 1, bit_and-zero (x / 2))
bit_and-two_pow x (suc j) =
    bit_and-digit x (2 ^ suc j)
    ∙ rw (two_pow-half j, bit_and-two_pow (x / 2) j)
        (omega (arith, two_pow-suc j, ap (λ (n : ℕ). bit (x / 2) j * n) (two_pow-suc j)))

-- So the test of a bit is a test of the word with that mask.
pub to_bool-bit_and : (x j : ℕ) → to_bool (bit_and x (2 ^ j)) ≡ (bit x j == 1)
to_bool-bit_and x j =
    rw (bit_and-two_pow x j)
      (bit_cases (bit x j) (2 ^ j) (bit-lt x j) (one-le-pow j 2 (omega arith)))
  where
    bit_cases : (b n : ℕ) → b ≤ 1 → 1 ≤ n → to_bool (b * n) ≡ (b == 1)
    bit_cases zero n p q = ground arith
    bit_cases (suc zero) n p q = ground arith
    bit_cases (suc (suc b)) n p q = absurd (omega arith)

pub complement-half : (w x : ℕ) → complement (suc w) x / 2 ≡ complement w (x / 2)
unfolding complement
complement-half w x = omega (arith, pow-suc 2 w)

pub bit-complement : (w x i : ℕ) → x < 2 ^ w → i < w → bit (complement w x) i ≡ 1 - bit x i
unfolding bit
bit-complement zero x i fits lt = absurd (omega arith)
bit-complement (suc w) x zero fits lt = unfold complement in omega (arith, two_pow-suc w)
bit-complement (suc w) x (suc i) fits lt =
    rw (complement-half w x)
      (bit-complement w (x / 2) i (omega (arith, two_pow-suc w)) (omega arith))

-- A mask of bits from `a` upwards reads the upper digits.
pub bit_and-shifted : (a n m : ℕ) → bit_and n (m * 2 ^ a) ≡ bit_and (n / 2 ^ a) m * 2 ^ a
bit_and-shifted zero n m = simp (mul-one, div-one)
bit_and-shifted (suc a) n m =
    let half : m * 2 ^ suc a / 2 ≡ m * 2 ^ a =
      omega (arith, ap (λ (t : ℕ). m * t) (two_pow-suc a)) in
    let even : m * 2 ^ suc a % 2 ≡ 0 = omega (arith, ap (λ (t : ℕ). m * t) (two_pow-suc a)) in
    let deeper : n / 2 / 2 ^ a ≡ n / 2 ^ suc a =
      rw (two_pow-suc a) (div-div-eq-div-mul n 2 (2 ^ a)) in
    bit_and-digit n (m * 2 ^ suc a)
    ∙ rw (half, even, bit_and-shifted a (n / 2) m, deeper)
        (omega (arith, ap (λ (t : ℕ). bit_and (n / 2 ^ suc a) m * t) (two_pow-suc a)))

-- A mask of the low `b` bits takes the remainder.
pub bit_and-low : (b q r : ℕ) → r < 2 ^ b → bit_and (q * 2 ^ b + r) (2 ^ b - 1) ≡ r
bit_and-low zero q r fits = omega (arith, bit_and-zero (q * 2 ^ 0 + r))
bit_and-low (suc b) q r fits =
    let power = two_pow-suc b in
    let product = ap (λ (t : ℕ). q * t) power in
    let one : 1 ≤ 2 ^ b = one-le-pow b 2 (omega arith) in
    let half : (q * 2 ^ suc b + r) / 2 ≡ q * 2 ^ b + r / 2 = omega arith in
    let ones : (2 ^ suc b - 1) / 2 ≡ 2 ^ b - 1 = omega arith in
    let odd : (2 ^ suc b - 1) % 2 ≡ 1 = omega arith in
    bit_and-digit (q * 2 ^ suc b + r) (2 ^ suc b - 1)
    ∙ rw (half, ones, odd, bit_and-low b q (r / 2) (omega arith)) (omega arith)

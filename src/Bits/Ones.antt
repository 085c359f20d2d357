-- ===== src/Bits/Ones.antt =====
-- The number of bits of a word, and `x & (x - 1)`, which clears the lowest.
use Prim.Native.Nat.{bit_and, bit_or, bit_and-bitwise}
use sbllmalloc.Shared.{
  ℕ, zero, suc, ◌+◌, ◌-◌, ◌*◌, ◌/◌, ◌%◌, ◌^◌, ◌≤◌, ◌<◌, ◌≡◌, ◌⊎◌, inl, inr, refl, ap, ◌∙◌, arith,
  ◌==◌, if◌then◌else◌, Bool-cases,
}
use native.Mathlib.Nat.{one-le-pow}
use sbllmalloc.Bits.Digits.{bit, bit_and-digit, bit_or-digit}
use sbllmalloc.Bits.Masks.{complement, complement-half, two_pow-suc, two_pow-half}

bit_or-zero_below : (n x : ℕ) → x ≤ n → bit_or x 0 ≡ x
bit_or-zero_below n zero h = refl
bit_or-zero_below zero (suc x) h = absurd (omega arith)
bit_or-zero_below (suc n) (suc x) h =
    omega (arith, bit_or-digit (suc x) 0, bit_or-zero_below n (suc x / 2) (omega arith))

bit_or-zero : (x : ℕ) → bit_or x 0 ≡ x
bit_or-zero x = bit_or-zero_below x x (omega arith)

-- The bits of the low `w` digits, counted.
unfoldable pub ones : ℕ → ℕ → ℕ
ones zero x = 0
ones (suc w) x = x % 2 + ones w (x / 2)

bit_and_self_below : (n x : ℕ) → x ≤ n → bit_and x x ≡ x
bit_and_self_below n zero h = refl
bit_and_self_below zero (suc x) h = absurd (omega arith)
bit_and_self_below (suc n) (suc x) h =
    omega (arith, bit_and-digit (suc x) (suc x), bit_and_self_below n (suc x / 2) (omega arith))

pub bit_and_self : (x : ℕ) → bit_and x x ≡ x
bit_and_self x = bit_and_self_below x x (omega arith)

bit_and-le_below : (n x y : ℕ) → x ≤ n → bit_and x y ≤ x
bit_and-le_below n zero y h = omega (arith, bit_and-digit 0 y, bit_and-zero_left (y / 2))
  where
    bit_and-zero_left : (z : ℕ) → bit_and 0 z ≡ 0
    bit_and-zero_left z = bit_and-bitwise 0 z
bit_and-le_below zero (suc x) y h = absurd (omega arith)
bit_and-le_below (suc n) (suc x) y h =
    omega (arith, bit_and-digit (suc x) y, bit_and-le_below n (suc x / 2) (y / 2) (omega arith))

pub bit_and-le : (x y : ℕ) → bit_and x y ≤ x
bit_and-le x y = bit_and-le_below x x y (omega arith)

-- An odd word loses its lowest bit, an even one passes to its upper digits.
clear_odd : (x : ℕ) → x % 2 ≡ 1 → bit_and x (x - 1) ≡ x / 2 * 2
clear_odd x odd =
    let half : (x - 1) / 2 ≡ x / 2 = omega arith in
    bit_and-digit x (x - 1) ∙ rw (half, bit_and_self (x / 2)) (omega arith)

clear_even : (x : ℕ) → 0 < x → x % 2 ≡ 0 → bit_and x (x - 1) ≡ bit_and (x / 2) (x / 2 - 1) * 2
clear_even x some_bit even =
    let half : (x - 1) / 2 ≡ x / 2 - 1 = omega arith in
    bit_and-digit x (x - 1) ∙ rw half (omega arith)

-- `x & (x - 1)` has one bit less.
pub ones-clear : (w x : ℕ) → 0 < x → x < 2 ^ w → ones w (bit_and x (x - 1)) + 1 ≡ ones w x
unfolding ones
ones-clear zero x some_bit fits = absurd (omega arith)
ones-clear (suc w) x some_bit fits = elim (parity x) [
  | inl even ↦ rw (clear_even x some_bit even) (
      let half : bit_and (x / 2) (x / 2 - 1) * 2 / 2 ≡ bit_and (x / 2) (x / 2 - 1) = omega arith in
      rw half (omega (arith, ones-clear w (x / 2) (omega arith) (omega (arith, two_pow-suc w)))))
  | inr odd ↦
      rw (clear_odd x odd) (let half : x / 2 * 2 / 2 ≡ x / 2 = omega arith in rw half (omega arith))
]
  where
    parity : (x : ℕ) → (x % 2 ≡ 0) ⊎ (x % 2 ≡ 1)
    parity x = ground arith

pub ones-zero : (w : ℕ) → ones w 0 ≡ 0
unfolding ones
ones-zero zero = refl
ones-zero (suc w) = omega (arith, ones-zero w)

-- `for (count = 0; x; count++) x &= (x - 1);` with fuel
unfoldable pub count_loop : ℕ → ℕ → ℕ → ℕ
count_loop zero x count = count
count_loop (suc fuel) x count =
    let rest = count_loop fuel (bit_and x (x - 1)) (count + 1) in if x == 0 then count else rest

-- With fuel for each bit the loop counts the bits.
pub count_loop-eq-ones :
    (w fuel x count : ℕ) → x < 2 ^ w → ones w x ≤ fuel → count_loop fuel x count ≡ count + ones w x
unfolding count_loop
count_loop-eq-ones w zero x count fits enough = omega arith
count_loop-eq-ones w (suc fuel) x count fits enough = elim (Bool-cases (x == 0)) [
  | inl none_left ↦ let e : x ≡ 0 = ground arith in rw none_left (rw (e, ones-zero w) (omega arith))
  | inr more ↦
      let positive : 0 < x = ground arith in
      rw more (
        omega (
          arith,
          ones-clear w x positive fits,
          bit_and-le x (x - 1),
          count_loop-eq-ones w fuel (bit_and x (x - 1)) (count + 1)
              (omega (arith, bit_and-le x (x - 1))) (omega (arith, ones-clear w x positive fits)),
        ))
]

pub ones-le : (w x : ℕ) → ones w x ≤ w
unfolding ones
ones-le zero x = omega arith
ones-le (suc w) x = omega (arith, ones-le w (x / 2))

-- Setting bit `j` adds one unless it was set.
pub ones-set : (w j m : ℕ) → j < w → ones w (bit_or m (2 ^ j)) + bit m j ≡ ones w m + 1
unfolding ones bit
ones-set zero j m lt = absurd (omega arith)
ones-set (suc w) zero m lt =
    let upper : bit_or m 1 / 2 ≡ m / 2 = omega (arith, bit_or-digit m 1, bit_or-zero (m / 2)) in
    rw upper (omega (arith, bit_or-digit m 1))
ones-set (suc w) (suc j) m lt =
    let upper : bit_or m (2 ^ suc j) / 2 ≡ bit_or (m / 2) (2 ^ j) =
      omega
        (arith, bit_or-digit m (2 ^ suc j), two_pow-half j, ap (bit_or (m / 2)) (two_pow-half j)) in
    rw upper
      (omega (arith, bit_or-digit m (2 ^ suc j), two_pow-suc j, ones-set w j (m / 2) (omega arith)))

-- A mask that covers the word changes nothing.
ones-mask : (w v x : ℕ) → w ≤ v → ones w (bit_and x (2 ^ v - 1)) ≡ ones w x
unfolding ones
ones-mask zero v x wide = refl
ones-mask (suc w) zero x wide = absurd (omega arith)
ones-mask (suc w) (suc v) x wide =
    let one : 1 ≤ 2 ^ v = one-le-pow v 2 (omega arith) in
    let half : (2 ^ suc v - 1) / 2 ≡ 2 ^ v - 1 = omega (arith, two_pow-suc v) in
    let odd : (2 ^ suc v - 1) % 2 ≡ 1 = omega (arith, two_pow-suc v) in
    let upper : bit_and x (2 ^ suc v - 1) / 2 ≡ bit_and (x / 2) (2 ^ v - 1) =
      omega (arith, bit_and-digit x (2 ^ suc v - 1), ap (bit_and (x / 2)) half) in
    rw upper (omega (arith, bit_and-digit x (2 ^ suc v - 1), ones-mask w v (x / 2) (omega arith)))

lower : (v : ℕ) → complement (suc v) 1 / 2 ≡ 2 ^ v - 1
unfolding complement
lower v = omega (arith, two_pow-suc v, one-le-pow v 2 (omega arith))

even : (v : ℕ) → complement (suc v) 1 % 2 ≡ 0
unfolding complement
even v = omega (arith, two_pow-suc v, one-le-pow v 2 (omega arith))

two_pow_mono : (j v : ℕ) → j ≤ v → 2 ^ j ≤ 2 ^ v
two_pow_mono zero v h = one-le-pow v 2 (omega arith)
two_pow_mono (suc j) zero h = absurd (omega arith)
two_pow_mono (suc j) (suc v) h =
    omega (arith, two_pow-suc j, two_pow-suc v, two_pow_mono j v (omega arith))

odd : (v j : ℕ) → suc j ≤ v → complement (suc v) (2 ^ suc j) % 2 ≡ 1
unfolding complement
odd v j h = omega (
  arith,
  two_pow-suc v,
  two_pow-suc j,
  two_pow_mono (suc j) v h,
  one-le-pow v 2 (omega arith),
  one-le-pow j 2 (omega arith),
)

complement-upper : (v j : ℕ) → complement (suc v) (2 ^ suc j) / 2 ≡ complement v (2 ^ j)
complement-upper v j = complement-half v (2 ^ suc j) ∙ ap (complement v) (two_pow-half j)

-- Clearing bit `j` takes one away if it was set. The complement is that of a wider word.
pub ones-unset :
    (w v j m : ℕ) → j < w → w ≤ v → ones w (bit_and m (complement v (2 ^ j))) + bit m j ≡ ones w m
unfolding ones bit
ones-unset zero v j m lt wide = absurd (omega arith)
ones-unset (suc w) zero j m lt wide = absurd (omega arith)
ones-unset (suc w) (suc v) zero m lt wide =
    let upper : bit_and m (complement (suc v) 1) / 2 ≡ bit_and (m / 2) (2 ^ v - 1) =
      omega (arith, bit_and-digit m (complement (suc v) 1), ap (bit_and (m / 2)) (lower v)) in
    rw upper (
      omega (
        arith,
        bit_and-digit m (complement (suc v) 1),
        even v,
        ones-mask w v (m / 2) (omega arith),
      ))
ones-unset (suc w) (suc v) (suc j) m lt wide =
    let upper : bit_and m (complement (suc v) (2 ^ suc j)) / 2
        ≡ bit_and (m / 2) (complement v (2 ^ j)) =
      omega (
        arith,
        bit_and-digit m (complement (suc v) (2 ^ suc j)),
        ap (bit_and (m / 2)) (complement-upper v j),
      ) in
    rw upper (
      omega (
        arith,
        bit_and-digit m (complement (suc v) (2 ^ suc j)),
        odd v j (omega arith),
        ones-unset w v j (m / 2) (omega arith) (omega arith),
      ))

-- A word that is not 0 has a bit.
pub ones-pos : (w x : ℕ) → 0 < x → x < 2 ^ w → 0 < ones w x
ones-pos w x some_bit fits = omega (arith, ones-clear w x some_bit fits)

-- The union of two words is no wider than they are.
pub bit_or-lt : (w x y : ℕ) → x < 2 ^ w → y < 2 ^ w → bit_or x y < 2 ^ w
bit_or-lt zero x y p q =
    let zero_x : x ≡ 0 = omega arith in
    let zero_y : y ≡ 0 = omega arith in rw (zero_x, zero_y) (omega (arith, bit_or-zero 0))
bit_or-lt (suc w) x y p q = omega (
  arith,
  two_pow-suc w,
  bit_or-digit x y,
  bit_or-lt w (x / 2) (y / 2) (omega (arith, two_pow-suc w)) (omega (arith, two_pow-suc w)),
)

pub two_pow-lt : (j v : ℕ) → j < v → 2 ^ j < 2 ^ v
two_pow-lt j v h =
    omega (arith, two_pow_mono (suc j) v h, two_pow-suc j, one-le-pow j 2 (omega arith))

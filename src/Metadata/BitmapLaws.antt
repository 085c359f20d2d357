-- ===== src/Metadata/BitmapLaws.antt =====
-- SharedHeap.cpp: the bit vectors, bit by bit.
use Prim.Native.Nat.{bit_and}
use native.Mathlib.Nat.{mod-eq_of_lt}
use sbllmalloc.Shared.{
  ℕ, zero, suc, ◌+◌, ◌-◌, ◌/◌, ◌%◌, ◌^◌, ◌≤◌, ◌<◌, ◌≡◌, refl, ap, ◌∙◌, arith, Bool, true, false,
  ltb, leb, ◌==◌, ◌&&◌, if◌then◌else◌, Bool-cases, inl, inr,
}
use sbllmalloc.Bits.{
  bit, bit-lt, bit-bit_and, bit-bit_or, bit-two_pow, bit-complement, complement, to_bool-bit_and,
  bit_and-low, bit_and-le, bit_or-lt, two_pow-lt,
}
use sbllmalloc.Metadata.Sharing.{Table, update}
use sbllmalloc.Metadata.Bitmap.{
  byte_index, get_bit, set_bit, unset_bit, set_and_return_bit, reset_and_return_bit, set_multi_loop,
  bsize_of, set_multi_bits,
}

-- Every entry is a byte.
abbrev pub IsBytes : Table → Type 0
IsBytes array = (i : ℕ) → array i < 2 ^ 8

low_index : (i : ℕ) → bit_and i 0x07 ≡ i % 8
low_index i = ap (λ t. bit_and t 7) (omega arith) ∙ bit_and-low 3 (i / 8) (i % 8) (omega arith)

-- `GetBit` reads a binary digit.
get_bit-eq-bit : (array : Table) (i : ℕ) → get_bit array i ≡ (bit (array (i / 8)) (i % 8) == 1)
unfolding get_bit
get_bit-eq-bit array i = rw (low_index i) (to_bool-bit_and (array (i / 8)) (i % 8))

module _ (array : Table) (i : ℕ) (bytes : IsBytes array) where
  mask_lt : 2 ^ bit_and i 0x07 < 2 ^ 8
  mask_lt = rw (low_index i) (two_pow-lt (i % 8) 8 (omega arith))

  -- `SetBit` sets one bit.
  pub get_bit-set_bit :
      (j : ℕ) → get_bit (set_bit array i) j ≡ (if j == i then true else get_bit array j)
  unfolding set_bit
  get_bit-set_bit j = elim (Bool-cases (j / 8 == i / 8)) [
    | inl here ↦
        let byte = bit_or-lt 8 (array (i / 8)) (2 ^ bit_and i 0x07) (bytes (i / 8)) mask_lt in
        let same : j / 8 ≡ i / 8 = ground arith in
        get_bit-eq-bit _ j
        ∙ rw
            (
              here,
              mod-eq_of_lt byte,
              bit-bit_or (array (i / 8)) (2 ^ bit_and i 0x07) (j % 8),
              low_index i,
              bit-two_pow (i % 8) (j % 8),
              get_bit-eq-bit array j,
              same,
            )
            (ground (arith, bit-lt (array (i / 8)) (j % 8)))
    | inr elsewhere ↦ get_bit-eq-bit _ j ∙ rw (elsewhere, get_bit-eq-bit array j) (ground arith)
  ]

  -- `UnsetBit` clears one bit.
  pub get_bit-unset_bit :
      (j : ℕ) → get_bit (unset_bit array i) j ≡ (if j == i then false else get_bit array j)
  unfolding unset_bit
  get_bit-unset_bit j = elim (Bool-cases (j / 8 == i / 8)) [
    | inl here ↦
        let smaller = bit_and-le (array (i / 8)) (complement 32 (2 ^ bit_and i 0x07)) in
        let byte : bit_and (array (i / 8)) (complement 32 (2 ^ bit_and i 0x07)) < 2 ^ 8 =
          omega (arith, smaller, bytes (i / 8)) in
        let same : j / 8 ≡ i / 8 = ground arith in
        get_bit-eq-bit _ j
        ∙ rw
            (
              here,
              mod-eq_of_lt byte,
              bit-bit_and (array (i / 8)) (complement 32 (2 ^ bit_and i 0x07)) (j % 8),
              low_index i,
              bit-complement 32 (2 ^ (i % 8)) (j % 8) (two_pow-lt (i % 8) 32 (omega arith))
                  (omega arith),
              bit-two_pow (i % 8) (j % 8),
              get_bit-eq-bit array j,
              same,
            )
            (ground (arith, bit-lt (array (i / 8)) (j % 8)))
    | inr elsewhere ↦ get_bit-eq-bit _ j ∙ rw (elsewhere, get_bit-eq-bit array j) (ground arith)
  ]

  pub set_bit-IsBytes : IsBytes (set_bit array i)
  unfolding set_bit
  set_bit-IsBytes j = ground (arith, bytes j)

  pub unset_bit-IsBytes : IsBytes (unset_bit array i)
  unfolding unset_bit
  unset_bit-IsBytes j = ground (arith, bytes j)

  -- `SetAndReturnBit` and `ResetAndReturnBit` are a read and a write.
  pub set_and_return_bit_lem : set_and_return_bit array i ≡ (get_bit array i, set_bit array i)
  unfolding set_and_return_bit get_bit set_bit
  set_and_return_bit_lem = refl

  pub reset_and_return_bit_lem : reset_and_return_bit array i ≡ (get_bit array i, unset_bit array i)
  unfolding reset_and_return_bit get_bit unset_bit
  reset_and_return_bit_lem = refl

bit-byte : (k : ℕ) → k < 8 → bit 0xff k ≡ 1
unfolding bit
bit-byte zero h = refl
bit-byte (suc zero) h = refl
bit-byte (suc (suc zero)) h = refl
bit-byte (suc (suc (suc zero))) h = refl
bit-byte (suc (suc (suc (suc zero)))) h = refl
bit-byte (suc (suc (suc (suc (suc zero))))) h = refl
bit-byte (suc (suc (suc (suc (suc (suc zero)))))) h = refl
bit-byte (suc (suc (suc (suc (suc (suc (suc zero))))))) h = refl
bit-byte (suc (suc (suc (suc (suc (suc (suc (suc k)))))))) h = absurd (omega arith)

get_bit-whole_byte :
    (array : Table) (i j : ℕ)
    → get_bit (update array (i / 8) 0xff) j ≡ (if j / 8 == i / 8 then true else get_bit array j)
get_bit-whole_byte array i j = elim (Bool-cases (j / 8 == i / 8)) [
  | inl here ↦ get_bit-eq-bit _ j ∙ rw (here, bit-byte (j % 8) (omega arith)) refl
  | inr elsewhere ↦ get_bit-eq-bit _ j ∙ rw (elsewhere, get_bit-eq-bit array j)
]

whole_byte-IsBytes : (array : Table) (i : ℕ) → IsBytes array → IsBytes (update array (i / 8) 0xff)
whole_byte-IsBytes array i bytes j = ground (arith, bytes j)

-- A page of the range `first`, `first + 1`, ... of `n` pages
abbrev pub in_range : ℕ → ℕ → ℕ → Bool
in_range first n j = leb first j && ltb j (first + n)

pub get_bit-set_multi_loop :
    (fuel : ℕ) (array : Table) (index bsize j : ℕ)
    → IsBytes array
    → bsize ≤ fuel
    → get_bit (set_multi_loop fuel array index bsize) j
      ≡ (if in_range index bsize j then true else get_bit array j)
unfolding set_multi_loop
get_bit-set_multi_loop zero array index bsize j bytes enough = ground arith
get_bit-set_multi_loop (suc fuel) array index bsize j bytes enough =
    elim (Bool-cases (bsize == 0)) [
      | inl done ↦ rw done (ground arith)
      | inr more ↦ elim (Bool-cases ((index % 8 == 0) && leb 8 bsize)) [
        | inl aligned ↦
            rw (more, aligned)
              (get_bit-set_multi_loop fuel (update array (byte_index index) 0xff) (index + 8)
                  (bsize - 8) j (whole_byte-IsBytes array index bytes) (omega arith)
                ∙ rw (get_bit-whole_byte array index j) (ground arith))
        | inr single ↦
            rw (more, single)
              (get_bit-set_multi_loop fuel (set_bit array index) (index + 1) (bsize - 1) j
                  (set_bit-IsBytes array index bytes) (ground arith)
                ∙ rw (get_bit-set_bit array index bytes j) (ground arith))
      ]
    ]

bsize_of_small :
    (shift size : ℕ) → size / 2 ^ shift < 2 ^ 31 → bsize_of shift size ≡ size / 2 ^ shift
unfolding bsize_of
bsize_of_small shift size small = ground arith

-- `SetMultiBits`, which writes whole bytes where it can, sets the bits of exactly the pages from
-- the index on, as many as whole pages lie in a size of fewer than 2^31 pages, in an array of
-- bytes.
pub get_bit-set_multi_bits :
    (shift : ℕ) (array : Table) (index size j : ℕ)
    → IsBytes array
    → size / 2 ^ shift < 2 ^ 31
    → get_bit (set_multi_bits shift array index size) j
      ≡ (if in_range index (size / 2 ^ shift) j then true else get_bit array j)
unfolding set_multi_bits
get_bit-set_multi_bits shift array index size j bytes small =
    get_bit-set_multi_loop (bsize_of shift size) array index (bsize_of shift size) j bytes
      (omega arith)
    ∙ ap (λ n. if in_range index n j then true else get_bit array j)
        (bsize_of_small shift size small)

set_multi_loop-IsBytes :
    (fuel : ℕ) (array : Table) (index bsize : ℕ)
    → IsBytes array
    → IsBytes (set_multi_loop fuel array index bsize)
unfolding set_multi_loop
set_multi_loop-IsBytes zero array index bsize bytes = bytes
set_multi_loop-IsBytes (suc fuel) array index bsize bytes = elim (Bool-cases (bsize == 0)) [
  | inl done ↦ rw done bytes
  | inr more ↦ elim (Bool-cases ((index % 8 == 0) && leb 8 bsize)) [
    | inl aligned ↦
        rw (more, aligned)
          (set_multi_loop-IsBytes fuel (update array (byte_index index) 0xff) (index + 8)
            (bsize - 8) (whole_byte-IsBytes array index bytes))
    | inr single ↦
        rw (more, single)
          (set_multi_loop-IsBytes fuel (set_bit array index) (index + 1) (bsize - 1)
            (set_bit-IsBytes array index bytes))
  ]
]

pub set_multi_bits-IsBytes :
    (shift : ℕ) (array : Table) (index size : ℕ)
    → IsBytes array
    → IsBytes (set_multi_bits shift array index size)
unfolding set_multi_bits
set_multi_bits-IsBytes shift array index size bytes =
    set_multi_loop-IsBytes (bsize_of shift size) array index (bsize_of shift size) bytes

-- ===== src/Metadata/SharingLaws.antt =====
-- SharedHeap.cpp: the table of sharing processes, bit by bit.
use Prim.Native.Nat.{bit_and, bit_or}
use native.Mathlib.Nat.{mod-eq_of_lt}
use sbllmalloc.Shared.{
  ℕ, ◌+◌, ◌%◌, ◌^◌, ◌≤◌, ◌<◌, ◌≡◌, ap, arith, true, ltb, ◌==◌, if◌then◌else◌, Bool-cases, inl, inr,
}
use sbllmalloc.Bits.{
  bit, bit-lt, bit-bit_and, bit-bit_or, bit-two_pow, bit-complement, complement, to_bool-bit_and,
  ones, ones-set, ones-unset, ones-le, count_loop-eq-ones, bit_and-le, ones-pos, ones-zero,
  bit_or-lt, two_pow-lt,
}
use sbllmalloc.Metadata.Sharing.{
  NumProc, eight, sixteen, bits, Table, count_sharing_procs, set_sharing_bit, unset_sharing_bit,
  get_sharing_bit, is_other_sharing,
}

-- Every word of the table fits its cell.
abbrev pub Fits : NumProc → Table → Type 0
Fits n table = (i : ℕ) → table i < 2 ^ bits n

-- Whether a process has its bit set at a page, as a number.
abbrev pub sharer : Table → ℕ → ℕ → ℕ
sharer table rank i = bit (table i) rank

module _ (n : NumProc) (rank : ℕ) (table : Table) (i : ℕ) (known : rank < bits n)
    (fits : Fits n table) where
  set_word : bit_or (table i) (2 ^ rank) % 2 ^ bits n ≡ bit_or (table i) (2 ^ rank)
  set_word =
      mod-eq_of_lt
        (bit_or-lt (bits n) (table i) (2 ^ rank) (fits i) (two_pow-lt rank (bits n) known))

  unset_word :
      bit_and (table i) (complement 64 (2 ^ rank)) % 2 ^ bits n
      ≡ bit_and (table i) (complement 64 (2 ^ rank))
  unset_word = mod-eq_of_lt (omega (arith, bit_and-le (table i) (complement 64 (2 ^ rank)), fits i))

  bits-le : bits n ≤ 16
  bits-le = bits_table n
    where
      bits_table : (m : NumProc) → bits m ≤ 16
      bits_table eight = omega arith
      bits_table sixteen = omega arith

  -- In a table whose words fit their cells, the loop of `CountSharingProcs` counts the one bits of
  -- the word of the page.
  pub count_sharing_procs-eq-ones : count_sharing_procs table i ≡ ones (bits n) (table i)
  unfolding count_sharing_procs
  count_sharing_procs-eq-ones = omega (
    arith,
    count_loop-eq-ones (bits n) 16 (table i) 0 (fits i)
        (omega (arith, ones-le (bits n) (table i), bits-le)),
  )

  -- `GetSharingBit` reads the bit of the current process.
  pub get_sharing_bit-eq-sharer : get_sharing_bit n rank table i ≡ (sharer table rank i == 1)
  unfolding get_sharing_bit
  get_sharing_bit-eq-sharer = to_bool-bit_and (table i) rank

  -- In a table whose words fit their cells, `SetSharingBit` sets the bit of the current process at
  -- one page and keeps every other bit of every page.
  pub sharer-set_sharing_bit :
      (r j : ℕ)
      → sharer (set_sharing_bit n rank table i) r j
        ≡ (if j == i then (if r == rank then 1 else sharer table r i) else sharer table r j)
  unfolding set_sharing_bit
  sharer-set_sharing_bit r j = elim (Bool-cases (j == i)) [
    | inl here ↦
        rw (here, set_word, bit-bit_or (table i) (2 ^ rank) r, bit-two_pow rank r)
          (ground (arith, bit-lt (table i) r))
    | inr elsewhere ↦ rw elsewhere
  ]

  -- In a table whose words fit their cells, `UnsetSharingBit` clears the bit of the current
  -- process at one page and keeps the bits of all other processes and pages.
  pub sharer-unset_sharing_bit :
      (r j : ℕ)
      → r < bits n
      → sharer (unset_sharing_bit n rank table i) r j
        ≡ (if j == i then (if r == rank then 0 else sharer table r i) else sharer table r j)
  unfolding unset_sharing_bit
  sharer-unset_sharing_bit r j in_range = elim (Bool-cases (j == i)) [
    | inl here ↦
        rw
          (
            here,
            unset_word,
            bit-bit_and (table i) (complement 64 (2 ^ rank)) r,
            bit-complement 64 (2 ^ rank) r (two_pow-lt rank 64 (omega (arith, bits-le)))
                (omega (arith, bits-le)),
            bit-two_pow rank r,
          )
          (ground (arith, bit-lt (table i) r))
    | inr elsewhere ↦ rw elsewhere
  ]

  pub set_sharing_bit-Fits : Fits n (set_sharing_bit n rank table i)
  unfolding set_sharing_bit
  set_sharing_bit-Fits j = elim (Bool-cases (j == i)) [
    | inl here ↦
        rw (here, set_word) (bit_or-lt (bits n) _ _ (fits i) (two_pow-lt rank (bits n) known))
    | inr elsewhere ↦ rw elsewhere (fits j)
  ]

  pub unset_sharing_bit-Fits : Fits n (unset_sharing_bit n rank table i)
  unfolding unset_sharing_bit
  unset_sharing_bit-Fits j = elim (Bool-cases (j == i)) [
    | inl here ↦
        rw (here, unset_word)
          (omega (arith, bit_and-le (table i) (complement 64 (2 ^ rank)), fits i))
    | inr elsewhere ↦ rw elsewhere (fits j)
  ]

  -- The count of sharers grows by one with a new sharer.
  pub ones-set_sharing_bit :
      ones (bits n) (set_sharing_bit n rank table i i) + sharer table rank i
      ≡ ones (bits n) (table i) + 1
  unfolding set_sharing_bit
  ones-set_sharing_bit =
      let here : (i == i) ≡ true = ground arith in
      rw (here, set_word) (ones-set (bits n) rank (table i) known)

  pub ones-unset_sharing_bit :
      ones (bits n) (unset_sharing_bit n rank table i i) + sharer table rank i
      ≡ ones (bits n) (table i)
  unfolding unset_sharing_bit
  ones-unset_sharing_bit =
      let here : (i == i) ≡ true = ground arith in
      rw (here, unset_word) (ones-unset (bits n) 64 rank (table i) known (omega (arith, bits-le)))

  -- `IsOtherSharing` tells whether a bit of another process is set.
  pub is_other_sharing-eq-ltb :
      is_other_sharing n rank table i ≡ ltb (sharer table rank i) (ones (bits n) (table i))
  unfolding is_other_sharing
  is_other_sharing-eq-ltb =
      let others = bit_and (table i) (complement 64 (2 ^ rank)) in
      let fewer = bit_and-le (table i) (complement 64 (2 ^ rank)) in
      let sum = ones-unset (bits n) 64 rank (table i) known (omega (arith, bits-le)) in
      elim (Bool-cases (others == 0)) [
        | inl nobody ↦
            let e : others ≡ 0 = ground arith in
            rw nobody (ground (arith, ap (ones (bits n)) e, ones-zero (bits n)))
        | inr somebody ↦
            let positive = ones-pos (bits n) others (ground arith) (omega (arith, fits i)) in
            rw somebody (ground arith)
      ]

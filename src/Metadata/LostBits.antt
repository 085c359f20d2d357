-- ===== src/Metadata/LostBits.antt =====
-- SharedHeap.cpp: `SetSharingBit` by a process whose rank has no bit in the table. `AllocateSharedMetadata` does
-- not compare the rank with the number of bits.
use sbllmalloc.Shared.{
  ℕ, zero, suc, ◌/◌, ◌%◌, ◌^◌, ◌≤◌, ◌<◌, ◌≡◌, ap, ◌∙◌, arith, true, false, ◌==◌,
}
use Prim.Native.Nat.{bit_or}
use sbllmalloc.Bits.{bit, two_pow-suc, to_bool-bit_and}
use sbllmalloc.Metadata.Sharing.{
  NumProc, eight, sixteen, Table, bits, set_sharing_bit, get_sharing_bit,
}

bit-high : (w x r : ℕ) → x < 2 ^ w → w ≤ r → bit x r ≡ 0
unfolding bit
bit-high zero x zero fits high = omega arith
bit-high zero x (suc r) fits high = bit-high zero (x / 2) r (omega arith) (omega arith)
bit-high (suc w) x zero fits high = absurd (omega arith)
bit-high (suc w) x (suc r) fits high =
    bit-high w (x / 2) r (omega (arith, two_pow-suc w)) (omega arith)

-- For a rank that is not below the number of bits, `GetSharingBit` does not hold after
-- `SetSharingBit`.
pub get_sharing_bit-lost :
    (n : NumProc) (rank : ℕ) (table : Table) (i : ℕ)
    → bits n ≤ rank
    → get_sharing_bit n rank (set_sharing_bit n rank table i) i ≡ false
unfolding get_sharing_bit set_sharing_bit
get_sharing_bit-lost n rank table i high =
    let here : (i == i) ≡ true = ground arith in
    let word = bit_or (table i) (2 ^ rank) % 2 ^ bits n in
    let fits : word < 2 ^ bits n = word_fits n (bit_or (table i) (2 ^ rank)) in
    rw here (to_bool-bit_and word rank ∙ ap (λ k. k == 1) (bit-high (bits n) word rank fits high))
  where
    word_fits : (m : NumProc) (x : ℕ) → x % 2 ^ bits m < 2 ^ bits m
    word_fits eight x = omega arith
    word_fits sixteen x = omega arith

-- ===== src/Metadata/Bitmap.antt =====
-- SharedHeap.cpp: the bit vectors `zeroPagesBV` and `initializedPagesBV`, arrays of bytes with a bit for
-- each page. An operation gets the page's index, `Addr2PageIndex(page_address)`.
use Prim.Native.Nat.{bit_and, bit_or}
use sbllmalloc.Shared.{
  ℕ, zero, suc, ◌+◌, ◌-◌, ◌/◌, ◌%◌, ◌^◌, Bool, ltb, leb, ◌==◌, ◌&&◌, if◌then◌else◌,
}
use sbllmalloc.Bits.{complement, to_bool}
use sbllmalloc.Metadata.Sharing.{Table, update}

-- `index >> 3`, and `0x01 << (index & 0x07)`
abbrev pub byte_index : ℕ → ℕ
byte_index index = index / 2 ^ 3

abbrev pub bit_mask : ℕ → ℕ
bit_mask index = 2 ^ bit_and index 0x07

module _ (array : Table) (index : ℕ) where
  unfoldable pub get_bit : Bool
  get_bit = to_bool (bit_and (array (byte_index index)) (bit_mask index))

  unfoldable pub set_bit : Table
  set_bit =
      update array (byte_index index) (bit_or (array (byte_index index)) (bit_mask index) % 2 ^ 8)

  -- The mask is inverted as an `int`, of 32 bits.
  unfoldable pub unset_bit : Table
  unset_bit =
      update array (byte_index index)
        (bit_and (array (byte_index index)) (complement 32 (bit_mask index)) % 2 ^ 8)

-- The old bit and the new array
unfoldable pub set_and_return_bit : Table → ℕ → Bool × Table
set_and_return_bit array index =
    let ret_val = bit_and (array (byte_index index)) (bit_mask index) in
    (
      to_bool ret_val,
      update array (byte_index index) (bit_or (array (byte_index index)) (bit_mask index) % 2 ^ 8),
    )

unfoldable pub reset_and_return_bit : Table → ℕ → Bool × Table
reset_and_return_bit array index =
    let ret_val = bit_and (array (byte_index index)) (bit_mask index) in
    (
      to_bool ret_val,
      update array (byte_index index)
          (bit_and (array (byte_index index)) (complement 32 (bit_mask index)) % 2 ^ 8),
    )

-- The loop of `SetMultiBits`: whole bytes where eight pages are left from a multiple of 8. Each round
-- takes at least one page off `bsize`, so `bsize` rounds are enough.
unfoldable pub set_multi_loop : ℕ → Table → ℕ → ℕ → Table
set_multi_loop zero array index bsize = array
set_multi_loop (suc fuel) array index bsize =
    let whole =
      set_multi_loop fuel (update array (byte_index index) 0xff) (index + 8) (bsize - 8) in
    let single = set_multi_loop fuel (set_bit array index) (index + 1) (bsize - 1) in
    if bsize == 0 then array else if (index % 8 == 0) && leb 8 bsize then whole else single

-- `int bsize = size >> log2PAGE_SIZE`; a negative one is like 0, since the loop goes on while it is positive.
unfoldable pub bsize_of : ℕ → ℕ → ℕ
bsize_of shift size =
    let bsize = size / 2 ^ shift % 2 ^ 32 in if ltb bsize (2 ^ 31) then bsize else 0

-- With the shift `log2PAGE_SIZE`
unfoldable pub set_multi_bits : ℕ → Table → ℕ → ℕ → Table
set_multi_bits shift array index size =
    set_multi_loop (bsize_of shift size) array index (bsize_of shift size)

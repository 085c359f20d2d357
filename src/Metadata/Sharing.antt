-- ===== src/Metadata/Sharing.antt =====
-- SharedHeap.cpp: the table `sharingProcessesInfo`, with a bit for each process and page, and the
-- operations on it. An operation gets the page's index, `Addr2PageIndex(addr)`.
use Prim.Native.Nat.{bit_and, bit_or}
use sbllmalloc.Shared.{ℕ, ◌%◌, ◌^◌, Bool, Option, none, some, leb, ◌==◌, if◌then◌else◌}
use sbllmalloc.Bits.{count_loop, complement, to_bool}

-- `numProc`, which `InitAddrSpace` sets to 8 or 16; the other branches of the code die.
pub data NumProc : Type 0 where
  eight sixteen : NumProc

abbrev pub bits : NumProc → ℕ
bits eight = 8
bits sixteen = 16

-- From the number of cores; `none` is the call of `die`.
unfoldable pub choose_num_proc : ℕ → Option NumProc
choose_num_proc cores =
    if leb cores 8 then some eight else if leb cores 16 then some sixteen else none

-- A store of words, `uint8_t` or `uint16_t` by the number of processes.
abbrev pub Table : Type 0
Table = ℕ → ℕ

abbrev pub update : Table → ℕ → ℕ → Table
update table i v j = if j == i then v else table j

-- `currProcMask` and `currProcMaskInverted`
abbrev pub curr_proc_mask : ℕ → ℕ
curr_proc_mask rank = 2 ^ rank

abbrev pub curr_proc_mask_inverted : ℕ → ℕ
curr_proc_mask_inverted rank = complement 64 (2 ^ rank)

-- Each bit is taken off by one round of the loop, so 16 rounds are enough.
unfoldable pub count_sharing_procs : Table → ℕ → ℕ
count_sharing_procs table index = count_loop 16 (table index) 0

module _ (n : NumProc) (rank : ℕ) (table : Table) (index : ℕ) where
  unfoldable pub set_sharing_bit : Table
  set_sharing_bit = update table index (bit_or (table index) (curr_proc_mask rank) % 2 ^ bits n)

  unfoldable pub unset_sharing_bit : Table
  unset_sharing_bit =
      update table index (bit_and (table index) (curr_proc_mask_inverted rank) % 2 ^ bits n)

  unfoldable pub get_sharing_bit : Bool
  get_sharing_bit = to_bool (bit_and (table index) (curr_proc_mask rank))

  unfoldable pub is_other_sharing : Bool
  is_other_sharing = to_bool (bit_and (table index) (curr_proc_mask_inverted rank))

-- ===== src/Pages/Memory.antt =====
-- SharedHeap.cpp: the pages of the heap of a process as the system maps them, their bytes, the comparison
-- of pages, and the calls of `mmap`, `mremap`, `mprotect` and `memcpy` that change them. The two pages that
-- a call exchanges are given by their index in the heap. The calls succeed.
use sbllmalloc.Shared.{ℕ, zero, suc, ◌+◌, Bool, true, false, ◌&&◌, leb, ltb, ◌==◌, if◌then◌else◌}

-- The bytes of a page, by their distance from its start.
abbrev pub Bytes : Type 0
Bytes = ℕ → ℕ

abbrev pub zeros : Bytes
zeros k = 0

-- What a page is mapped to: nothing, a frame of its own (`MAP_PRIVATE|MAP_ANONYMOUS`), the page 0 of the
-- shared file, or the page of the shared file at the distance of the page in the heap.
pub data Backing : Type 0 where
  unmapped : Backing
  anonymous : Bytes → Backing
  zero_page shared_page : Backing

-- With `PROT_WRITE` or without
pub record Frame : Type 0 where
  pub backing : Backing
  pub writable : Bool

-- The pages of one process, and the shared file, which all processes map.
pub record Memory : Type 0 where
  pub frames : ℕ → Frame
  pub shared_file : ℕ → Bytes

-- What a page holds that has this backing, where the shared file holds `file`. The page 0 of the file is
-- never written, since `TranslateMmapAddr` returns 0 for no address. A page that is not mapped has no bytes;
-- the zeros stand for those of the mapping that may come next, and a read of it would end the process.
unfoldable pub backing_bytes : Backing → Bytes → Bytes
backing_bytes unmapped file = zeros
backing_bytes (anonymous bytes) file = bytes
backing_bytes zero_page file = zeros
backing_bytes shared_page file = file

abbrev pub page_bytes : Memory → ℕ → Bytes
page_bytes m i = backing_bytes (m.frames i).backing (m.shared_file i)

-- Whether `memcmp` of the first bytes returns 0.
unfoldable pub same_bytes : ℕ → Bytes → Bytes → Bool
same_bytes zero a b = true
same_bytes (suc n) a b = same_bytes n a b && a n == b n

-- `compare_pages` with the zero page, and with the page of the shared file.
unfoldable pub is_zero_content : Memory → ℕ → Bool
is_zero_content m i = same_bytes 4096 (page_bytes m i) zeros

unfoldable pub same_content : Memory → ℕ → Bool
same_content m i = same_bytes 4096 (m.shared_file i) (page_bytes m i)

abbrev pub in_run : ℕ → ℕ → ℕ → Bool
in_run start n j = leb start j && ltb j (start + n)

abbrev pub with_frames : ℕ → ℕ → Frame → Memory → Memory
with_frames start n frame m = record m {
  frames = λ j. if in_run start n j then frame else m.frames j;
}

-- `mmap` of private pages, and `munmap`.
unfoldable pub map_private : ℕ → ℕ → Memory → Memory
map_private start n m =
    with_frames start n (record { backing = anonymous zeros; writable = false }) m

unfoldable pub unmap : ℕ → ℕ → Memory → Memory
unmap start n m = with_frames start n (record { backing = unmapped; writable = false }) m

-- `GetSharedRegion` at the pages themselves, or `mremap` of the region that it returns, and
-- `MakeReadOnlyWrapper`.
unfoldable pub map_shared : ℕ → ℕ → Memory → Memory
map_shared start n m = with_frames start n (record { backing = shared_page; writable = false }) m

-- `memcpy` to the pages of the shared file, before they are mapped.
unfoldable pub copy_to_shared : ℕ → ℕ → Memory → Memory
copy_to_shared start n m = record m {
  shared_file = λ j. if in_run start n j then page_bytes m j else m.shared_file j;
}

unfoldable pub map_zero : ℕ → Memory → Memory
map_zero i m = with_frames i 1 (record { backing = zero_page; writable = false }) m

-- `MakeReadWriteWrapper`
unfoldable pub make_writable : ℕ → Memory → Memory
make_writable i m = record m {
  frames = λ j. if j == i then record (m.frames j) { writable = true } else m.frames j;
}

-- A new page for one that was mapped to the zero page, and for one that was mapped to the shared file, whose
-- bytes are copied first.
unfoldable pub map_zeroed : ℕ → Memory → Memory
map_zeroed i m = with_frames i 1 (record { backing = anonymous zeros; writable = true }) m

unfoldable pub map_copy : ℕ → Memory → Memory
map_copy i m = with_frames i 1 (record { backing = anonymous (page_bytes m i); writable = true }) m

-- A store of the process to a byte of a page. A page that is mapped to the zero page is not writable.
abbrev pub with_byte : ℕ → ℕ → Bytes → Bytes
with_byte k b bytes l = if l == k then b else bytes l

unfoldable pub store_backing : Backing → ℕ → ℕ → ℕ → Memory → Memory
store_backing unmapped i k b m = m
store_backing (anonymous bytes) i k b m = record m {
  frames = λ j.
      if j == i
      then record (m.frames j) { backing = anonymous (with_byte k b bytes) }
      else m.frames j;
}
store_backing zero_page i k b m = m
store_backing shared_page i k b m = record m {
  shared_file = λ j. if j == i then with_byte k b (m.shared_file j) else m.shared_file j;
}

abbrev pub store_byte : ℕ → ℕ → ℕ → Memory → Memory
store_byte i k b m = store_backing (m.frames i).backing i k b m

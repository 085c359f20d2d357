-- ===== src/Metadata/Address.antt =====
-- SharedHeap.cpp: `Init_Heap_Boundary`, `TranslateMmapAddr` and `Addr2PageIndex`. The shared file has
-- a page for each page of the heap, at the same distance from the start.
use mathlib.Core.Option
use sbllmalloc.Shared.{
  ℕ, ◌+◌, ◌-◌, ◌*◌, ◌/◌, ◌^◌, ◌≤◌, ◌<◌, ◌≡◌, arith, Option, none, some, ltb, ◌&&◌, if◌then◌else◌,
}

-- `sharedHeapBottom` and `sharedHeapTop`
pub record Space : Type 0 where
  pub bottom : ℕ
  pub top : ℕ

-- 3 GB
abbrev pub heap_bytes : ℕ
heap_bytes = 0xc0000000

-- The pages of 4096 bytes in the heap
abbrev pub heap_pages : ℕ
heap_pages = 3 * 1024 * 256

-- From the addresses that two calls of `mmap` returned.
unfoldable pub init_heap_boundary : ℕ → ℕ → ℕ → Space
init_heap_boundary page_size ptr1 ptr2 =
    if ltb ptr2 ptr1
    then record { bottom = ptr1 + page_size - heap_bytes; top = ptr1 + page_size }
    else record { bottom = ptr1; top = ptr1 + heap_bytes }

-- `none` is the call of `Fatal`, which ends the process.
unfoldable pub translate_mmap_addr : Space → ℕ → Option ℕ
translate_mmap_addr s addr =
    if ltb s.bottom addr && ltb addr s.top then some (addr - s.bottom) else none

-- With the shift `log2PAGE_SIZE`
unfoldable pub addr_to_page_index : Space → ℕ → ℕ → Option ℕ
addr_to_page_index s shift addr = Option.map (λ o. o / 2 ^ shift) (translate_mmap_addr s addr)

-- The page of an address in the heap
abbrev pub page_of : Space → ℕ → ℕ
page_of space addr = (addr - space.bottom) / 2 ^ 12

-- A heap of 3 GB that does not wrap.
abbrev pub IsHeap : Space → Type 0
IsHeap s = s.top ≡ s.bottom + heap_bytes

pub init_heap_boundary-IsHeap :
    (page_size ptr1 ptr2 : ℕ)
    → heap_bytes ≤ ptr1 + page_size
    → IsHeap (init_heap_boundary page_size ptr1 ptr2)
unfolding init_heap_boundary
init_heap_boundary-IsHeap page_size ptr1 ptr2 h = ground arith

-- In a heap of 3 GB, every page index that `Addr2PageIndex` returns is below the number of pages
-- of the heap.
pub addr_to_page_index-lt :
    (s : Space) (addr index : ℕ)
    → IsHeap s
    → addr_to_page_index s 12 addr ≡ some index
    → index < heap_pages
unfolding addr_to_page_index translate_mmap_addr
addr_to_page_index-lt s addr index heap e = ground arith

-- Two addresses have the same metadata exactly when their distances from the bottom lie in the same
-- page of the shared file.
pub addr_to_page_index_same_page :
    (s : Space) (a b i j : ℕ)
    → addr_to_page_index s 12 a ≡ some i
    → addr_to_page_index s 12 b ≡ some j
    → i ≡ j
    → (s.bottom + i * 4096 ≤ a)
      × (a < s.bottom + (i + 1) * 4096)
      × (s.bottom + i * 4096 ≤ b)
      × (b < s.bottom + (i + 1) * 4096)
unfolding addr_to_page_index translate_mmap_addr
addr_to_page_index_same_page s a b i j p q e = ground arith

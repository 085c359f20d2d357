-- ===== src/Regions/Heap.antt =====
-- SharedHeap.cpp: the state of a process, and `ShmFreeWrapper`, `ShmGetSizeWrapper` and the rounding of
-- sizes in `ShmMallocWrapper`. `none` is the end of the process, by `Fatal` or a failed assertion.
use mathlib.Core.Option
use sbllmalloc.Shared.{
  ltb, ℕ, zero, suc, ◌+◌, ◌-◌, ◌*◌, ◌/◌, ◌%◌, ◌^◌, Bool, false, not, ◌||◌, Option, none, some, leb,
  ◌==◌, if◌then◌else◌, ℤ, pos, negsuc,
}
use sbllmalloc.Avl.Tree.{AvlTreeData}
use sbllmalloc.Metadata.Address.{Space, addr_to_page_index}
use sbllmalloc.Pages.State.{Pages}
use sbllmalloc.Pages.Steps.{free_page, free_unmerged_page}
use sbllmalloc.Regions.Aspace.{aspace_avl_remove_wrapper, aspace_avl_search_wrapper}

pub data MergeMetric : Type 0 where
  merge_disabled alloc_frequency threshold buffered : MergeMetric

pub record Heap : Type 0 where
  pub is_mpi_initialized : Bool
  pub not_mpi_app : Bool
  pub is_mpi_finalized : Bool
  pub merge_metric : MergeMetric
  pub space : Space
  pub alloc_record : Option AvlTreeData
  pub pages : Pages

unfoldable pub check_mpi_initialized : Heap → Bool
check_mpi_initialized h = h.is_mpi_initialized || h.not_mpi_app

-- `PAGE_SIZE`, and its logarithm
abbrev pub page_size : ℕ
page_size = 4096

abbrev pub log2_page_size : ℕ
log2_page_size = 12

-- `((sz + PAGE_SIZE - 1) / PAGE_SIZE) * PAGE_SIZE` as a `size_t`
unfoldable pub round_to_pages : ℕ → ℕ
round_to_pages sz = (sz + page_size - 1) % 2 ^ 64 / page_size * page_size

-- The rounds of a loop from 0 to a size by PAGE_SIZE
abbrev pub rounds : ℕ → ℕ
rounds size = (size + page_size - 1) / page_size

-- The rounds of `for(int i = 0; i < size; i += PAGE_SIZE)`, if the `int` does not overflow; where it does, the
-- loop does not end as it should.
unfoldable pub int_rounds : ℕ → Option ℕ
int_rounds size = if ltb (rounds size * page_size) (2 ^ 31) then some (rounds size) else none

module _ (space : Space) where
  -- The loop of `ShmFreeWrapper` where merging is enabled, from an address on.
  unfoldable pub free_loop : ℕ → ℕ → Bool → Pages → Option Pages
  free_loop zero addr last_page_shared h = some h
  free_loop (suc n) addr last_page_shared h = elim (addr_to_page_index space log2_page_size addr) [
    | none ↦ none
    | some i ↦
        let (h', last) = free_page i last_page_shared h in free_loop n (addr + page_size) last h'
  ]

  -- The loop where merging is disabled.
  unfoldable pub free_unmerged_loop : ℕ → ℕ → Pages → Option Pages
  free_unmerged_loop zero addr h = some h
  free_unmerged_loop (suc n) addr h = elim (addr_to_page_index space log2_page_size addr) [
    | none ↦ none
    | some i ↦ free_unmerged_loop n (addr + page_size) (free_unmerged_page i h)
  ]

unfoldable pub free_pages : MergeMetric → Space → ℕ → ℕ → Pages → Option Pages
free_pages merge_disabled space ptr size h =
    Option.bind (int_rounds size) (λ n. free_unmerged_loop space n ptr h)
free_pages alloc_frequency space ptr size h =
    Option.bind (int_rounds size) (λ n. free_loop space n ptr false h)
free_pages threshold space ptr size h =
    Option.bind (int_rounds size) (λ n. free_loop space n ptr false h)
free_pages buffered space ptr size h =
    Option.bind (int_rounds size) (λ n. free_loop space n ptr false h)

-- `unmap ptr size` tells whether the system unmaps the region. The size is read as signed.
unfoldable pub shm_free_wrapper : (ℕ → ℕ → Bool) → ℕ → Heap → Option (Heap × ℤ)
shm_free_wrapper unmap ptr h =
    let (alloc_record, size) = aspace_avl_remove_wrapper h.alloc_record ptr in
    let h1 = record h { alloc_record = alloc_record } in
    let freed =
      Option.map (λ pages. (record h1 { pages = pages }, pos 1))
        (free_pages h.merge_metric h.space ptr size h.pages) in
    if not (check_mpi_initialized h)
    then some (h, negsuc 0)
    else if (size == 0) || leb (2 ^ 63) size
    then some (h1, negsuc 0)
    else if unmap ptr size
    then freed
    else none

unfoldable pub shm_get_size_wrapper : Heap → ℕ → ℕ
shm_get_size_wrapper h ptr =
    if not (check_mpi_initialized h) then 0 else aspace_avl_search_wrapper h.alloc_record ptr

-- ===== src/Process/Calls.antt =====
-- SharedHeap.cpp: `ShmMallocWrapper` and the branch of `SigSegvHandler` for a write fault, with all that
-- they call. `none` is the end of the process, also where the tree is traversed before `InitAddrSpace` has
-- created it.
use mathlib.Core.Option
use sbllmalloc.Shared.{
  ◌^◌, ◌%◌, ◌+◌, ℕ, ◌*◌, ◌/◌, List, [], ◌∷◌, ◌++◌, length, not, Option, none, some, ◌==◌,
  if◌then◌else◌,
}
use sbllmalloc.Avl.Tree.{AvlTreeData}
use sbllmalloc.Avl.Insert.{Fresh}
use sbllmalloc.Metadata.Address.{addr_to_page_index}
use sbllmalloc.Pages.State.{Pages, int_add, int_sub}
use sbllmalloc.Pages.Steps.{handle_fault}
use sbllmalloc.Regions.Aspace.{aspace_avl_insert_wrapper, mark_dirty}
use sbllmalloc.Regions.Heap.{
  Heap, MergeMetric, merge_disabled, alloc_frequency, threshold, buffered, check_mpi_initialized,
  round_to_pages,
}
use sbllmalloc.Merge.Remaps.{System}
use sbllmalloc.Merge.Policies.{
  int_ge, merge_by_threshold, merge_by_alloc_frequency, merge_by_buffered,
}

pub record Process : Type 0 where
  pub heap : Heap
  pub count_down_timer : ℕ
  pub merge_min_mem_th : ℕ
  pub malloc_ref_freq : ℕ
  pub malloc_ref_counter : ℕ
  pub buffer_of_dirty_pages : List ℕ

abbrev pub buffer_length : ℕ
buffer_length = 10000

-- A process after a merge of all regions.
abbrev pub after_merge : Process → Option Pages → AvlTreeData → Option Process
after_merge p pages tree =
    Option.map (λ h'. record p { heap = record p.heap { pages = h'; alloc_record = some tree } })
      pages

-- `MergeByALLOC_FREQUENCY` where the policy asks for it.
unfoldable pub merge_on_malloc :
    System → Process → MergeMetric → Option AvlTreeData → Option Process
merge_on_malloc os p merge_disabled alloc_record = some p
merge_on_malloc os p alloc_frequency none =
    let counter = (p.malloc_ref_counter + 1) % 2 ^ 64 in
    if counter % p.malloc_ref_freq == 0
    then none
    else some (record p { malloc_ref_counter = counter })
merge_on_malloc os p alloc_frequency (some tree) =
    let (counter, pages, tree') =
      merge_by_alloc_frequency os p.heap.space p.malloc_ref_freq p.malloc_ref_counter tree
        p.heap.pages in
    after_merge (record p { malloc_ref_counter = counter }) pages tree'
merge_on_malloc os p threshold alloc_record = some p
merge_on_malloc os p buffered alloc_record = some p

-- The region that `mmap` returns is entered into the record; without one the result is NULL.
unfoldable pub enter_region : Fresh → ℕ → Process → Option ℕ → Process × ℕ
enter_region fresh size p none = (p, 0)
enter_region fresh size p (some ptr) = (
  record p {
    heap = record p.heap {
      alloc_record = aspace_avl_insert_wrapper fresh p.heap.alloc_record ptr size;
    };
  },
  ptr,
)

-- The process and the pointer, 0 for NULL
unfoldable pub shm_malloc_wrapper :
    System → (ℕ → Option ℕ) → Fresh → ℕ → Process → Option (Process × ℕ)
shm_malloc_wrapper os mmap fresh sz p =
    if not (check_mpi_initialized p.heap)
    then some (p, 0)
    else if p.heap.is_mpi_finalized
    then some (p, 0)
    else Option.map (λ p1. enter_region fresh (round_to_pages sz) p1 (mmap (round_to_pages sz)))
        (merge_on_malloc os p p.heap.merge_metric p.heap.alloc_record)

-- What the handler notes of the page before it deals with it.
unfoldable pub note_fault : System → ℕ → Process → MergeMetric → Option Process
note_fault os faultaddr p metric =
    let marked = record p {
      heap = record p.heap { alloc_record = mark_dirty p.heap.alloc_record faultaddr };
    } in
    let emptied =
      Option.map
        (λ h'. record p {
          heap = record p.heap { pages = h' };
          buffer_of_dirty_pages = faultaddr ∷ [];
        })
        (merge_by_buffered os p.heap.space p.buffer_of_dirty_pages p.heap.pages) in
    elim metric [
      | merge_disabled ↦ some p
      | alloc_frequency ↦ some marked
      | threshold ↦ some marked
      | buffered ↦
          if length p.buffer_of_dirty_pages == buffer_length
          then emptied
          else some (record p { buffer_of_dirty_pages = p.buffer_of_dirty_pages ++ faultaddr ∷ [] })
    ]

unfoldable pub take_fault : ℕ → Process → Option Process
take_fault faultaddr p =
    Option.map (λ i. record p { heap = record p.heap { pages = handle_fault i p.heap.pages } })
      (addr_to_page_index p.heap.space 12 faultaddr)

-- `MergeByTHRESHOLD` where the policy asks for it.
unfoldable pub merge_after_fault :
    System → Process → MergeMetric → Option AvlTreeData → Option Process
merge_after_fault os p merge_disabled alloc_record = some p
merge_after_fault os p alloc_frequency alloc_record = some p
merge_after_fault os p threshold none =
    let used = int_add p.heap.pages.all_proc_private_page_count p.heap.pages.shared_page_count in
    let timer = int_sub p.count_down_timer 1 in
    if not (timer == 0)
    then some (record p { count_down_timer = timer })
    else if int_ge used p.merge_min_mem_th
    then none
    else some (record p { count_down_timer = 100 })
merge_after_fault os p threshold (some tree) =
    let (timer, least, pages, tree') =
      merge_by_threshold os p.heap.space p.count_down_timer p.merge_min_mem_th tree p.heap.pages in
    after_merge (record p { count_down_timer = timer; merge_min_mem_th = least }) pages tree'
merge_after_fault os p buffered alloc_record = some p

-- The address is rounded down to its page.
unfoldable pub sig_segv_handler : System → ℕ → Process → Option Process
sig_segv_handler os addr p =
    let faultaddr = addr / 4096 * 4096 in
    Option.bind (note_fault os faultaddr p p.heap.merge_metric) (λ p1.
      Option.bind (take_fault faultaddr p1)
        (λ p2. merge_after_fault os p2 p2.heap.merge_metric p2.heap.alloc_record))

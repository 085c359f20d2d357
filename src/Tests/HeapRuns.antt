-- ===== src/Tests/HeapRuns.antt =====
-- Runs of `ShmMallocWrapper`, `ShmFreeWrapper`, the signal handler and a merge of all regions.
use sbllmalloc.Shared.{
  ◌-◌, ltb, ◌==◌, if◌then◌else◌, ℕ, ◌^◌, ◌≡◌, refl, arith, Bool, true, Option, some, pos,
}
use sbllmalloc.Avl.Tree.{AvlTreeData}
use sbllmalloc.Avl.Assoc.{insert_region, delete_region, lookup_region}
use sbllmalloc.Avl.Bindings.{bindings}
use sbllmalloc.Avl.Refinement.{IsValid, regions}
use sbllmalloc.Metadata.Address.{heap_pages}
use sbllmalloc.Contents.Reads.{Transparent}
use sbllmalloc.Pages.State.{Pages}
use sbllmalloc.Pages.Account.{IsSound, Conserves}
use sbllmalloc.Regions.Heap.{check_mpi_initialized, round_to_pages, shm_free_wrapper}
use sbllmalloc.Regions.FreeLaws.{shm_free_wrapper-frees}
use sbllmalloc.Merge.Policies.{int_ge, merge_all, merge_by_threshold}
use sbllmalloc.Merge.Countdown.{frames_used, timer_after, merge_by_threshold-due}
use sbllmalloc.Merge.PolicyLaws.{AllInHeap, AllClean, merge_all-IsSound}
use sbllmalloc.Process.Calls.{Process, shm_malloc_wrapper}
use sbllmalloc.Process.MallocLaws.{shm_malloc_wrapper-allocates}
use sbllmalloc.Process.Realloc.{copied_bytes}
use sbllmalloc.Process.ReallocLaws.{copied_bytes_iff}
use sbllmalloc.Process.RoundTrip.{shm_free_wrapper-shm_malloc_wrapper}
use sbllmalloc.Tests.Samples.{
  fresh, space, tree, tree-IsValid, pages, pages-IsSound, system, heap, process,
}

abbrev unmaps : ℕ → ℕ → Bool
unmaps ptr size = true

shm_free_wrapper-frees_example :
    (tree' : AvlTreeData) × (pages' : Pages) × (shm_free_wrapper unmaps 0x11000 heap
      ≡ some (record heap { alloc_record = some tree'; pages = pages' }, pos 1))
    × IsValid (2 ^ 63) tree'
    × (regions tree' ≡ delete_region 0x11000 (regions tree))
    × IsSound pages'
    × Conserves heap_pages heap.pages pages'
unfolding check_mpi_initialized lookup_region bindings
shm_free_wrapper-frees_example =
    shm_free_wrapper-frees unmaps 0x11000 heap tree (2 ^ 63) refl tree-IsValid (omega arith) refl
      (omega arith) (omega arith) refl refl refl (omega arith) (omega arith) pages-IsSound

tree-AllInHeap : AllInHeap space tree.root
tree-AllInHeap = (
  omega arith,
  omega arith,
  omega arith,
  (omega arith, omega arith, omega arith, tt, tt),
  (omega arith, omega arith, omega arith, tt, tt),
)

merge_all-IsSound_example :
    (h' : Pages) × ((merge_all system space tree pages).0 ≡ some h')
    × IsSound h'
    × Transparent pages h'
    × (regions (merge_all system space tree pages).1 ≡ regions tree)
    × AllClean (merge_all system space tree pages).1.root
merge_all-IsSound_example =
    merge_all-IsSound system space tree pages pages-IsSound refl (λ j. refl) tree-AllInHeap

abbrev mapping : ℕ → Option ℕ
mapping size = some 0x30000

shm_malloc_wrapper-allocates_example :
    (tree' : AvlTreeData) × (shm_malloc_wrapper system mapping fresh 5000 process
      ≡ some (record process { heap = record heap { alloc_record = some tree' } }, 0x30000))
    × IsValid (2 ^ 63) tree'
    × (regions tree' ≡ insert_region 0x30000 (round_to_pages 5000) (regions tree))
unfolding check_mpi_initialized
shm_malloc_wrapper-allocates_example =
    shm_malloc_wrapper-allocates system mapping fresh 5000 process refl refl refl (2 ^ 63) 0x30000
      tree refl (omega arith) refl tree-IsValid

abbrev small : ℕ → ℕ
small size = 0x50

copied_bytes_iff_example :
    (copied_bytes 0x90000000 0xa0000000 == 0x90000000) ≡ ltb 0x90000000 (2 ^ 31)
copied_bytes_iff_example = copied_bytes_iff 0x90000000 0xa0000000 (omega arith) (omega arith)

shm_free_wrapper-shm_malloc_wrapper_example :
    (p1 : Process) × (tree' : AvlTreeData) × (pages' : Pages) × (shm_malloc_wrapper system mapping
        fresh 5000 process
      ≡ some (p1, 0x30000))
    × (shm_free_wrapper unmaps 0x30000 p1.heap
        ≡ some (record heap { alloc_record = some tree'; pages = pages' }, pos 1))
    × IsValid (2 ^ 63) tree'
    × (regions tree' ≡ regions tree)
    × IsSound pages'
    × Conserves heap_pages heap.pages pages'
unfolding check_mpi_initialized bindings round_to_pages
shm_free_wrapper-shm_malloc_wrapper_example =
    shm_free_wrapper-shm_malloc_wrapper system mapping unmaps fresh 5000 (2 ^ 63) 0x30000 process
      tree refl refl refl (omega arith) (omega arith) refl refl (omega arith) refl tree-IsValid
      (λ e. absurd (omega arith), (λ e. absurd (omega arith), (λ e. absurd (omega arith), tt))) refl
      (omega arith) (omega arith) pages-IsSound

abbrev same_tree : ℕ → AvlTreeData
same_tree n = tree

abbrev same_pages : ℕ → Pages
same_pages n = pages

merge_by_threshold-due_example :
    merge_by_threshold system space
      (timer_after system space same_tree same_pages 99 100 2).0
      (timer_after system space same_tree same_pages 99 100 2).1
      tree
      pages
    ≡ (if 100 - 99 == 1
        then (if int_ge (frames_used pages) 2
            then (let (h', tree') = merge_all system space tree pages in
                (100, frames_used pages, h', tree'))
            else (100, 2, some pages, tree))
        else (100 - 99 - 1, 2, some pages, tree))
merge_by_threshold-due_example =
    merge_by_threshold-due system space same_tree same_pages 99 100 2 (omega arith) (omega arith)

-- ===== src/Process/RoundTrip.antt =====
-- SharedHeap.cpp: `ShmMallocWrapper` followed by `ShmFreeWrapper` of its result.
use sbllmalloc.Shared.{
  ◌-◌, ℕ, ◌+◌, ◌*◌, ◌^◌, ◌≤◌, ◌<◌, ◌≡◌, ◌≢◌, refl, ap, ◌∙◌, arith, List, [], ◌∷◌, All, Bool, true,
  false, Option, some, pos,
}
use sbllmalloc.Avl.Tree.{AvlTreeData}
use sbllmalloc.Avl.Insert.{Fresh}
use sbllmalloc.Avl.Assoc.{Region, insert_region, delete_region, lookup_region}
use sbllmalloc.Avl.Refinement.{IsValid, regions}
use sbllmalloc.Metadata.Address.{IsHeap, heap_pages}
use sbllmalloc.Pages.State.{Pages}
use sbllmalloc.Pages.Account.{IsSound, Conserves}
use sbllmalloc.Regions.Heap.{
  Heap, threshold, check_mpi_initialized, round_to_pages, rounds, shm_free_wrapper,
}
use sbllmalloc.Regions.FreeLaws.{merges, shm_free_wrapper-frees}
use sbllmalloc.Merge.Remaps.{System}
use sbllmalloc.Process.Calls.{Process, shm_malloc_wrapper}
use sbllmalloc.Process.MallocLaws.{round_to_pages_bounds, shm_malloc_wrapper-allocates}

-- No region has the key.
abbrev pub Absent : ℕ → List Region → Type 0
Absent k m = All (λ b. b.0 ≢ k) m

delete_region-insert_region :
    (k v : ℕ) (m : List Region) → Absent k m → delete_region k (insert_region k v m) ≡ m
unfolding delete_region insert_region
delete_region-insert_region k v [] absent = ground arith
delete_region-insert_region k v ((j, w) ∷ m) absent =
    ground (arith, absent.0, delete_region-insert_region k v m absent.1)

lookup_region-insert_region_same :
    (k v : ℕ) (m : List Region) → Absent k m → lookup_region k (insert_region k v m) ≡ v
unfolding lookup_region insert_region
lookup_region-insert_region_same k v [] absent = ground arith
lookup_region-insert_region_same k v ((j, w) ∷ m) absent =
    ground (arith, absent.0, lookup_region-insert_region_same k v m absent.1)

-- Under the threshold policy, between the initialisation and the end of MPI, for a size from 1
-- byte to 2^31 - 4096 bytes and an address that `mmap` returns, that is below the bound, is no key
-- of the valid record and is the start of a region inside the heap: `ShmMallocWrapper` returns it,
-- `ShmFreeWrapper` of it then returns 1 where `munmap` succeeds, the list of regions is the one
-- before, record and metadata are sound, and the counters move by what the pages count.
pub shm_free_wrapper-shm_malloc_wrapper :
    (os : System) (mmap : ℕ → Option ℕ) (unmap : ℕ → ℕ → Bool) (fresh : Fresh) (sz limit ptr : ℕ)
    (p : Process) (tree : AvlTreeData)
    → let size = round_to_pages sz in
      check_mpi_initialized p.heap ≡ true
      → p.heap.is_mpi_finalized ≡ false
      → p.heap.merge_metric ≡ threshold
      → 0 < sz
      → sz ≤ 2 ^ 31 - 4096
      → mmap size ≡ some ptr
      → unmap ptr size ≡ true
      → ptr < limit
      → p.heap.alloc_record ≡ some tree
      → IsValid limit tree
      → Absent ptr (regions tree)
      → IsHeap p.heap.space
      → p.heap.space.bottom < ptr
      → ptr + rounds size * 4096 ≤ p.heap.space.top
      → IsSound p.heap.pages
      → (p1 : Process) × (tree' : AvlTreeData) × (pages' : Pages) × (shm_malloc_wrapper os mmap
            fresh sz p
          ≡ some (p1, ptr))
        × (shm_free_wrapper unmap ptr p1.heap
            ≡ some (record p.heap { alloc_record = some tree'; pages = pages' }, pos 1))
        × IsValid limit tree'
        × (regions tree' ≡ regions tree)
        × IsSound pages'
        × Conserves heap_pages p.heap.pages pages'
unfolding check_mpi_initialized
shm_free_wrapper-shm_malloc_wrapper os mmap unmap fresh sz limit ptr p tree started running policy
      some_bytes signed mapped unmapped below there valid absent heap low high sound =
    let size = round_to_pages sz in
    let (large, small, whole) = round_to_pages_bounds sz (omega arith) in
    let (tree1, made, valid1, regions1) =
      shm_malloc_wrapper-allocates os mmap fresh sz p started running policy limit ptr tree mapped
        below there valid in
    let heap1 : Heap = record p.heap { alloc_record = some tree1 } in
    let known : lookup_region ptr (regions tree1) ≡ size =
      ap (lookup_region ptr) regions1
      ∙ lookup_region-insert_region_same ptr size (regions tree) absent in
    let (tree', pages', freed, valid', regions', sound', conserved) =
      shm_free_wrapper-frees unmap ptr heap1 tree1 limit refl valid1 below started
        (omega (arith, known)) (omega (arith, known)) (ap (unmap ptr) known ∙ unmapped)
        (ap merges policy) heap low (rw known high) sound in
    (
      record p { heap = heap1 },
      tree',
      pages',
      made,
      freed,
      valid',
      regions'
          ∙ ap (delete_region ptr) regions1
          ∙ delete_region-insert_region ptr size (regions tree) absent,
      sound',
      conserved,
    )

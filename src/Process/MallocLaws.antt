-- ===== src/Process/MallocLaws.antt =====
-- SharedHeap.cpp: `ShmMallocWrapper`, its size and its effect on the record.
use mathlib.Core.Option
use sbllmalloc.Shared.{
  ℕ, ◌+◌, ◌%◌, ◌^◌, ◌≤◌, ◌<◌, ◌≡◌, refl, ap, if◌then◌else◌, ◌∙◌, arith, true, false, Option, none,
  some,
}
use sbllmalloc.Avl.Tree.{AvlTreeData}
use sbllmalloc.Avl.Insert.{Fresh, insert_avl}
use sbllmalloc.Avl.Assoc.{insert_region}
use sbllmalloc.Avl.Refinement.{IsValid, regions, insert_avl-refines}
use sbllmalloc.Regions.Aspace.{aspace_avl_insert_wrapper}
use sbllmalloc.Regions.Heap.{threshold, check_mpi_initialized, round_to_pages}
use sbllmalloc.Merge.Remaps.{System}
use sbllmalloc.Process.Calls.{Process, merge_on_malloc, enter_region, shm_malloc_wrapper}

-- For a request below 2^64 - 4095 bytes, the size that `ShmMallocWrapper` maps is the least
-- multiple of the page size that is not below it.
pub round_to_pages_bounds :
    (sz : ℕ)
    → sz + 4095 < 2 ^ 64
    → (sz ≤ round_to_pages sz) × (round_to_pages sz < sz + 4096) × (round_to_pages sz % 4096 ≡ 0)
unfolding round_to_pages
round_to_pages_bounds sz fits = (omega arith, omega arith, omega arith)

module _ (os : System) (mmap : ℕ → Option ℕ) (fresh : Fresh) (sz : ℕ) (p : Process)
    (started : check_mpi_initialized p.heap ≡ true) (running : p.heap.is_mpi_finalized ≡ false)
    (policy : p.heap.merge_metric ≡ threshold) where
  malloc_enters :
      shm_malloc_wrapper os mmap fresh sz p
      ≡ some (enter_region fresh (round_to_pages sz) p (mmap (round_to_pages sz)))
  unfolding shm_malloc_wrapper
  malloc_enters =
      let no_merge = ap (λ m. merge_on_malloc os p m p.heap.alloc_record) policy in
      rw started (
        ap
          (λ b.
            if b
            then some (p, 0)
            else Option.map
                (λ p1. enter_region fresh (round_to_pages sz) p1 (mmap (round_to_pages sz)))
                (merge_on_malloc os p p.heap.merge_metric p.heap.alloc_record))
          running
        ∙ ap
            (Option.map
              (λ p1. enter_region fresh (round_to_pages sz) p1 (mmap (round_to_pages sz))))
            (no_merge ∙ threshold_waits))
    where
      threshold_waits : merge_on_malloc os p threshold p.heap.alloc_record ≡ some p
      threshold_waits = unfold merge_on_malloc in refl

  -- Under the threshold policy, between the initialisation and the end of MPI, where `mmap` fails,
  -- `ShmMallocWrapper` returns NULL and changes nothing.
  pub shm_malloc_wrapper-fails :
      mmap (round_to_pages sz) ≡ none → shm_malloc_wrapper os mmap fresh sz p ≡ some (p, 0)
  unfolding enter_region
  shm_malloc_wrapper-fails failed =
      malloc_enters ∙ ap (λ r. some (enter_region fresh (round_to_pages sz) p r)) failed

  enter_region-some :
      (ptr : ℕ) (tree : AvlTreeData)
      → mmap (round_to_pages sz) ≡ some ptr
      → p.heap.alloc_record ≡ some tree
      → enter_region fresh (round_to_pages sz) p (mmap (round_to_pages sz)) ≡ (
        record p {
          heap = record p.heap {
            alloc_record = some (insert_avl fresh tree ptr (round_to_pages sz)).0;
          };
        },
        ptr,
      )
  unfolding enter_region aspace_avl_insert_wrapper
  enter_region-some ptr tree mapped there =
      ap (enter_region fresh (round_to_pages sz) p) mapped
      ∙ ap
          (λ t. (
            record p {
              heap = record p.heap {
                alloc_record = aspace_avl_insert_wrapper fresh t ptr (round_to_pages sz);
              };
            },
            ptr,
          ))
          there

  -- Under the threshold policy, between the initialisation and the end of MPI, where `mmap`
  -- returns an address below the bound, `ShmMallocWrapper` returns it and enters the region with
  -- its rounded size into the valid record, which stays valid.
  pub shm_malloc_wrapper-allocates :
      (limit ptr : ℕ) (tree : AvlTreeData)
      → mmap (round_to_pages sz) ≡ some ptr
      → ptr < limit
      → p.heap.alloc_record ≡ some tree
      → IsValid limit tree
      → (tree' : AvlTreeData) × (shm_malloc_wrapper os mmap fresh sz p
          ≡ some (record p { heap = record p.heap { alloc_record = some tree' } }, ptr))
        × IsValid limit tree'
        × (regions tree' ≡ insert_region ptr (round_to_pages sz) (regions tree))
  shm_malloc_wrapper-allocates limit ptr tree mapped fits there valid =
      let (valid', inserted, before) =
        insert_avl-refines limit tree valid ptr fits fresh (round_to_pages sz) in
      (
        (insert_avl fresh tree ptr (round_to_pages sz)).0,
        malloc_enters ∙ ap (λ r. some r) (enter_region-some ptr tree mapped there),
        valid',
        inserted,
      )

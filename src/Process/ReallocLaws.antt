-- ===== src/Process/ReallocLaws.antt =====
-- SharedHeap.cpp: `ShmReallocWrapper`, its branches and the copy.
use mathlib.Core.Option
use sbllmalloc.Shared.{
  ℕ, ◌^◌, ◌≤◌, ◌<◌, ◌≡◌, ◌⊎◌, ap, ◌∙◌, arith, Bool, true, Option, some, ltb, ◌==◌, if◌then◌else◌,
}
use sbllmalloc.Avl.Tree.{AvlTreeData}
use sbllmalloc.Avl.Insert.{Fresh}
use sbllmalloc.Avl.Assoc.{lookup_region}
use sbllmalloc.Avl.Refinement.{IsValid, regions, find_avl-eq-lookup_region}
use sbllmalloc.Pages.State.{Pages}
use sbllmalloc.Regions.Aspace.{aspace_avl_search_wrapper}
use sbllmalloc.Regions.Heap.{Heap, check_mpi_initialized}
use sbllmalloc.Merge.Remaps.{System}
use sbllmalloc.Process.Calls.{Process}
use sbllmalloc.Process.Realloc.{copied_bytes, shm_realloc_wrapper}

-- For a region below 2^32 bytes that grows, `ShmReallocWrapper` copies the bytes of the old region
-- exactly if these are fewer than 2^31.
pub copied_bytes_iff :
    (old_size size : ℕ)
    → old_size < size
    → old_size < 2 ^ 32
    → (copied_bytes old_size size == old_size) ≡ ltb old_size (2 ^ 31)
unfolding copied_bytes
copied_bytes_iff old_size size more fits = ground arith

module _ (os : System) (mmap : ℕ → Option ℕ) (unmap : ℕ → ℕ → Bool) (ptmalloc : ℕ → ℕ)
    (fresh : Fresh) (ptr size limit : ℕ) (p : Process) (tree : AvlTreeData)
    (started : check_mpi_initialized p.heap ≡ true) (there : p.heap.alloc_record ≡ some tree)
    (valid : IsValid limit tree) (fits : ptr < limit) where
  search_there :
      aspace_avl_search_wrapper p.heap.alloc_record ptr ≡ lookup_region ptr (regions tree)
  unfolding aspace_avl_search_wrapper
  search_there =
      ap (λ t. aspace_avl_search_wrapper t ptr) there
      ∙ find_avl-eq-lookup_region limit tree valid ptr fits

  -- With a valid record, for an address that is no key of it or a size that its region already
  -- has, `ShmReallocWrapper` changes nothing, and returns NULL for an unknown address and the same
  -- address for a known one.
  pub shm_realloc_wrapper-keeps :
      (lookup_region ptr (regions tree) ≡ 0) ⊎ (size ≤ lookup_region ptr (regions tree))
      → shm_realloc_wrapper os mmap unmap ptmalloc fresh ptr size p
        ≡ some (p, if lookup_region ptr (regions tree) == 0 then 0 else ptr)
  unfolding shm_realloc_wrapper
  shm_realloc_wrapper-keeps small = rw (search_there, started) (ground arith)

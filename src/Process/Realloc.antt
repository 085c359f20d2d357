-- ===== src/Process/Realloc.antt =====
-- SharedHeap.cpp: `ShmReallocWrapper`. `ptmalloc` is the allocator for small blocks. What is copied is the
-- content of memory, of which the number of bytes is modelled. The write
-- faults of the copy are calls of the handler, which are not followed here.
use mathlib.Core.Option
use sbllmalloc.Shared.{
  none, ℕ, ◌+◌, ◌-◌, ◌%◌, ◌^◌, Bool, not, Option, some, ltb, leb, ◌==◌, if◌then◌else◌,
}
use sbllmalloc.Avl.Insert.{Fresh}
use sbllmalloc.Regions.Aspace.{aspace_avl_search_wrapper}
use sbllmalloc.Regions.Heap.{check_mpi_initialized, shm_free_wrapper}
use sbllmalloc.Merge.Remaps.{System}
use sbllmalloc.Process.Calls.{Process, shm_malloc_wrapper}

-- `int32_t sz`, as `memcpy` reads it, a `size_t`
unfoldable pub copied_bytes : ℕ → ℕ → ℕ
copied_bytes old_size size =
    let sz = (if ltb old_size size then old_size else size) % 2 ^ 32 in
    if ltb sz (2 ^ 31) then sz else sz + 2 ^ 64 - 2 ^ 32

module _ (os : System) (mmap : ℕ → Option ℕ) (unmap : ℕ → ℕ → Bool) (ptmalloc : ℕ → ℕ)
    (fresh : Fresh) (ptr : ℕ) where
  -- With the new pointer: where there is one, the bytes are copied and the old region is freed. A copy of
  -- 2^63 bytes or more, which a negative `sz` asks for, runs out of the address space.
  unfoldable pub move_region : ℕ → ℕ → ℕ → Process → Option (Process × ℕ)
  move_region old_size size new_ptr p =
      if new_ptr == 0
      then some (p, ptr)
      else if leb (2 ^ 63) (copied_bytes old_size size)
      then none
      else Option.map (λ freed. (record p { heap = freed.0 }, new_ptr))
          (shm_free_wrapper unmap ptr p.heap)

  -- The process and the pointer, 0 for NULL
  unfoldable pub shm_realloc_wrapper : ℕ → Process → Option (Process × ℕ)
  shm_realloc_wrapper size p =
      let old_size = aspace_avl_search_wrapper p.heap.alloc_record ptr in
      if not (check_mpi_initialized p.heap)
      then some (p, 0)
      else if old_size == 0
      then some (p, 0)
      else if leb size old_size
      then some (p, ptr)
      else Option.bind (shm_malloc_wrapper os mmap fresh size p)
          (λ r. move_region old_size size (if r.1 == 0 then ptmalloc size else r.1) r.0)

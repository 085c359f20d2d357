-- ===== src/Regions/FreeLaws.antt =====
-- SharedHeap.cpp: `ShmFreeWrapper`, the record, the metadata and the shared counters.
use sbllmalloc.Shared.{
  ap, ℕ, zero, suc, ◌+◌, ◌-◌, ◌*◌, ◌/◌, ◌^◌, ◌≤◌, ◌<◌, ◌≡◌, refl, sym, ◌∙◌, arith, Bool, true,
  false, Option, some, leb, ◌==◌, pos, negsuc,
}
use sbllmalloc.Avl.Tree.{AvlTreeData}
use sbllmalloc.Avl.Remove.{remove_avl}
use sbllmalloc.Avl.Assoc.{delete_region, lookup_region}
use sbllmalloc.Avl.Refinement.{IsValid, regions, remove_avl-refines}
use sbllmalloc.Metadata.Address.{
  Space, heap_pages, IsHeap, addr_to_page_index, translate_mmap_addr, addr_to_page_index-lt,
}
use sbllmalloc.Pages.State.{Pages}
use sbllmalloc.Pages.Steps.{free_page}
use sbllmalloc.Pages.Account.{
  IsSound, Conserves, Conserves-refl, Conserves-trans, ConservesAt-Conserves,
}
use sbllmalloc.Pages.StepLaws.Free.{free_page-IsSound, free_page-ConservesAt, free_page-SameOthers}
use sbllmalloc.Pages.Others.{SameOthers, SameOthers-refl, SameOthers-trans}
use sbllmalloc.Regions.Aspace.{aspace_avl_remove_wrapper}
use mathlib.Core.Option
use sbllmalloc.Regions.Heap.{
  int_rounds, Heap, MergeMetric, merge_disabled, alloc_frequency, threshold, buffered,
  check_mpi_initialized, rounds, free_loop, free_pages, shm_free_wrapper,
}

pub addr_to_page_index-some :
    (s : Space) (addr : ℕ)
    → s.bottom < addr
    → addr < s.top
    → addr_to_page_index s 12 addr ≡ some ((addr - s.bottom) / 2 ^ 12)
unfolding addr_to_page_index translate_mmap_addr
addr_to_page_index-some s addr low high = ground arith

pub free_loop-step :
    (space : Space) (n addr i : ℕ) (last : Bool) (h : Pages)
    → addr_to_page_index space 12 addr ≡ some i
    → free_loop space (suc n) addr last h
      ≡ free_loop space n (addr + 4096) (free_page i last h).1 (free_page i last h).0
unfolding free_loop
free_loop-step space n addr i last h e = rw (free_loop, e) refl

module _ (space : Space) (heap : IsHeap space) where
  -- The loop ends on every region inside the heap, with sound tables and the counters in account.
  pub free_loop-Conserves :
      (n addr : ℕ) (last : Bool) (h : Pages)
      → IsSound h
      → space.bottom < addr
      → addr + n * 4096 ≤ space.top
      → (h' : Pages) × (free_loop space n addr last h ≡ some h')
        × IsSound h'
        × Conserves heap_pages h h'
        × SameOthers h h'
  unfolding free_loop
  free_loop-Conserves zero addr last h sound low high =
      (h, refl, sound, Conserves-refl heap_pages h, SameOthers-refl h)
  free_loop-Conserves (suc n) addr last h sound low high =
      let i = (addr - space.bottom) / 2 ^ 12 in
      let index = addr_to_page_index-some space addr low (omega arith) in
      let step = free_page i last h in
      let (h', e, s, c, others) =
        free_loop-Conserves n (addr + 4096) step.1 step.0 (free_page-IsSound h sound i last)
          (omega arith) (omega arith) in
      (
        h',
        free_loop-step space n addr i last h index ∙ e,
        s,
        Conserves-trans
            (ConservesAt-Conserves heap_pages i h step.0
              (addr_to_page_index-lt space addr i heap index)
              (free_page-ConservesAt h sound i last))
            c,
        SameOthers-trans (free_page-SameOthers h sound i last) others,
      )

abbrev pub merges : MergeMetric → Bool
merges merge_disabled = false
merges alloc_frequency = true
merges threshold = true
merges buffered = true

int_rounds-some : (size : ℕ) → size ≤ 2 ^ 31 - 4096 → int_rounds size ≡ some (rounds size)
unfolding int_rounds
int_rounds-some size small = ground arith

free_pages-eq-free_loop :
    (m : MergeMetric) (space : Space) (ptr size : ℕ) (h : Pages)
    → size ≤ 2 ^ 31 - 4096
    → merges m ≡ true
    → free_pages m space ptr size h ≡ free_loop space (rounds size) ptr false h
unfolding free_pages Option.bind
free_pages-eq-free_loop merge_disabled space ptr size h small e = absurd (ground arith)
free_pages-eq-free_loop alloc_frequency space ptr size h small e =
    ap (λ o. Option.bind o (λ n. free_loop space n ptr false h)) (int_rounds-some size small)
free_pages-eq-free_loop threshold space ptr size h small e =
    ap (λ o. Option.bind o (λ n. free_loop space n ptr false h)) (int_rounds-some size small)
free_pages-eq-free_loop buffered space ptr size h small e =
    ap (λ o. Option.bind o (λ n. free_loop space n ptr false h)) (int_rounds-some size small)

module _ (unmap : ℕ → ℕ → Bool) (ptr : ℕ) (h : Heap) (size : ℕ) (record' : Option AvlTreeData)
    (started : check_mpi_initialized h ≡ true)
    (removed : aspace_avl_remove_wrapper h.alloc_record ptr ≡ (record', size)) where
  refuse_free :
      size ≡ 0 → shm_free_wrapper unmap ptr h ≡ some (record h { alloc_record = record' }, negsuc 0)
  unfolding shm_free_wrapper
  refuse_free unknown = rw (started, removed, unknown) refl

  complete_free :
      (pages' : Pages)
      → 0 < size
      → size < 2 ^ 63
      → unmap ptr size ≡ true
      → free_pages h.merge_metric h.space ptr size h.pages ≡ some pages'
      → shm_free_wrapper unmap ptr h
        ≡ some (record h { alloc_record = record'; pages = pages' }, pos 1)
  unfolding shm_free_wrapper
  complete_free pages' some_bytes signed unmapped freed =
      let nonzero : (size == 0) ≡ false = ground arith in
      let positive : leb (2 ^ 63) size ≡ false = ground arith in
      rw (started, removed, nonzero, positive, unmapped, freed) refl

module _ (unmap : ℕ → ℕ → Bool) (ptr : ℕ) (h : Heap) (tree : AvlTreeData) (limit : ℕ)
    (there : h.alloc_record ≡ some tree) (valid : IsValid limit tree) (fits : ptr < limit)
    (started : check_mpi_initialized h ≡ true) where
  remove_there :
      aspace_avl_remove_wrapper h.alloc_record ptr
      ≡ (some (remove_avl tree ptr).0, lookup_region ptr (regions tree))
  unfolding aspace_avl_remove_wrapper
  remove_there = rw (there, sym (remove_avl-refines limit tree valid ptr fits).2) refl

  -- For an address that is no key of the valid record, `ShmFreeWrapper` returns -1, changes no
  -- page and no region, and keeps the record valid.
  pub shm_free_wrapper-unknown :
      lookup_region ptr (regions tree) ≡ 0
      → (tree' : AvlTreeData) × (shm_free_wrapper unmap ptr h
          ≡ some (record h { alloc_record = some tree' }, negsuc 0))
        × IsValid limit tree'
        × (regions tree' ≡ delete_region ptr (regions tree))
  shm_free_wrapper-unknown unknown =
      let (valid', removed, size) = remove_avl-refines limit tree valid ptr fits in
      (_, refuse_free unmap ptr h _ _ started remove_there unknown, valid', removed)

  -- For a region of at most 2^31 - 4096 bytes in a valid record and inside the heap, with a
  -- merging policy, sound metadata and an `munmap` that succeeds, `ShmFreeWrapper` returns 1,
  -- takes the region out of the record, keeps record and metadata sound, and moves the shared
  -- counters by what the pages of the heap count.
  pub shm_free_wrapper-frees :
      let size = lookup_region ptr (regions tree) in
      0 < size
      → size ≤ 2 ^ 31 - 4096
      → unmap ptr size ≡ true
      → merges h.merge_metric ≡ true
      → IsHeap h.space
      → h.space.bottom < ptr
      → ptr + rounds size * 4096 ≤ h.space.top
      → IsSound h.pages
      → (tree' : AvlTreeData) × (pages' : Pages) × (shm_free_wrapper unmap ptr h
          ≡ some (record h { alloc_record = some tree'; pages = pages' }, pos 1))
        × IsValid limit tree'
        × (regions tree' ≡ delete_region ptr (regions tree))
        × IsSound pages'
        × Conserves heap_pages h.pages pages'
  shm_free_wrapper-frees some_bytes signed unmapped enabled heap low high sound =
      let (valid', removed, size) = remove_avl-refines limit tree valid ptr fits in
      let known = lookup_region ptr (regions tree) in
      let (pages', done, sound', conserved, others) =
        free_loop-Conserves h.space heap (rounds known) ptr false h.pages sound low high in
      let freed =
        free_pages-eq-free_loop h.merge_metric h.space ptr known h.pages signed enabled ∙ done in
      (
        _,
        pages',
        complete_free unmap ptr h _ _ started remove_there pages' some_bytes (omega arith) unmapped
            freed,
        valid',
        removed,
        sound',
        conserved,
      )

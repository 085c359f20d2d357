-- ===== src/Regions/FreeBits.antt =====
-- SharedHeap.cpp: the bits of all pages after the loop of `ShmFreeWrapper`.
use sbllmalloc.Shared.{
  ℕ, zero, suc, ◌+◌, ◌*◌, ◌≤◌, ◌<◌, ◌≡◌, refl, ◌∙◌, arith, Bool, not, ◌&&◌, some, ◌==◌,
}
use sbllmalloc.Metadata.Address.{Space, page_of}
use sbllmalloc.Pages.Memory.{in_run}
use sbllmalloc.Pages.State.{Pages}
use sbllmalloc.Pages.Steps.{free_page}
use sbllmalloc.Pages.Account.{IsSound}
use sbllmalloc.Pages.StepLaws.Free.{free_page-IsSound}
use sbllmalloc.Pages.StepLaws.Free.Bits.{FreeBits, free_page-FreeBits}
use sbllmalloc.Regions.Heap.{free_loop}
use sbllmalloc.Regions.FreeLaws.{addr_to_page_index-some, free_loop-step}

pub free_loop-FreeBits :
    (space : Space) (n addr : ℕ) (last : Bool) (h : Pages)
    → IsSound h
    → space.bottom < addr
    → addr + n * 4096 ≤ space.top
    → (h' : Pages) × (free_loop space n addr last h ≡ some h')
      × FreeBits (λ j. not (in_run (page_of space addr) n j)) h h'
unfolding free_loop
free_loop-FreeBits space zero addr last h sound low high = (
  h,
  refl,
  record {
    left_initialized = λ j. ground arith;
    left_zero = λ j. ground arith;
    left_shared = λ j. ground arith;
    left_memory = refl;
  },
)
free_loop-FreeBits space (suc n) addr last h sound low high =
    let i = page_of space addr in
    let index = addr_to_page_index-some space addr low (omega arith) in
    let step = free_page i last h in
    let first = free_page-FreeBits h i last sound in
    let (h', e, rest) =
      free_loop-FreeBits space n (addr + 4096) step.1 step.0 (free_page-IsSound h sound i last)
        (omega arith) (omega arith) in
    let next : page_of space (addr + 4096) ≡ i + 1 = omega arith in
    let others : (j : ℕ)
        → not (in_run i (suc n) j)
          ≡ (not (j == i) && not (in_run (page_of space (addr + 4096)) n j)) =
      λ j. ground (arith, next) in
    (
      h',
      free_loop-step space n addr i last h index ∙ e,
      record {
        left_initialized =
            λ j. ground (arith, others j, first.left_initialized j, rest.left_initialized j);
        left_zero = λ j. ground (arith, others j, first.left_zero j, rest.left_zero j);
        left_shared = λ j. ground (arith, others j, first.left_shared j, rest.left_shared j);
        left_memory = rest.left_memory ∙ first.left_memory;
      },
    )

-- ===== src/Nodes/Safety.antt =====
-- SharedHeap.cpp: the metadata and the counters on a node, whatever its processes do in whatever order.
use mathlib.Core.Path.{subst}
use sbllmalloc.Shared.{◌≡◌, false}
use sbllmalloc.Metadata.Address.{heap_pages}
use sbllmalloc.Pages.State.{Pages}
use sbllmalloc.Pages.Steps.{handle_fault}
use sbllmalloc.Pages.Account.{
  IsSound, Conserves, ConservesAt-Conserves, ConservesAt-memory, Conserves-memory, Conserves-refl,
}
use sbllmalloc.Pages.Others.{SameOthers, SameOthers-refl, SameOthers-memory}
use sbllmalloc.Pages.StepLaws.Fault.{
  fault_page-IsSound, fault_page-ConservesAt, fault_page-SameOthers,
}
use sbllmalloc.Merge.Single.{
  merge_pages, merge_pages-IsSound, merge_pages-ConservesAt, merge_pages-SameOthers,
}
use sbllmalloc.Merge.ManyLaws.{merge_many_pages-Keeps}
use sbllmalloc.Regions.FreeLaws.{free_loop-Conserves}
use sbllmalloc.Nodes.State.{Node}
use sbllmalloc.Merge.Ample.{ample, ample-AllBuffered, merge_many_pages-ample}
use sbllmalloc.Nodes.Steps.{
  Acts, fault, free, merge, merge_one, map_region, write_byte, Reach, created, joined, acted,
}
use sbllmalloc.Nodes.Invariant.{Accounted}
use sbllmalloc.Nodes.ActLaws.{store-Accounted}
use sbllmalloc.Nodes.CreateLaws.{create-Accounted}
use sbllmalloc.Nodes.JoinLaws.{join-Accounted}

-- Each step of one process keeps the process sound, the bits of the others, and the counters in account.
pub Acts-IsSound :
    (h h' : Pages)
    → Acts h h'
    → IsSound h
    → IsSound h' × SameOthers h h' × Conserves heap_pages h h'
unfolding handle_fault
Acts-IsSound h _ (fault _ i lt mapped) sound = (
  fault_page-IsSound h sound i,
  SameOthers-memory _ (fault_page-SameOthers h sound i),
  ConservesAt-Conserves heap_pages i h (handle_fault i h) lt
      (ConservesAt-memory _ (fault_page-ConservesAt h sound i)),
)
Acts-IsSound h _ (free space _ h' ptr n heap low high done) sound =
    let (freed, e, s, c, o) = free_loop-Conserves space heap n ptr false h sound low high in
    let same : freed ≡ h' = cc in
    let (s', o', c') =
      subst (λ r. IsSound r × SameOthers h r × Conserves heap_pages h r) same (s, o, c) in
    (s', SameOthers-memory _ o', Conserves-memory _ c')
Acts-IsSound h h' (merge os _ _ start n merged mapped top done) sound =
    let (after, count, e, keeps) =
      merge_many_pages-Keeps (ample os) start n h sound (ample-AllBuffered os) top in
    let ran = merge_many_pages-ample os start n h h' merged done in
    let same : after ≡ h' = cc in
    subst (λ r. IsSound r × SameOthers h r × Conserves heap_pages h r) same
      (keeps.still_sound, keeps.still_others, keeps.still_counted mapped heap_pages top)
Acts-IsSound h _ (merge_one _ i lt written not_zero) sound = (
  merge_pages-IsSound i h sound written not_zero,
  merge_pages-SameOthers i h sound written not_zero,
  ConservesAt-Conserves heap_pages i h (merge_pages i h).0 lt
      (merge_pages-ConservesAt i h sound written not_zero),
)
Acts-IsSound h _ (map_region _ start n free_there) sound = (
  sound,
  SameOthers-memory _ (SameOthers-refl h),
  Conserves-memory _ (Conserves-refl heap_pages h),
)
Acts-IsSound h _ (write_byte _ i k byte writable) sound = (
  sound,
  SameOthers-memory _ (SameOthers-refl h),
  Conserves-memory _ (Conserves-refl heap_pages h),
)

-- On every node that its processes reach by entering, by mapping pages and writing them, by write
-- faults, by frees inside a heap of 3 GB and by merges in any order, where every page can be
-- mapped to the zero page and no process enters beyond the bits of the table: each process has
-- sound metadata, no rank without a process has a bit, and the three shared counters are, modulo
-- 2^32, what the pages of all processes count.
pub Reach-Accounted : (node : Node) → Reach node → Accounted node
Reach-Accounted _ (created n) = create-Accounted n
Reach-Accounted _ (joined node reached room) =
    join-Accounted node (Reach-Accounted node reached) room
Reach-Accounted _ (acted node rank h' reached alive act) =
    let acc = Reach-Accounted node reached in
    let (sound, others, conserved) = Acts-IsSound _ h' act (acc.all_sound rank alive) in
    store-Accounted node rank h' acc alive sound others conserved

-- ===== src/Contents/ActStates.antt =====
-- SharedHeap.cpp: the mappings and the bytes of one process, over each of its steps.
use mathlib.Core.Path.{subst}
use sbllmalloc.Shared.{
  ℕ, ◌<◌, ◌≡◌, ◌≢◌, refl, ap, arith, false, not, ◌==◌, Bool-cases, inl, inr, if◌then◌else◌,
}
use sbllmalloc.Metadata.Address.{page_of}
use sbllmalloc.Metadata.Sharing.{bits}
use sbllmalloc.Metadata.SharingLaws.{sharer}
use sbllmalloc.Pages.Memory.{
  Bytes, Memory, zeros, in_run, page_bytes, backing_bytes, with_byte, unmap, map_private,
}
use sbllmalloc.Pages.State.{Pages}
use sbllmalloc.Pages.Account.{IsSound}
use sbllmalloc.Pages.StepLaws.Free.Bits.{FreeBits}
use sbllmalloc.Regions.FreeBits.{free_loop-FreeBits}
use sbllmalloc.Merge.Ample.{ample, ample-AllBuffered, merge_many_pages-ample}
use sbllmalloc.Nodes.Steps.{Acts, fault, free, merge, merge_one, map_region, write_byte}
use sbllmalloc.Contents.Reads.{Transparent}
use sbllmalloc.Contents.PageStates.{as_unmapped, as_fresh, Agrees, PageState-cast}
use sbllmalloc.Contents.StoreStates.{
  unmapped_bits, writable_private, store_byte-Agrees-at, store_byte-reads, store_byte-file,
}
use sbllmalloc.Contents.FaultStates.{handle_fault-Agrees, handle_fault-Transparent}
use sbllmalloc.Contents.MergeStates.{merge_many_pages-Agrees}
use sbllmalloc.Contents.MergeReads.{merge_many_pages-Transparent}
use sbllmalloc.Contents.SingleStates.{merge_pages-Agrees, merge_pages-Transparent}

-- Each step of one process keeps its mappings in agreement with the metadata.
pub Acts-Agrees : (h h' : Pages) → Acts h h' → IsSound h → Agrees h → Agrees h'
unfolding unmap map_private
Acts-Agrees h _ (fault _ i lt mapped) sound agrees = handle_fault-Agrees h i sound agrees mapped
Acts-Agrees h _ (free space _ h' ptr n heap low high done) sound agrees =
    let (freed, e, bits) = free_loop-FreeBits space n ptr false h sound low high in
    let same : freed ≡ h' = cc in
    let left = subst (λ r. FreeBits (λ j. not (in_run (page_of space ptr) n j)) h r) same bits in
    λ j. elim (Bool-cases (in_run (page_of space ptr) n j)) [
      | inl here ↦
          PageState-cast (rw here refl) (ground (arith, left.left_initialized j))
            (ground (arith, left.left_zero j)) (ground (arith, left.left_shared j)) as_unmapped
      | inr out ↦
          PageState-cast (rw out (ap (λ (m : Memory). m.frames j) left.left_memory))
            (ground (arith, left.left_initialized j)) (ground (arith, left.left_zero j))
            (ground (arith, left.left_shared j)) (agrees j)
    ]
Acts-Agrees h h' (merge os _ _ start n merged mapped top done) sound agrees =
    let (after, count, e, agrees') =
      merge_many_pages-Agrees (ample os) start n h sound (ample-AllBuffered os) top mapped agrees in
    let ran = merge_many_pages-ample os start n h h' merged done in
    let same : after ≡ h' = cc in subst (λ r. Agrees r) same agrees'
Acts-Agrees h _ (merge_one _ i lt written not_zero) sound agrees =
    merge_pages-Agrees i h sound written not_zero agrees
Acts-Agrees h _ (map_region _ start n free_there) sound agrees = λ j.
    elim (Bool-cases (in_run start n j)) [
      | inl here ↦
          let (a, b, c) = unmapped_bits (agrees j) (free_there j here) in
          PageState-cast (rw here refl) a b c (as_fresh zeros)
      | inr out ↦ PageState-cast (rw out refl) refl refl refl (agrees j)
    ]
Acts-Agrees h _ (write_byte _ i k byte writable) sound agrees =
    let (bytes, own, a, b, c) = writable_private (agrees i) writable in
    λ j. store_byte-Agrees-at h.memory i k byte bytes own j (agrees j) (λ e. rw e (a, b, c))

-- What the process is to read after a step: a store is seen, pages that are mapped or no longer mapped hold
-- zeros, and nothing else changes.
abbrev pub expected_reads : {h h' : Pages} → Acts h h' → (ℕ → Bytes) → ℕ → Bytes
expected_reads (fault h i lt mapped) r j = r j
expected_reads (free space h h' ptr n heap low high done) r j =
    if in_run (page_of space ptr) n j then zeros else r j
expected_reads (merge os h h' start n merged mapped top done) r j = r j
expected_reads (merge_one h i lt written not_zero) r j = r j
expected_reads (map_region h start n free_there) r j = if in_run start n j then zeros else r j
expected_reads (write_byte h i k byte writable) r j = if j == i then with_byte k byte (r i) else r j

-- The pages of the shared file that the other processes have
abbrev pub KeptFile : Pages → Pages → Type 0
KeptFile h h' =
    (r j : ℕ)
    → r < bits h.num_proc
    → r ≢ h.my_rank
    → sharer h.sharing_processes_info r j ≡ 1
    → h'.memory.shared_file j ≡ h.memory.shared_file j

pub Acts-reads :
    (h h' : Pages) (act : Acts h h')
    → IsSound h
    → Agrees h
    → ((j k : ℕ)
        → k < 4096
        → page_bytes h'.memory j k ≡ expected_reads act (page_bytes h.memory) j k)
      × KeptFile h h'
unfolding unmap map_private backing_bytes
Acts-reads h _ (fault _ i lt mapped) sound agrees =
    let kept = handle_fault-Transparent h i sound agrees mapped in (kept.same_reads, kept.kept_file)
Acts-reads h _ (free space _ h' ptr n heap low high done) sound agrees =
    let (freed, e, bits) = free_loop-FreeBits space n ptr false h sound low high in
    let same : freed ≡ h' = cc in
    let left = subst (λ r. FreeBits (λ j. not (in_run (page_of space ptr) n j)) h r) same bits in
    (
      λ j k lt. elim (Bool-cases (in_run (page_of space ptr) n j)) [
        | inl here ↦ rw here refl
        | inr out ↦ rw out (ap (λ (m : Memory). page_bytes m j k) left.left_memory)
      ],
      λ r j lt ne e. ap (λ (m : Memory). m.shared_file j) left.left_memory,
    )
Acts-reads h h' (merge os _ _ start n merged mapped top done) sound agrees =
    let (after, count, e, sound', kept) =
      merge_many_pages-Transparent (ample os) start n h sound (ample-AllBuffered os) top in
    let ran = merge_many_pages-ample os start n h h' merged done in
    let same : after ≡ h' = cc in
    let kept' = subst (Transparent h) same kept in (kept'.same_reads, kept'.kept_file)
Acts-reads h _ (merge_one _ i lt written not_zero) sound agrees =
    let kept = merge_pages-Transparent i h sound written not_zero in
    (kept.same_reads, kept.kept_file)
Acts-reads h _ (map_region _ start n free_there) sound agrees = (
  λ j k lt. elim (Bool-cases (in_run start n j)) [
    | inl here ↦ rw here refl
    | inr out ↦ rw out refl
  ],
  λ r j lt ne e. refl,
)
Acts-reads h _ (write_byte _ i k byte writable) sound agrees =
    let (bytes, own, a, b, c) = writable_private (agrees i) writable in
    (
      λ j l lt. store_byte-reads h.memory i k byte bytes own j l,
      λ r j lt ne e. store_byte-file h.memory i k byte bytes own j,
    )

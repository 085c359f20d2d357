-- ===== src/Merge/Single.antt =====
-- SharedHeap.cpp: `MergePages`, which merges one page, and what it keeps. The pages of the buffered policy are
-- merged with it.
use sbllmalloc.Shared.{
  ℕ, ◌<◌, ◌≡◌, refl, arith, true, false, not, if◌then◌else◌, Bool-cases, inl, inr,
}
use sbllmalloc.Metadata.Sharing.{get_sharing_bit, is_other_sharing}
use sbllmalloc.Metadata.OwnView.{is_other_sharing_iff}
use sbllmalloc.Pages.Memory.{same_content, map_shared, copy_to_shared}
use sbllmalloc.Pages.State.{Pages}
use sbllmalloc.Pages.Steps.{copy_page, remap_page}
use sbllmalloc.Pages.Account.{
  IsSound, is_initialized, is_zero, is_shared, is_private, sharers, ConservesAt, ConservesAt-memory,
}
use sbllmalloc.Pages.Others.{
  SameOthers, SameOthers-refl, SameOthers-memory, copy_page-SameOthers, remap_page-SameOthers,
}
use sbllmalloc.Pages.StepLaws.Remap.{
  copy_page-IsSound, copy_page-ConservesAt, remap_page-IsSound, remap_page-ConservesAt,
}

-- The pages, and 1 if the page was merged. The two calls of `mremap` are asserted to succeed.
unfoldable pub merge_pages : ℕ → Pages → Pages × ℕ
merge_pages i h =
    if get_sharing_bit h.num_proc h.my_rank h.sharing_processes_info i
    then (h, 0)
    else if not (is_other_sharing h.num_proc h.my_rank h.sharing_processes_info i)
    then (record (copy_page i h) { memory = map_shared i 1 (copy_to_shared i 1 h.memory) }, 0)
    else if same_content h.memory i
    then (record (remap_page i h) { memory = map_shared i 1 h.memory }, 1)
    else (h, 0)

module _ (i : ℕ) (h : Pages) (sound : IsSound h) (written : is_initialized h i ≡ true)
    (not_zero : is_zero h i ≡ false) where
  pub merge_pages_cases {ℓ} :
      (P : Pages → Type ℓ)
      → P h
      → (is_private h i ≡ true
          → sharers h i ≡ 0
          → P (record (copy_page i h) { memory = map_shared i 1 (copy_to_shared i 1 h.memory) }))
      → (is_private h i ≡ true
          → 0 < sharers h i
          → same_content h.memory i ≡ true
          → P (record (remap_page i h) { memory = map_shared i 1 h.memory }))
      → P (merge_pages i h).0
  unfolding merge_pages
  merge_pages_cases P stay copied remapped =
      let others =
        is_other_sharing_iff h.num_proc h.my_rank h.sharing_processes_info sound.known sound.fits
          i in
      elim (Bool-cases (is_shared h i)) [
        | inl sh ↦ rw sh stay
        | inr pr ↦
            elim (Bool-cases (is_other_sharing h.num_proc h.my_rank h.sharing_processes_info i)) [
              | inr alone ↦ rw (pr, alone) (copied (ground arith) (ground (arith, others)))
              | inl more ↦ elim (Bool-cases (same_content h.memory i)) [
                | inl same ↦
                    rw (pr, more, same) (remapped (ground arith) (ground (arith, others)) same)
                | inr other ↦ rw (pr, more, other) stay
              ]
            ]
      ]

  -- `MergePages` on a page that was written and is not zero keeps the metadata sound.
  pub merge_pages-IsSound : IsSound (merge_pages i h).0
  merge_pages-IsSound =
      merge_pages_cases IsSound sound (λ here alone. copy_page-IsSound h sound i here)
        (λ here more same. remap_page-IsSound h sound i here)

  -- With sound metadata, `MergePages` on a page that was written and is not a zero page moves the
  -- shared counters by what the page counts, whether it copies the page, shares it or leaves it.
  pub merge_pages-ConservesAt : ConservesAt i h (merge_pages i h).0
  merge_pages-ConservesAt =
      merge_pages_cases (λ r. ConservesAt i h r)
        (record {
          private_here = refl;
          shared_here = refl;
          base_here = refl;
          private_elsewhere = λ j ne. refl;
          shared_elsewhere = λ j ne. refl;
          base_elsewhere = λ j ne. refl;
        })
        (λ here alone. ConservesAt-memory _ (copy_page-ConservesAt h sound i here alone))
        (λ here more same. ConservesAt-memory _ (remap_page-ConservesAt h sound i here more))

  -- `MergePages` leaves the bits of the other processes.
  pub merge_pages-SameOthers : SameOthers h (merge_pages i h).0
  merge_pages-SameOthers =
      merge_pages_cases (SameOthers h) (SameOthers-refl h)
        (λ here alone. SameOthers-memory _ (copy_page-SameOthers h sound i))
        (λ here more same. SameOthers-memory _ (remap_page-SameOthers h sound i))

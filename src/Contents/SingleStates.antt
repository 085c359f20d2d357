-- ===== src/Contents/SingleStates.antt =====
-- SharedHeap.cpp: the page that `MergePages` merges, its mapping and its bytes.
use sbllmalloc.Shared.{ℕ, ◌≡◌, refl, ◌∙◌, arith, true, false, ◌==◌, Bool-cases, inl, inr}
use sbllmalloc.Pages.Memory.{Memory, in_run, map_shared, copy_to_shared}
use sbllmalloc.Pages.State.{Pages}
use sbllmalloc.Pages.Account.{IsSound, is_initialized, is_zero, is_private}
use sbllmalloc.Pages.Others.{SameOthers-memory, copy_page-SameOthers, remap_page-SameOthers}
use sbllmalloc.Merge.Marks.{Marks, nowhere, copy_page-SharesPage, remap_page-SharesPage}
use sbllmalloc.Merge.Single.{merge_pages, merge_pages_cases}
use sbllmalloc.Contents.Reads.{Transparent, Transparent-refl}
use sbllmalloc.Contents.RunReads.{map_shared-SameReads, map_copied-SameReads, nobody_shares}
use sbllmalloc.Contents.PageStates.{as_shared, Agrees, PageState-cast}

module _ (i : ℕ) (h : Pages) (sound : IsSound h) (written : is_initialized h i ≡ true)
    (not_zero : is_zero h i ≡ false) where
  pub merge_pages-Transparent : Transparent h (merge_pages i h).0
  merge_pages-Transparent =
      merge_pages_cases i h sound written not_zero (Transparent h) (Transparent-refl h)
        (λ here alone. record {
          same_reads = map_copied-SameReads i 1 h.memory;
          same_others = SameOthers-memory _ (copy_page-SameOthers h sound i);
          kept_file = λ r j lt ne e. elim (Bool-cases (in_run i 1 j)) [
            | inl own ↦
                let same : i ≡ j = ground arith in
                absurd (nobody_shares h r i sound lt alone (rw same e))
            | inr out ↦ unfold map_shared copy_to_shared in rw out refl
          ];
        })
        (λ here more same. record {
          same_reads =
              map_shared-SameReads i 1 h.memory
                (λ j own. let e : j ≡ i = ground arith in rw e same);
          same_others = SameOthers-memory _ (remap_page-SameOthers h sound i);
          kept_file = λ r j lt ne e. unfold map_shared in refl;
        })

  -- The page is shared, and the others are as they were.
  shares_here :
      (h' : Pages) (m : Memory)
      → Agrees h
      → is_private h i ≡ true
      → Marks (λ j. j == i) nowhere h h'
      → Agrees
          (record h' { memory = map_shared i 1 (record h.memory { shared_file = m.shared_file }) })
  unfolding map_shared
  shares_here h' m agrees private marks j = elim (Bool-cases (in_run i 1 j)) [
    | inl here ↦
        let e : j ≡ i = ground arith in
        PageState-cast (rw here refl) (marks.marks_initialized j ∙ rw e (ground arith))
          (marks.marks_zero j ∙ rw e (ground arith)) (marks.marks_shared j ∙ rw e (ground arith))
          as_shared
    | inr out ↦
        PageState-cast (rw out refl) (marks.marks_initialized j)
          (ground (arith, marks.marks_zero j)) (ground (arith, marks.marks_shared j)) (agrees j)
  ]

  pub merge_pages-Agrees : Agrees h → Agrees (merge_pages i h).0
  unfolding copy_to_shared
  merge_pages-Agrees agrees =
      merge_pages_cases i h sound written not_zero (λ r. Agrees r) agrees
        (λ here alone.
          shares_here _ (copy_to_shared i 1 h.memory) agrees here
            (copy_page-SharesPage.marks i h (sound.known, sound.fits)))
        (λ here more same.
          shares_here _ h.memory agrees here
            (remap_page-SharesPage.marks i h (sound.known, sound.fits)))

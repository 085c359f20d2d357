-- ===== src/Contents/BufferedReads.antt =====
-- SharedHeap.cpp: `MergeByBUFFERED`, where no page is mapped to the zero page.
use sbllmalloc.Shared.{
  ℕ, ◌<◌, ◌≡◌, ◌≢◌, refl, arith, true, false, List, [], ◌∷◌, some, Bool-cases, inl, inr,
}
use sbllmalloc.Metadata.Address.{Space, page_of}
use sbllmalloc.Pages.Memory.{unmapped, shared_page, in_run, map_shared, copy_to_shared}
use sbllmalloc.Pages.State.{Pages}
use sbllmalloc.Pages.Account.{IsSound, is_initialized, is_zero}
use sbllmalloc.Merge.Marks.{copy_page-SharesPage, remap_page-SharesPage}
use sbllmalloc.Merge.Single.{merge_pages, merge_pages_cases, merge_pages-IsSound}
use sbllmalloc.Merge.Policies.{gets_shared_page, merge_by_buffered}
use sbllmalloc.Merge.Remaps.{System}
use sbllmalloc.Merge.ZeroLaws.{AllBuffered}
use sbllmalloc.Regions.FreeLaws.{addr_to_page_index-some}
use sbllmalloc.Contents.Reads.{Transparent, Transparent-refl, Transparent-trans}
use sbllmalloc.Contents.PageStates.{Agrees, StillMapped}
use sbllmalloc.Contents.SingleStates.{merge_pages-Transparent, merge_pages-Agrees}

abbrev pub NoZero : Pages → Type 0
NoZero h = (j : ℕ) → is_zero h j ≡ false

abbrev pub AllInside : Space → List ℕ → Type 0
AllInside s [] = Unit {0}
AllInside s (t ∷ rest) = (s.bottom < t) × (t < s.top) × AllInside s rest

shared_not_unmapped : shared_page ≢ unmapped
shared_not_unmapped e = absurd (cc)

module _ (i : ℕ) (h : Pages) (sound : IsSound h) (written : is_initialized h i ≡ true)
    (no_zero : NoZero h) where
  merge_pages-NoZero : NoZero (merge_pages i h).0
  merge_pages-NoZero =
      merge_pages_cases i h sound written (no_zero i) (λ r. NoZero r) no_zero
        (λ here alone j. ground (
          arith,
          (copy_page-SharesPage.marks i h (sound.known, sound.fits)).marks_zero j,
          no_zero j,
        ))
        (λ here more same j. ground (
          arith,
          (remap_page-SharesPage.marks i h (sound.known, sound.fits)).marks_zero j,
          no_zero j,
        ))

  merge_pages-StillMapped : StillMapped h (merge_pages i h).0
  unfolding map_shared copy_to_shared
  merge_pages-StillMapped =
      merge_pages_cases i h sound written (no_zero i) (StillMapped h) (λ j mapped. mapped)
        (λ here alone j mapped. elim (Bool-cases (in_run i 1 j)) [
          | inl own ↦ rw own shared_not_unmapped
          | inr out ↦ rw out mapped
        ])
        (λ here more same j mapped. elim (Bool-cases (in_run i 1 j)) [
          | inl own ↦ rw own shared_not_unmapped
          | inr out ↦ rw out mapped
        ])

pub merge_by_buffered-Transparent :
    (os : System) (space : Space)
    → AllBuffered os
    → (buffer : List ℕ) (h : Pages) → AllInside space buffer
    → IsSound h
    → NoZero h
    → Agrees h
    → (h' : Pages) × (merge_by_buffered os space buffer h ≡ some h')
      × IsSound h'
      × NoZero h'
      × Agrees h'
      × StillMapped h h'
      × Transparent h h'
unfolding merge_by_buffered gets_shared_page
merge_by_buffered-Transparent os space all [] h inside sound no_zero agrees =
    (h, refl, sound, no_zero, agrees, λ j mapped. mapped, Transparent-refl h)
merge_by_buffered-Transparent os space all (t ∷ rest) h inside sound no_zero agrees =
    let i = page_of space t in
    let maps : gets_shared_page os space i h ≡ true = ground (arith, all i) in
    let index = addr_to_page_index-some space t inside.0 inside.1 in
    elim (Bool-cases (is_initialized h i)) [
      | inr fresh ↦
          let (h', e, sound', no_zero', agrees', still, reads) =
            merge_by_buffered-Transparent os space all rest h inside.2 sound no_zero agrees in
          (h', rw (merge_by_buffered, index, fresh) e, sound', no_zero', agrees', still, reads)
      | inl written ↦
          let h1 = (merge_pages i h).0 in
          let sound1 = merge_pages-IsSound i h sound written (no_zero i) in
          let (h', e, sound', no_zero', agrees', still, reads) =
            merge_by_buffered-Transparent os space all rest h1 inside.2 sound1
              (merge_pages-NoZero i h sound written no_zero)
              (merge_pages-Agrees i h sound written (no_zero i) agrees) in
          (
            h',
            rw (merge_by_buffered, index, written, maps) e,
            sound',
            no_zero',
            agrees',
            λ j mapped. still j (merge_pages-StillMapped i h sound written no_zero j mapped),
            Transparent-trans (merge_pages-Transparent i h sound written (no_zero i)) reads,
          )
    ]

-- ===== src/Contents/MappedPages.antt =====
-- SharedHeap.cpp: no page that is mapped is left unmapped by `MergeManyPages`.
use sbllmalloc.Shared.{
  ◌≤◌, ◌+◌, ℕ, ◌-◌, ◌*◌, ◌≡◌, ◌≢◌, some, ltb, Bool-cases, inl, inr, if◌then◌else◌,
}
use sbllmalloc.Metadata.Bitmap.{set_bit, set_multi_bits}
use sbllmalloc.Pages.Memory.{unmapped, shared_page, zero_page, in_run, map_shared, copy_to_shared}
use sbllmalloc.Metadata.Address.{heap_pages}
use sbllmalloc.Pages.State.{Pages}
use sbllmalloc.Pages.Account.{IsSound}
use sbllmalloc.Merge.Remaps.{System, remap_region, copy_and_remap_region, remap_to_zero}
use sbllmalloc.Merge.Many.{Outstanding, remap_run, flush, merge_many_pages}
use sbllmalloc.Merge.ZeroLaws.{AllBuffered, AllMapped, zero_loop_cases}
use sbllmalloc.Merge.ManyLaws.Waits.{Waits, nothing, shareable, moveable, zeros}
use sbllmalloc.Contents.PageStates.{StillMapped}
use sbllmalloc.Contents.MergeStates.{merge_many_pages-keeps}

pub shared_not_unmapped : shared_page ≢ unmapped
shared_not_unmapped e = absurd (cc)

zero_not_unmapped : zero_page ≢ unmapped
zero_not_unmapped e = absurd (cc)

module _ (os : System) (start n : ℕ) (h : Pages) where
  remap_region-StillMapped : StillMapped h (remap_region os start n h)
  unfolding remap_region map_shared
  remap_region-StillMapped j mapped = elim (Bool-cases (os.get_shared_region start n)) [
    | inr failed ↦ rw failed mapped
    | inl done ↦ elim (Bool-cases (in_run start n j)) [
      | inl here ↦ rw (done, here) shared_not_unmapped
      | inr out ↦ rw (done, out) mapped
    ]
  ]

  copy_and_remap_region-StillMapped : StillMapped h (copy_and_remap_region os start n h)
  unfolding copy_and_remap_region map_shared copy_to_shared
  copy_and_remap_region-StillMapped j mapped = elim (Bool-cases (os.get_shared_region start n)) [
    | inr failed ↦ rw failed mapped
    | inl done ↦ elim (Bool-cases (in_run start n j)) [
      | inl here ↦ rw (done, here) shared_not_unmapped
      | inr out ↦ rw (done, out) mapped
    ]
  ]

  remap_to_zero-StillMapped : AllMapped os → StillMapped h (remap_to_zero os start n h)
  unfolding remap_to_zero
  remap_to_zero-StillMapped all_mapped =
      zero_loop_cases
        (λ h' done. StillMapped h (
          if done
          then record h' {
            zero_pages_bv =
                if ltb 1 n
                then set_multi_bits 12 h'.zero_pages_bv start (n * 4096)
                else set_bit h'.zero_pages_bv start;
          }
          else h'))
        os.maps_zero_page n start h
        (λ c d mem done zeroed counted all j mapped.
          rw (all all_mapped) (elim (Bool-cases (in_run start n j)) [
            | inl here ↦ rw (zeroed.inside (all all_mapped) j here) zero_not_unmapped
            | inr out ↦ rw (zeroed.elsewhere j out) mapped
          ]))

flush-StillMapped :
    (os : System) (first : Pages)
    → AllMapped os
    → (p : ℕ) (m : Outstanding) → Waits os first p m
    → StillMapped first m.pages
    → StillMapped first (flush os p m).pages
unfolding flush remap_run
flush-StillMapped os first all p _ (nothing h n keeps) still = still
flush-StillMapped os first all p _ (shareable h n s keeps lt run many) still =
    λ j mapped. remap_region-StillMapped os s (p - s) h j (still j mapped)
flush-StillMapped os first all p _ (moveable h n s keeps lt run alone) still =
    λ j mapped. copy_and_remap_region-StillMapped os s (p - s) h j (still j mapped)
flush-StillMapped os first all p _ (zeros h n s keeps lt run small) still =
    λ j mapped. remap_to_zero-StillMapped os s (p - s) h all j (still j mapped)

pub merge_many_pages-StillMapped :
    (os : System) (start n : ℕ) (h : Pages)
    → IsSound h
    → AllBuffered os
    → start + n ≤ heap_pages
    → AllMapped os
    → (h' : Pages) × (merged : ℕ) × (merge_many_pages os start n h ≡ some (h', merged))
      × StillMapped h h'
merge_many_pages-StillMapped os start n h sound buffered top all =
    merge_many_pages-keeps os h (StillMapped h) buffered
      (λ p m w still. flush-StillMapped os h all p m w still) start n sound top (λ j mapped. mapped)

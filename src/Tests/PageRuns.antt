-- ===== src/Tests/PageRuns.antt =====
-- Runs of the page metadata, of the signal handler's step and of a merge.
use sbllmalloc.Shared.{
  false, ◌+◌, ℕ, ◌/◌, ◌^◌, ◌≡◌, refl, arith, true, not, some, ◌==◌, if◌then◌else◌,
}
use sbllmalloc.Metadata.Address.{heap_pages}
use sbllmalloc.Metadata.Sharing.{
  Table, set_sharing_bit, get_sharing_bit, is_other_sharing, count_sharing_procs,
}
use sbllmalloc.Metadata.Bitmap.{
  get_bit, set_bit, set_multi_bits, set_and_return_bit, reset_and_return_bit,
}
use sbllmalloc.Metadata.BitmapLaws.{in_range, get_bit-set_multi_bits}
use sbllmalloc.Pages.State.{Pages}
use sbllmalloc.Pages.Account.{is_zero, Conserves, is_private}
use sbllmalloc.Merge.Remaps.{System, remap_to_zero}
use sbllmalloc.Merge.Many.{merge_many_pages}
use sbllmalloc.Merge.ManyLaws.{
  merge_many_pages-Conserves, merge_many_pages-Marks, merge_many_pages-eq-freed,
}
use sbllmalloc.Merge.ManyLaws.Tally.{freed}
use sbllmalloc.Merge.ManyLaws.Progress.{to_zero, to_share}
use sbllmalloc.Merge.Marks.{Marks}
use sbllmalloc.Merge.ZeroFailure.{faulted, remap_to_zero-handle_fault}
use sbllmalloc.Merge.ZeroMapped.{zero_frame}
use sbllmalloc.Merge.Single.{merge_pages}
use sbllmalloc.Bits.{count_loop, complement}
use sbllmalloc.Pages.Memory.{make_writable, map_shared, same_content, same_bytes, backing_bytes}
use sbllmalloc.Pages.Steps.{fault_page, handle_fault, change_mapping, copy_page, remap_page}
use sbllmalloc.Merge.History.{MergeHistory, history_loop}
use sbllmalloc.Merge.HistoryLaws.{history_loop-ends}
use sbllmalloc.Tests.Samples.{pages, pages-IsSound, system}

abbrev empty : Table
empty i = 0

get_bit-set_multi_bits_example :
    get_bit (set_multi_bits 12 empty 3 0xb000) 11
    ≡ (if in_range 3 (0xb000 / 2 ^ 12) 11 then true else get_bit empty 11)
get_bit-set_multi_bits_example =
    get_bit-set_multi_bits 12 empty 3 0xb000 11 (λ i. omega arith) (omega arith)

merge_many_pages-Conserves_example :
    (h' : Pages) × (merged : ℕ) × (merge_many_pages system 1 5 pages ≡ some (h', merged))
    × Conserves heap_pages pages h'
merge_many_pages-Conserves_example =
    merge_many_pages-Conserves system 1 5 heap_pages pages pages-IsSound (λ j. refl) (omega arith)
      (λ j. refl) (omega arith)

-- The second page of three is refused.
abbrev refusing : System
refusing = record {
  get_shared_region = λ i n. true;
  maps_zero_page = λ i. not (i == 6);
  maps_buffer = λ i. true;
}

page_five_private : is_private pages 5 ≡ true
unfolding handle_fault fault_page merge_pages set_and_return_bit reset_and_return_bit get_bit
    set_bit get_sharing_bit is_other_sharing count_sharing_procs count_loop same_content same_bytes
    backing_bytes map_shared remap_page copy_page complement change_mapping make_writable
    set_sharing_bit
page_five_private = refl

-- The pages 5 and 6 are zeroed, of which the second is refused.
remap_to_zero-handle_fault_example :
    ((faulted 3 5 (remap_to_zero refusing 5 2 pages)).memory.frames 5 ≡ zero_frame)
    × (is_zero (faulted 3 5 (remap_to_zero refusing 5 2 pages)) 5 ≡ false)
remap_to_zero-handle_fault_example =
    remap_to_zero-handle_fault refusing 5 2 1 pages (omega arith) (λ j low high. ground arith) refl
      3 5 pages-IsSound page_five_private (omega arith) (omega arith)

history_loop-ends_example : history_loop (8 + 2) 0xa1 80000 80000 ≡ history_loop 8 0xa1 80000 80000
history_loop-ends_example = history_loop-ends 0xa1 2 80000 80000 (omega arith)

abbrev history : MergeHistory
history = record { merge_succ_hist = λ i. 0x80; last_merge_time = λ i. 1000 }

merge_many_pages-Marks_example :
    (h' : Pages) × (merged : ℕ) × (merge_many_pages system 1 5 pages ≡ some (h', merged))
    × Marks (to_share pages 1 6) (to_zero pages 1 6) pages h'
merge_many_pages-Marks_example =
    merge_many_pages-Marks system 1 5 pages pages-IsSound (λ j. refl) (omega arith) (λ j. refl)
      (λ s n. refl)

merge_many_pages-eq-freed_example :
    (h' : Pages) × (merge_many_pages system 1 5 pages ≡ some (h', freed pages 1 5))
merge_many_pages-eq-freed_example =
    merge_many_pages-eq-freed system 1 5 pages pages-IsSound (λ j. refl) (omega arith)

-- ===== src/Tests/ContentsRuns.antt =====
-- Runs of what the processes read: of a merge, of a process that writes, and of two that merge a page.
use sbllmalloc.Shared.{ℕ, ◌≡◌, refl, arith, true, some, ◌==◌, if◌then◌else◌}
use sbllmalloc.Metadata.Bitmap.{get_bit, set_bit, set_and_return_bit}
use sbllmalloc.Pages.Memory.{Bytes, anonymous, page_bytes, map_private, make_writable}
use sbllmalloc.Pages.State.{Pages}
use sbllmalloc.Pages.Steps.{fault_page, change_mapping, handle_fault}
use sbllmalloc.Pages.Account.{IsSound, is_private}
use sbllmalloc.Merge.Many.{merge_many_pages}
use sbllmalloc.Nodes.State.{view, store, create, join, allocate_shared_metadata}
use sbllmalloc.Nodes.Safety.{Reach-Accounted}
use sbllmalloc.Contents.Reads.{Transparent}
use sbllmalloc.Contents.PageStates.{Agrees}
use sbllmalloc.Contents.FaultStates.{handle_fault-frame}
use sbllmalloc.Contents.MergeReads.{merge_many_pages-Transparent}
use sbllmalloc.Contents.ActStates.{expected_reads}
use sbllmalloc.Contents.Isolation.{Reach-Agrees, writable_is_private, reads_expected}
use sbllmalloc.Tests.Samples.{pages, pages-IsSound, system}
use sbllmalloc.Tests.NodeRuns.{
  one_wrote, one_wrote-Reach, alive_one_wrote, one_merged, one_merged-Reach, second_alive,
  both_merged, both_merged-Reach, alive_both_merged, merge_at, merge_at-Acts,
}

merge_many_pages-Transparent_example :
    (h' : Pages) × (merged : ℕ) × (merge_many_pages system 1 5 pages ≡ some (h', merged))
    × IsSound h'
    × Transparent pages h'
merge_many_pages-Transparent_example =
    merge_many_pages-Transparent system 1 5 pages pages-IsSound (λ j. refl) (omega arith)

-- Process 1 merges page 5, which process 0 has merged before.
reads_expected_example : page_bytes (view both_merged 0).memory 5 7 ≡ (
    if 0 == 1
    then expected_reads
        (merge_at-Acts 1 one_merged one_merged-Reach second_alive)
        (page_bytes (view one_merged 1).memory)
        5
        7
    else page_bytes (view one_merged 0).memory 5 7)
reads_expected_example =
    reads_expected one_merged 1 (merge_at 1 one_merged one_merged-Reach second_alive) 0 5 7
      one_merged-Reach second_alive (merge_at-Acts 1 one_merged one_merged-Reach second_alive)
      (omega (arith, second_alive)) (omega arith)

Reach-Agrees_example : Agrees (view both_merged 1)
Reach-Agrees_example = Reach-Agrees both_merged both_merged-Reach 1 alive_both_merged

writable_is_private_example :
    (bytes : Bytes) × (((view one_wrote 0).memory.frames 5).backing ≡ anonymous bytes)
    × (is_private (view one_wrote 0) 5 ≡ true)
unfolding view store create join allocate_shared_metadata map_private handle_fault fault_page
    change_mapping make_writable set_and_return_bit get_bit set_bit
writable_is_private_example =
    writable_is_private one_wrote 0 5 one_wrote-Reach (omega (arith, alive_one_wrote)) refl

handle_fault-frame_example :
    (handle_fault 5 (view one_wrote 0)).memory.frames 5
    ≡ record { backing = anonymous (page_bytes (view one_wrote 0).memory 5); writable = true }
unfolding view store create join allocate_shared_metadata map_private handle_fault fault_page
    change_mapping make_writable set_and_return_bit get_bit set_bit
handle_fault-frame_example =
    handle_fault-frame (view one_wrote 0) 5
      ((Reach-Accounted one_wrote one_wrote-Reach).all_sound 0 (omega (arith, alive_one_wrote)))
      (Reach-Agrees one_wrote one_wrote-Reach 0 (omega (arith, alive_one_wrote))) (λ e. absurd (cc))

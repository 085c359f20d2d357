-- ===== src/Tests/NodeRuns.antt =====
-- Runs of the processes of a node: two that write a page and merge it, and three of which two leave.
use mathlib.Core.Option
use mathlib.Core.Path.{subst}
use sbllmalloc.Shared.{ℕ, ◌+◌, ◌-◌, ◌*◌, ◌%◌, ◌^◌, ◌≤◌, ◌<◌, ◌≡◌, ◌≢◌, refl, arith, some, true}
use sbllmalloc.Metadata.Sharing.{eight, count_sharing_procs}
use sbllmalloc.Metadata.OwnView.{to_count}
use sbllmalloc.Pages.Memory.{unmapped, map_private}
use sbllmalloc.Pages.State.{Pages}
use sbllmalloc.Pages.Steps.{handle_fault}
use sbllmalloc.Pages.Account.{is_shared, int_range}
use sbllmalloc.Merge.ManyLaws.{merge_many_pages-Keeps}
use sbllmalloc.Nodes.State.{
  Node, view, store, create, join, allocate_shared_metadata, clean_up_shared_data,
  shared_fault_asserts,
}
use sbllmalloc.Nodes.Steps.{Acts, fault, merge, map_region, Reach, created, joined, acted}
use sbllmalloc.Nodes.Invariant.{
  Accounted, over_processes, private_here, written_here, once_shared, more_shared,
}
use sbllmalloc.Nodes.Safety.{Reach-Accounted}
use sbllmalloc.Nodes.Sharers.{count_sharing_procs-eq-sum_below, shared_fault_asserts_holds}
use sbllmalloc.Nodes.Savings.{counters_exact, frames_le_base_case}
use sbllmalloc.Nodes.Leaving.{allocate_shared_metadata-clean_up_shared_data}
use sbllmalloc.Statistics.Log.{usage}
use sbllmalloc.Statistics.UsageLaws.{usage_shows}
use sbllmalloc.Pages.Sums.{sum_below}
use sbllmalloc.Tests.Samples.{system}

-- Both processes write page 5, and then each merges it.
abbrev pub two_processes : Node
two_processes = join (create eight)

pub two_processes-Reach : Reach two_processes
two_processes-Reach =
    joined _ (created eight) (unfold create allocate_shared_metadata in omega arith)

abbrev pub mapped_at : ℕ → Node → Node
mapped_at rank node =
    store node rank (record (view node rank) { memory = map_private 5 1 (view node rank).memory })

abbrev pub fault_at : ℕ → Node → Node
fault_at rank node =
    store (mapped_at rank node) rank (handle_fault 5 (view (mapped_at rank node) rank))

-- A page that the process maps and then writes for the first time.
fault_at-Reach :
    (rank : ℕ) (node : Node)
    → Reach node
    → rank < node.shared.alive_procs
    → (((view node rank).memory.frames 5).backing ≡ unmapped)
    → (((view (mapped_at rank node) rank).memory.frames 5).backing ≢ unmapped)
    → Reach (fault_at rank node)
fault_at-Reach rank node reached alive free_there mapped =
    acted (mapped_at rank node) rank _
      (acted node rank _ reached alive (
        map_region (view node rank) 5 1 (λ j here.
          let e : 5 ≡ j = ground arith in
          subst (λ i. ((view node rank).memory.frames i).backing ≡ unmapped) e free_there)))
      (unfold store in alive) (fault _ 5 (omega arith) mapped)

alive_two : two_processes.shared.alive_procs ≡ 2
unfolding create join allocate_shared_metadata
alive_two = refl

abbrev pub one_wrote : Node
one_wrote = fault_at 0 two_processes

pub one_wrote-Reach : Reach one_wrote
unfolding view store create join allocate_shared_metadata map_private
one_wrote-Reach =
    fault_at-Reach 0 two_processes two_processes-Reach (omega (arith, alive_two)) refl
      (λ e. absurd (cc))

pub alive_one_wrote : one_wrote.shared.alive_procs ≡ 2
unfolding create join allocate_shared_metadata store
alive_one_wrote = refl

abbrev pub both_wrote : Node
both_wrote = fault_at 1 one_wrote

pub both_wrote-Reach : Reach both_wrote
unfolding view store create join allocate_shared_metadata map_private handle_fault
both_wrote-Reach =
    fault_at-Reach 1 one_wrote one_wrote-Reach (omega (arith, alive_one_wrote)) refl
      (λ e. absurd (cc))

alive_both_wrote : both_wrote.shared.alive_procs ≡ 2
unfolding create join allocate_shared_metadata store
alive_both_wrote = refl

-- Process 0 merges the page, then process 1.
abbrev pub merge_at : (rank : ℕ) (node : Node) → Reach node → rank < node.shared.alive_procs → Pages
merge_at rank node reached alive =
    (merge_many_pages-Keeps system 5 1 (view node rank)
      ((Reach-Accounted node reached).all_sound rank alive) (λ j. refl) (omega arith)).0

pub merge_at-Acts :
    (rank : ℕ) (node : Node) (reached : Reach node) (alive : rank < node.shared.alive_procs)
    → Acts (view node rank) (merge_at rank node reached alive)
merge_at-Acts rank node reached alive =
    let (h', merged, e, keeps) =
      merge_many_pages-Keeps system 5 1 (view node rank)
        ((Reach-Accounted node reached).all_sound rank alive) (λ j. refl) (omega arith) in
    merge system (view node rank) h' 5 1 merged (λ j. refl) (omega arith) e

pub first_alive : 0 < both_wrote.shared.alive_procs
first_alive = omega (arith, alive_both_wrote)

abbrev pub one_merged : Node
one_merged = store both_wrote 0 (merge_at 0 both_wrote both_wrote-Reach first_alive)

pub one_merged-Reach : Reach one_merged
one_merged-Reach =
    acted both_wrote 0 _ both_wrote-Reach first_alive
      (merge_at-Acts 0 both_wrote both_wrote-Reach first_alive)

pub second_alive : 1 < one_merged.shared.alive_procs
unfolding create join allocate_shared_metadata store
second_alive = omega arith

abbrev pub both_merged : Node
both_merged = store one_merged 1 (merge_at 1 one_merged one_merged-Reach second_alive)

pub both_merged-Reach : Reach both_merged
both_merged-Reach =
    acted one_merged 1 _ one_merged-Reach second_alive
      (merge_at-Acts 1 one_merged one_merged-Reach second_alive)

pub alive_both_merged : 1 < both_merged.shared.alive_procs
unfolding create join allocate_shared_metadata store
alive_both_merged = omega arith

Reach-Accounted_example : Accounted both_merged
Reach-Accounted_example = Reach-Accounted both_merged both_merged-Reach

count_sharing_procs-eq-sum_below_example :
    count_sharing_procs both_merged.shared.sharing_processes_info 5
    ≡ sum_below both_merged.shared.alive_procs
        (λ rank. to_count (is_shared (view both_merged rank) 5))
count_sharing_procs-eq-sum_below_example =
    count_sharing_procs-eq-sum_below both_merged 5 both_merged-Reach

shared_fault_asserts_holds_example : shared_fault_asserts (view both_merged 1) 5 ≡ true
shared_fault_asserts_holds_example =
    shared_fault_asserts_holds both_merged 1 5 both_merged-Reach alive_both_merged

counters_exact_example :
    (both_merged.shared.all_proc_private_page_count % int_range
      ≡ 192 + over_processes private_here both_merged + once_shared both_merged)
    × (both_merged.shared.shared_page_count % int_range ≡ 1 + more_shared both_merged)
    × (both_merged.shared.base_case_total_page_count % int_range
        ≡ over_processes written_here both_merged)
counters_exact_example = counters_exact both_merged both_merged-Reach

frames_le_base_case_example :
    (both_merged.shared.all_proc_private_page_count % int_range
        + both_merged.shared.shared_page_count % int_range
      ≤ 193 + both_merged.shared.base_case_total_page_count % int_range)
    × (193 + both_merged.shared.base_case_total_page_count % int_range < 2 ^ 31)
frames_le_base_case_example = frames_le_base_case both_merged both_merged-Reach

allocate_shared_metadata-clean_up_shared_data_example :
    Option.map
      (λ left. allocate_shared_metadata (some left))
      (clean_up_shared_data two_processes.shared)
    ≡ some (two_processes.shared, two_processes.shared.alive_procs - 1)
allocate_shared_metadata-clean_up_shared_data_example =
    allocate_shared_metadata-clean_up_shared_data two_processes.shared (omega (arith, alive_two))
      (omega (arith, alive_two))

usage_shows_example :
    let u = usage 0x100000 (view both_merged 1) in
    let ptmalloc = 0x100000 * both_merged.shared.alive_procs in
    (u.total_unmerged_mem ≡ ptmalloc + over_processes written_here both_merged * 4096)
    × (u.total_merged_mem
        ≡ ptmalloc
          + (193
              + over_processes private_here both_merged
              + once_shared both_merged
              + more_shared both_merged)
            * 4096)
    × (u.total_merged_mem ≤ u.total_unmerged_mem + 193 * 4096)
usage_shows_example = usage_shows both_merged 1 0x100000 both_merged-Reach (omega arith)

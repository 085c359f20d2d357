-- ===== src/Nodes/Invariant.antt =====
-- SharedHeap.cpp: what the three shared counters count on a node, over its processes.
use sbllmalloc.Shared.{ℕ, ◌+◌, ◌%◌, ◌≤◌, ◌<◌, ◌≡◌, ltb, ◌==◌}
use sbllmalloc.Metadata.Address.{heap_pages}
use sbllmalloc.Metadata.Sharing.{bits, count_sharing_procs}
use sbllmalloc.Metadata.SharingLaws.{sharer}
use sbllmalloc.Metadata.OwnView.{to_count}
use sbllmalloc.Pages.Account.{IsSound, is_initialized, is_private, int_range}
use sbllmalloc.Pages.Sums.{sum_below}
use sbllmalloc.Nodes.State.{Node, view}

-- The sum over the pages of all processes that are alive.
unfoldable pub over_processes : (Node → ℕ → ℕ → ℕ) → Node → ℕ
over_processes f node =
    sum_below node.shared.alive_procs (λ rank. sum_below heap_pages (f node rank))

abbrev pub private_here : Node → ℕ → ℕ → ℕ
private_here node rank i = to_count (is_private (view node rank) i)

abbrev pub written_here : Node → ℕ → ℕ → ℕ
written_here node rank i = to_count (is_initialized (view node rank) i)

-- The frames of the shared file that one process has, and those that more have.
unfoldable pub once_shared : Node → ℕ
once_shared node =
    sum_below heap_pages
      (λ i. to_count (count_sharing_procs node.shared.sharing_processes_info i == 1))

unfoldable pub more_shared : Node → ℕ
more_shared node =
    sum_below heap_pages
      (λ i. to_count (ltb 1 (count_sharing_procs node.shared.sharing_processes_info i)))

-- The counters are an `int` each. They start at 192 and 1, for the metadata and the zero page.
pub record Accounted (node : Node) : Type 0 where
  pub enough_bits : node.shared.alive_procs ≤ bits node.num_proc
  pub some_process : 0 < node.shared.alive_procs
  pub all_sound : (rank : ℕ) → rank < node.shared.alive_procs → IsSound (view node rank)
  pub nobody_else :
      (rank i : ℕ)
      → node.shared.alive_procs ≤ rank
      → rank < bits node.num_proc
      → sharer node.shared.sharing_processes_info rank i ≡ 0
  pub private_counted :
      node.shared.all_proc_private_page_count % int_range
      ≡ (192 + over_processes private_here node + once_shared node) % int_range
  pub shared_counted :
      node.shared.shared_page_count % int_range ≡ (1 + more_shared node) % int_range
  pub base_counted :
      node.shared.base_case_total_page_count % int_range
      ≡ over_processes written_here node % int_range

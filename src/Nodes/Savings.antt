-- ===== src/Nodes/Savings.antt =====
-- SharedHeap.cpp: the written pages of all processes against the frames that back them.
use sbllmalloc.Shared.{ℕ, ◌+◌, ◌*◌, ◌%◌, ◌^◌, ◌≤◌, ◌<◌, ◌≡◌, refl, arith, ltb, ◌==◌}
use sbllmalloc.Metadata.Address.{heap_pages}
use sbllmalloc.Metadata.Sharing.{count_sharing_procs}
use sbllmalloc.Metadata.OwnView.{to_count}
use sbllmalloc.Pages.Account.{IsSound, is_zero, is_shared, int_range}
use sbllmalloc.Nodes.State.{Node, view}
use sbllmalloc.Nodes.Steps.{Reach}
use sbllmalloc.Nodes.Invariant.{
  over_processes, private_here, written_here, once_shared, more_shared, Accounted,
}
use sbllmalloc.Nodes.CreateLaws.{bits_le}
use sbllmalloc.Nodes.Safety.{Reach-Accounted}
use sbllmalloc.Pages.Sums.{
  sum_below, sum_below-same, sum_below-plus, sum_below-swap, sum_below-ordered, sum_below-times,
}
use sbllmalloc.Nodes.Sharers.{count_sharing_procs-eq-sum_below}

abbrev pub zero_here : Node → ℕ → ℕ → ℕ
zero_here node rank i = to_count (is_zero (view node rank) i)

abbrev pub shared_here : Node → ℕ → ℕ → ℕ
shared_here node rank i = to_count (is_shared (view node rank) i)

-- The uses of frames of the shared file
unfoldable pub shared_uses : Node → ℕ
shared_uses node =
    sum_below heap_pages (λ i. count_sharing_procs node.shared.sharing_processes_info i)

-- A written page is of one of three kinds.
kinds :
    (node : Node) (rank i : ℕ)
    → IsSound (view node rank)
    → written_here node rank i
      ≡ private_here node rank i + zero_here node rank i + shared_here node rank i
kinds node rank i sound =
    ground (arith, sound.zero_initialized i, sound.shared_initialized i, sound.exclusive i)

row_kinds :
    (node : Node) (rank : ℕ)
    → IsSound (view node rank)
    → sum_below heap_pages (written_here node rank)
      ≡ sum_below heap_pages (private_here node rank)
        + sum_below heap_pages (zero_here node rank)
        + sum_below heap_pages (shared_here node rank)
row_kinds node rank sound =
    let both = λ (i : ℕ). private_here node rank i + zero_here node rank i in
    omega (
      arith,
      sum_below-plus heap_pages (written_here node rank) both (shared_here node rank)
          (λ i. kinds node rank i sound),
      sum_below-plus heap_pages both (private_here node rank) (zero_here node rank) (λ i. refl),
    )

pub written_eq_kinds :
    (node : Node)
    → Reach node
    → over_processes written_here node
      ≡ over_processes private_here node + over_processes zero_here node + shared_uses node
unfolding over_processes shared_uses
written_eq_kinds node reached =
    let acc = Reach-Accounted node reached in
    let n = node.shared.alive_procs in
    let row = λ (f : Node → ℕ → ℕ → ℕ) (r : ℕ). sum_below heap_pages (f node r) in
    let two = λ (r : ℕ). row private_here r + row zero_here r in
    omega (
      arith,
      sum_below-same n (λ r. two r + row shared_here r) (row written_here)
          (λ r lt. row_kinds node r (acc.all_sound r lt)),
      sum_below-plus n (λ r. two r + row shared_here r) two (row shared_here) (λ r. refl),
      sum_below-plus n two (row private_here) (row zero_here) (λ r. refl),
      sum_below-swap n heap_pages (shared_here node),
      sum_below-same heap_pages (λ i. sum_below n (λ r. shared_here node r i)) _
          (λ i lt. count_sharing_procs-eq-sum_below node i reached),
    )

shared_frames-le : (node : Node) → once_shared node + more_shared node ≤ shared_uses node
unfolding once_shared more_shared shared_uses
shared_frames-le node =
    let k = λ (i : ℕ). count_sharing_procs node.shared.sharing_processes_info i in
    let one = λ (i : ℕ). to_count (k i == 1) in
    let more = λ (i : ℕ). to_count (ltb 1 (k i)) in
    omega (
      arith,
      sum_below-plus heap_pages (λ i. one i + more i) one more (λ i. refl),
      sum_below-ordered heap_pages (λ i. one i + more i) k (λ i. ground arith),
    )

-- The sums are far below the range of an `int`.
over_processes-le :
    (node : Node) (f : Node → ℕ → ℕ → ℕ)
    → Accounted node
    → ((r i : ℕ) → f node r i ≤ 1)
    → over_processes f node ≤ 16 * heap_pages
unfolding over_processes
over_processes-le node f acc small = omega (
  arith,
  sum_below-times node.shared.alive_procs heap_pages (λ r. sum_below heap_pages (f node r))
      (λ r. omega (arith, sum_below-times heap_pages 1 (f node r) (small r))),
  acc.enough_bits,
  bits_le node.num_proc,
)

-- On every reachable node the shared counters do not wrap: the private one is 192, the written
-- pages with a frame of their own over all processes, and the shared frames with one user; the
-- shared one is 1 and the shared frames with more users; the base case is the number of written
-- pages over all processes.
pub counters_exact :
    (node : Node)
    → Reach node
    → (node.shared.all_proc_private_page_count % int_range
        ≡ 192 + over_processes private_here node + once_shared node)
      × (node.shared.shared_page_count % int_range ≡ 1 + more_shared node)
      × (node.shared.base_case_total_page_count % int_range ≡ over_processes written_here node)
counters_exact node reached =
    let acc = Reach-Accounted node reached in
    let few = over_processes-le node written_here acc (λ r i. ground arith) in
    let split = written_eq_kinds node reached in
    let frames = shared_frames-le node in
    (
      omega (arith, acc.private_counted, few, split, frames),
      omega (arith, acc.shared_counted, few, split, frames),
      omega (arith, acc.base_counted, few),
    )

-- On every reachable node the private and the shared counter, whose sum `MergeByTHRESHOLD`
-- compares, are together at most 193 above the base case, and that bound is below 2^31.
pub frames_le_base_case :
    (node : Node)
    → Reach node
    → (node.shared.all_proc_private_page_count % int_range
          + node.shared.shared_page_count % int_range
        ≤ 193 + node.shared.base_case_total_page_count % int_range)
      × (193 + node.shared.base_case_total_page_count % int_range < 2 ^ 31)
frames_le_base_case node reached =
    let acc = Reach-Accounted node reached in
    let few = over_processes-le node written_here acc (λ r i. ground arith) in
    let (private_frames, shared_frames, base) = counters_exact node reached in
    let split = written_eq_kinds node reached in
    let frames = shared_frames-le node in
    (omega (arith, private_frames, shared_frames, base, split, frames), omega (arith, base, few))

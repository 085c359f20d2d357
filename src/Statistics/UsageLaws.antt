-- ===== src/Statistics/UsageLaws.antt =====
-- SharedHeap.cpp: the memory that `StoreMemUsageStat` shows on a node.
use sbllmalloc.Shared.{ℕ, ◌+◌, ◌*◌, ◌%◌, ◌^◌, ◌≤◌, ◌<◌, ◌≡◌, arith}
use sbllmalloc.Pages.State.{int_add}
use sbllmalloc.Nodes.State.{Node, view}
use sbllmalloc.Nodes.Steps.{Reach}
use sbllmalloc.Nodes.Invariant.{
  over_processes, private_here, written_here, once_shared, more_shared,
}
use sbllmalloc.Nodes.CreateLaws.{bits_le}
use sbllmalloc.Nodes.Safety.{Reach-Accounted}
use sbllmalloc.Nodes.Savings.{counters_exact, frames_le_base_case}
use sbllmalloc.Statistics.Log.{to_ulong, usage}

to_ulong-small : (c n : ℕ) → c % 2 ^ 32 ≡ n → n < 2 ^ 31 → to_ulong c ≡ n
unfolding to_ulong
to_ulong-small c n e small = ground (arith, e)

product_small : (m k : ℕ) → m < 2 ^ 40 → k ≤ 16 → m * k ≤ 2 ^ 44
product_small m k few some_processes =
    let most : m * k ≤ m * 16 = grind arith in omega (arith, most)

-- On every reachable node, where ptmalloc uses less than 2^40 bytes in the process:
-- `StoreMemUsageStat` shows as unmerged memory that of ptmalloc and of all written pages, as
-- merged memory that of ptmalloc, of the frames in use and of 193 pages, and the latter is at most
-- 193 pages above the former.
pub usage_shows :
    (node : Node) (rank private_mem : ℕ)
    → Reach node
    → private_mem < 2 ^ 40
    → let u = usage private_mem (view node rank) in
      let ptmalloc = private_mem * node.shared.alive_procs in
      (u.total_unmerged_mem ≡ ptmalloc + over_processes written_here node * 4096)
      × (u.total_merged_mem
          ≡ ptmalloc
            + (193 + over_processes private_here node + once_shared node + more_shared node) * 4096)
      × (u.total_merged_mem ≤ u.total_unmerged_mem + 193 * 4096)
unfolding usage view
usage_shows node rank private_mem reached few =
    let acc = Reach-Accounted node reached in
    let n = node.shared.alive_procs in
    let small : n ≤ 16 = omega (arith, acc.enough_bits, bits_le node.num_proc) in
    let alive = to_ulong-small n n (omega (arith, small)) (omega (arith, small)) in
    let product = product_small private_mem n few small in
    let (private_frames, shared_frames, base) = counters_exact node reached in
    let (le, high) = frames_le_base_case node reached in
    let written = over_processes written_here node in
    let frames = 193 + over_processes private_here node + once_shared node + more_shared node in
    let unmerged =
      to_ulong-small node.shared.base_case_total_page_count written base
        (omega (arith, base, high)) in
    let merged =
      to_ulong-small (int_add node.shared.all_proc_private_page_count node.shared.shared_page_count)
        frames (omega (arith, private_frames, shared_frames, le, high))
        (omega (arith, private_frames, shared_frames, le, high)) in
    let fewer : frames ≤ 193 + written = omega (arith, private_frames, shared_frames, base, le) in
    let room : written < 2 ^ 31 = omega (arith, base, high) in
    rw (alive, unmerged, merged)
      (
        omega (arith, product, room),
        omega (arith, product, room, fewer),
        omega (arith, product, room, fewer),
      )

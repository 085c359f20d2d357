-- ===== src/Nodes/Sharers.antt =====
-- SharedHeap.cpp: the count of `CountSharingProcs` against the views of the processes, and the assertion of
-- `SigSegvHandler` on it.
use sbllmalloc.Shared.{sym, ℕ, zero, suc, ◌+◌, ◌-◌, ◌/◌, ◌<◌, ◌≡◌, refl, ap, ◌∙◌, arith, true}
use sbllmalloc.Bits.{bit, bit-lt, ones}
use sbllmalloc.Metadata.Sharing.{bits, count_sharing_procs}
use sbllmalloc.Metadata.SharingLaws.{sharer, count_sharing_procs-eq-ones, get_sharing_bit-eq-sharer}
use sbllmalloc.Metadata.OwnView.{to_count, count_sharing_procs-unset}
use sbllmalloc.Pages.Account.{is_shared}
use sbllmalloc.Nodes.State.{Node, view, shared_fault_asserts}
use sbllmalloc.Nodes.Steps.{Reach}
use sbllmalloc.Nodes.Invariant.{Accounted}
use sbllmalloc.Pages.Sums.{sum_below, sum_below-same, sum_below-suc, sum_below-cut, sum_below-le}
use sbllmalloc.Nodes.Safety.{Reach-Accounted}

ones-eq-sum_below : (w x : ℕ) → ones w x ≡ sum_below w (λ r. bit x r)
unfolding ones bit
ones-eq-sum_below zero x = unfold sum_below in refl
ones-eq-sum_below (suc w) x =
    omega (arith, sum_below-suc w (λ r. bit x r), ones-eq-sum_below w (x / 2))

module _ (node : Node) (acc : Accounted node) (i : ℕ) where
  sharers-eq-bits :
      count_sharing_procs node.shared.sharing_processes_info i
      ≡ sum_below node.shared.alive_procs (λ r. sharer node.shared.sharing_processes_info r i)
  unfolding view
  sharers-eq-bits =
      let first = acc.all_sound 0 acc.some_process in
      let n = node.shared.alive_procs in
      let rest = bits node.num_proc - n in
      let e : bits node.num_proc ≡ n + rest = omega (arith, acc.enough_bits) in
      count_sharing_procs-eq-ones node.num_proc 0 node.shared.sharing_processes_info i first.known
        first.fits
      ∙ ones-eq-sum_below (bits node.num_proc) (node.shared.sharing_processes_info i)
      ∙ ap (λ m. sum_below m (λ r. sharer node.shared.sharing_processes_info r i)) e
      ∙ sum_below-cut rest n (λ r. sharer node.shared.sharing_processes_info r i)
          (λ r low high. acc.nobody_else r i low (omega arith))

  own_sharer :
      (r : ℕ)
      → r < node.shared.alive_procs
      → to_count (is_shared (view node r) i) ≡ sharer node.shared.sharing_processes_info r i
  unfolding view
  own_sharer r lt =
      let sound = acc.all_sound r lt in
      ground (
        arith,
        get_sharing_bit-eq-sharer node.num_proc r node.shared.sharing_processes_info i sound.known
            sound.fits,
        bit-lt (node.shared.sharing_processes_info i) r,
      )

-- On every reachable node, `CountSharingProcs` of a page is the number of processes for which
-- `GetSharingBit` of that page holds.
pub count_sharing_procs-eq-sum_below :
    (node : Node) (i : ℕ)
    → Reach node
    → count_sharing_procs node.shared.sharing_processes_info i
      ≡ sum_below node.shared.alive_procs (λ rank. to_count (is_shared (view node rank) i))
count_sharing_procs-eq-sum_below node i reached =
    let acc = Reach-Accounted node reached in
    sharers-eq-bits node acc i
    ∙ sum_below-same node.shared.alive_procs _ _ (λ r lt. sym (own_sharer node acc i r lt))

-- On every reachable node, the assertion of `SigSegvHandler` that no more processes share a page
-- than are alive holds for every process and page.
pub shared_fault_asserts_holds :
    (node : Node) (rank i : ℕ)
    → Reach node
    → rank < node.shared.alive_procs
    → shared_fault_asserts (view node rank) i ≡ true
unfolding shared_fault_asserts view
shared_fault_asserts_holds node rank i reached alive =
    let acc = Reach-Accounted node reached in
    let sound = acc.all_sound rank alive in
    ground (
      arith,
      count_sharing_procs-unset node.num_proc rank node.shared.sharing_processes_info sound.known
          sound.fits i i,
      count_sharing_procs-eq-sum_below node i reached,
      sum_below-le node.shared.alive_procs (λ q. to_count (is_shared (view node q) i))
          (λ q. ground arith),
    )

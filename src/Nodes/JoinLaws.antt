-- ===== src/Nodes/JoinLaws.antt =====
-- SharedHeap.cpp: a process that enters a node.
use mathlib.Core.Path.{subst, sym}
use native.Mathlib.Decide.{dec_lt}
use sbllmalloc.Shared.{ℕ, ◌+◌, ◌<◌, ◌≡◌, refl, ap, ◌∙◌, arith, false, true, not, ◌&&◌, ◌==◌}
use sbllmalloc.Metadata.Address.{heap_pages}
use sbllmalloc.Metadata.Sharing.{bits, get_sharing_bit}
use sbllmalloc.Metadata.Bitmap.{get_bit}
use sbllmalloc.Metadata.OwnView.{to_count}
use sbllmalloc.Pages.Account.{SoundTables, IsSound}
use sbllmalloc.Nodes.State.{
  Node, ProcessPages, view, join, with_process, new_process, allocate_shared_metadata,
}
use sbllmalloc.Pages.Sums.{sum_below-same, sum_below-zero, sum_below-grow}
use sbllmalloc.Nodes.Invariant.{
  over_processes, private_here, written_here, once_shared, more_shared, Accounted,
}
use sbllmalloc.Nodes.CreateLaws.{get_bit-empty, fresh_sound, bits_le}

-- One more row of pages.
module _ (node : Node) (acc : Accounted node)
    (room : node.shared.alive_procs < bits node.num_proc) where
  pub join_alive : (join node).shared.alive_procs ≡ node.shared.alive_procs + 1
  unfolding join allocate_shared_metadata
  join_alive = omega (arith, bits_le node.num_proc)

  join_process :
      (q : ℕ)
      → (join node).process q ≡ with_process node.process node.shared.alive_procs new_process q
  unfolding join allocate_shared_metadata
  join_process q =
      ap (λ r. with_process node.process r new_process q) (omega (arith, bits_le node.num_proc))

  pub join_old : (q : ℕ) → q < node.shared.alive_procs → (join node).process q ≡ node.process q
  join_old q lt =
      let other : (q == node.shared.alive_procs) ≡ false = ground arith in join_process q ∙ rw other

  pub join_new : (join node).process node.shared.alive_procs ≡ new_process
  join_new =
      let here : (node.shared.alive_procs == node.shared.alive_procs) ≡ true = ground arith in
      join_process node.shared.alive_procs ∙ rw here

  pub join-IsSound : (q : ℕ) → q < node.shared.alive_procs + 1 → IsSound (view (join node) q)
  unfolding view join allocate_shared_metadata
  join-IsSound q lt = elim (dec_lt q node.shared.alive_procs) [
    | yes old ↦
        subst
          (λ p.
            SoundTables node.num_proc q node.shared.sharing_processes_info p.initialized_pages_bv
              p.zero_pages_bv)
          (sym (join_old q old)) (acc.all_sound q old)
    | no new ↦
        let e : node.shared.alive_procs ≡ q = omega arith in
        subst
          (λ p.
            SoundTables node.num_proc q node.shared.sharing_processes_info p.initialized_pages_bv
              p.zero_pages_bv)
          (sym join_new ∙ ap (join node).process e)
          (fresh_sound node.num_proc q node.shared.sharing_processes_info (omega arith)
            (acc.all_sound 0 acc.some_process).fits
            (λ j. acc.nobody_else q j (omega arith) (omega arith)))
  ]

  join-over_processes :
      (f : Node → ℕ → ℕ → ℕ)
      → ((q j : ℕ) → q < node.shared.alive_procs → f (join node) q j ≡ f node q j)
      → ((j : ℕ) → f (join node) node.shared.alive_procs j ≡ 0)
      → over_processes f (join node) ≡ over_processes f node
  unfolding over_processes
  join-over_processes f old new =
      sum_below-grow node.shared.alive_procs (join node).shared.alive_procs _ _
        (omega (arith, join_alive)) (λ q lt. sum_below-same heap_pages _ _ (λ j less. old q j lt))
        (sum_below-zero heap_pages (f (join node) node.shared.alive_procs) new)

  join-written :
      (q j : ℕ) → q < node.shared.alive_procs → written_here (join node) q j ≡ written_here node q j
  unfolding view
  join-written q j lt =
      ap (λ (p : ProcessPages). to_count (get_bit p.initialized_pages_bv j)) (join_old q lt)

  join-private :
      (q j : ℕ) → q < node.shared.alive_procs → private_here (join node) q j ≡ private_here node q j
  unfolding view join allocate_shared_metadata
  join-private q j lt =
      ap
        (λ (p : ProcessPages). to_count (
          get_bit p.initialized_pages_bv j
          && not (get_bit p.zero_pages_bv j)
          && not (get_sharing_bit node.num_proc q node.shared.sharing_processes_info j)))
        (join_old q lt)

  new_written : (j : ℕ) → written_here (join node) node.shared.alive_procs j ≡ 0
  unfolding view
  new_written j =
      ap (λ (p : ProcessPages). to_count (get_bit p.initialized_pages_bv j)) join_new
      ∙ rw (get_bit-empty j)

  new_private : (j : ℕ) → private_here (join node) node.shared.alive_procs j ≡ 0
  new_private j = ground (arith, new_written j)

  join_counters :
      ((join node).shared.all_proc_private_page_count ≡ node.shared.all_proc_private_page_count)
      × ((join node).shared.shared_page_count ≡ node.shared.shared_page_count)
      × ((join node).shared.base_case_total_page_count ≡ node.shared.base_case_total_page_count)
      × (once_shared (join node) ≡ once_shared node)
      × (more_shared (join node) ≡ more_shared node)
  unfolding join allocate_shared_metadata once_shared more_shared
  join_counters = (refl, refl, refl, refl, refl)

  pub join-Accounted : Accounted (join node)
  join-Accounted =
      let more = join_alive in
      let (same_private, same_shared, same_base, once, several) = join_counters in
      record {
        enough_bits = unfold join allocate_shared_metadata in omega (arith, more, room);
        some_process = omega (arith, more);
        all_sound = λ q lt. join-IsSound q (omega (arith, more, lt));
        nobody_else = λ q i absent known.
            unfold join allocate_shared_metadata in
            acc.nobody_else q i (omega (arith, more, absent)) known;
        private_counted = omega (
          arith,
          acc.private_counted,
          same_private,
          once,
          join-over_processes private_here join-private new_private,
        );
        shared_counted = omega (arith, acc.shared_counted, same_shared, several);
        base_counted = omega (
          arith,
          acc.base_counted,
          same_base,
          join-over_processes written_here join-written new_written,
        );
      }

-- ===== src/Nodes/ActLaws.antt =====
-- SharedHeap.cpp: a step of one process, seen from all processes of the node.
use mathlib.Core.Path.{subst, sym}
use native.Mathlib.Decide.{ℕ_discrete}
use sbllmalloc.Shared.{ℕ, ◌+◌, ◌<◌, ◌≡◌, ◌≢◌, refl, ap, ◌∙◌, arith, not, ◌&&◌, ◌==◌}
use sbllmalloc.Metadata.Address.{heap_pages}
use sbllmalloc.Metadata.Sharing.{bits, get_sharing_bit}
use sbllmalloc.Metadata.SharingLaws.{sharer}
use sbllmalloc.Metadata.OwnView.{to_count}
use sbllmalloc.Metadata.Bitmap.{get_bit}
use sbllmalloc.Pages.State.{Pages}
use sbllmalloc.Pages.Account.{
  SoundTables, IsSound, is_initialized, is_private, sharers, private_weight, shared_weight,
  base_weight, Conserves,
}
use sbllmalloc.Pages.Others.{SameOthers}
use sbllmalloc.Nodes.State.{Node, ProcessPages, view, store}
use sbllmalloc.Pages.Sums.{sum_below, sum_below-same, sum_below-change, sum_below-plus}
use sbllmalloc.Nodes.Invariant.{
  over_processes, private_here, written_here, once_shared, more_shared, Accounted,
}
use sbllmalloc.Nodes.Views.{
  same_own_bit, other_sound, moved_sound, with_process-other, with_process-here,
}

private_weight-split :
    (n : ℕ) (h : Pages)
    → sum_below n (private_weight h)
      ≡ sum_below n (λ j. to_count (is_private h j))
        + sum_below n (λ j. to_count (sharers h j == 1))
unfolding private_weight
private_weight-split n h = sum_below-plus n _ _ _ (λ j. refl)

module _ (node : Node) (rank : ℕ) (h : Pages) (acc : Accounted node)
    (alive : rank < node.shared.alive_procs) (sound : IsSound h)
    (others : SameOthers (view node rank) h) where
  own-IsSound : IsSound (view (store node rank h) rank)
  unfolding view store
  own-IsSound =
      let e = sym (with_process-here node.process rank _) in
      subst
        (λ p.
          SoundTables node.num_proc rank h.sharing_processes_info p.initialized_pages_bv
            p.zero_pages_bv)
        e (moved_sound others.same_num others.same_rank sound)

  same_table_bit :
      (q j : ℕ)
      → q < bits node.num_proc
      → q ≢ rank
      → sharer h.sharing_processes_info q j ≡ sharer node.shared.sharing_processes_info q j
  unfolding view
  same_table_bit q j = others.same_bits q j

  rest-IsSound :
      (q : ℕ) → q < node.shared.alive_procs → q ≢ rank → IsSound (view (store node rank h) q)
  unfolding view store
  rest-IsSound q lt ne =
      let known : q < bits node.num_proc = omega (arith, acc.enough_bits) in
      let e = sym (with_process-other node.process rank _ q ne) in
      let fits = (moved_sound others.same_num others.same_rank sound).fits in
      subst
        (λ p.
          SoundTables node.num_proc q h.sharing_processes_info p.initialized_pages_bv
            p.zero_pages_bv)
        e
        (other_sound node.num_proc q node.shared.sharing_processes_info h.sharing_processes_info _ _
          (acc.all_sound q lt) fits (λ j. same_table_bit q j known ne))

  store-IsSound : (q : ℕ) → q < node.shared.alive_procs → IsSound (view (store node rank h) q)
  store-IsSound q lt = elim (ℕ_discrete q rank) [
    | yes e ↦ subst (λ r. IsSound (view (store node rank h) r)) (sym e) own-IsSound
    | no ne ↦ rest-IsSound q lt ne
  ]

  own_private : (j : ℕ) → private_here (store node rank h) rank j ≡ to_count (is_private h j)
  unfolding view store
  own_private j =
      ap
        (λ (p : ProcessPages). to_count (
          get_bit p.initialized_pages_bv j
          && not (get_bit p.zero_pages_bv j)
          && not (get_sharing_bit node.num_proc rank h.sharing_processes_info j)))
        (with_process-here node.process rank _)
      ∙ ap
          (λ n. to_count (
            is_initialized h j
            && not (get_bit h.zero_pages_bv j)
            && not (get_sharing_bit n rank h.sharing_processes_info j)))
          (sym others.same_num)
      ∙ ap
          (λ r. to_count (
            is_initialized h j
            && not (get_bit h.zero_pages_bv j)
            && not (get_sharing_bit h.num_proc r h.sharing_processes_info j)))
          (sym others.same_rank)

  rest_private :
      (q j : ℕ)
      → q < node.shared.alive_procs
      → q ≢ rank
      → private_here (store node rank h) q j ≡ private_here node q j
  unfolding view store
  rest_private q j lt ne =
      let known : q < bits node.num_proc = omega (arith, acc.enough_bits) in
      let fits = (moved_sound others.same_num others.same_rank sound).fits in
      ap
        (λ (p : ProcessPages). to_count (
          get_bit p.initialized_pages_bv j
          && not (get_bit p.zero_pages_bv j)
          && not (get_sharing_bit node.num_proc q h.sharing_processes_info j)))
        (with_process-other node.process rank _ q ne)
      ∙ ap
          (λ b. to_count (
            get_bit (node.process q).initialized_pages_bv j
            && not (get_bit (node.process q).zero_pages_bv j)
            && not b))
          (same_own_bit node.num_proc q node.shared.sharing_processes_info h.sharing_processes_info
            j known (acc.all_sound q lt).fits fits (same_table_bit q j known ne))

  own_written : (j : ℕ) → written_here (store node rank h) rank j ≡ to_count (is_initialized h j)
  unfolding view store
  own_written j =
      ap (λ (p : ProcessPages). to_count (get_bit p.initialized_pages_bv j))
        (with_process-here node.process rank _)

  rest_written : (q j : ℕ) → q ≢ rank → written_here (store node rank h) q j ≡ written_here node q j
  unfolding view store
  rest_written q j ne =
      ap (λ (p : ProcessPages). to_count (get_bit p.initialized_pages_bv j))
        (with_process-other node.process rank _ q ne)

  -- The sum over the processes moves with that of the one process.
  over_processes-store :
      (f : Node → ℕ → ℕ → ℕ) (own : ℕ → ℕ)
      → ((j : ℕ) → f (store node rank h) rank j ≡ own j)
      → ((q j : ℕ)
          → q < node.shared.alive_procs
          → q ≢ rank
          → f (store node rank h) q j ≡ f node q j)
      → over_processes f (store node rank h) + sum_below heap_pages (f node rank)
        ≡ over_processes f node + sum_below heap_pages own
  unfolding over_processes store
  over_processes-store f own here elsewhere = omega (
    arith,
    sum_below-change node.shared.alive_procs rank (λ q. sum_below heap_pages (f node q))
        (λ q. sum_below heap_pages (f (store node rank h) q)) alive
        (λ q lt ne. sum_below-same heap_pages _ _ (λ j less. elsewhere q j lt ne)),
    sum_below-same heap_pages own (f (store node rank h) rank) (λ j less. here j),
  )

  pub store-Accounted : Conserves heap_pages (view node rank) h → Accounted (store node rank h)
  unfolding view store once_shared more_shared shared_weight base_weight
  store-Accounted conserved = record {
    enough_bits = acc.enough_bits;
    some_process = acc.some_process;
    all_sound = store-IsSound;
    nobody_else = λ q i absent known.
        same_table_bit q i known (omega (arith, alive)) ∙ acc.nobody_else q i absent known;
    private_counted = omega (
      arith,
      acc.private_counted,
      conserved.private_moves,
      private_weight-split heap_pages (view node rank),
      private_weight-split heap_pages h,
      over_processes-store private_here (λ j. to_count (is_private h j)) own_private rest_private,
    );
    shared_counted = omega (arith, acc.shared_counted, conserved.shared_moves);
    base_counted = omega (
      arith,
      acc.base_counted,
      conserved.base_moves,
      over_processes-store written_here (λ j. to_count (is_initialized h j)) own_written
          (λ q j lt ne. rest_written q j ne),
    );
  }

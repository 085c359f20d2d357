-- ===== src/Pages/StepLaws/Remap.antt =====
-- The steps of a merge: `copy_page` and `remap_page`, on a private page.
use sbllmalloc.Shared.{
  ℕ, ◌+◌, ◌<◌, ◌≡◌, refl, ◌∙◌, arith, true, false, ◌==◌, if◌then◌else◌, Bool-cases, inl, inr,
}
use sbllmalloc.Metadata.Sharing.{set_sharing_bit, get_sharing_bit, count_sharing_procs}
use sbllmalloc.Metadata.OwnView.{get_sharing_bit-set, count_sharing_procs-set}
use sbllmalloc.Pages.State.{Pages}
use sbllmalloc.Pages.Steps.{remap_page, copy_page}
use sbllmalloc.Pages.Account.{
  IsSound, is_shared, is_private, sharers, private_weight, shared_weight, base_weight, ConservesAt,
}
use sbllmalloc.Pages.StepLaws.Tables.{share-SoundTables}

module _ (h : Pages) (sound : IsSound h) (i : ℕ) (private : is_private h i ≡ true) where
  own_bit :
      (j : ℕ)
      → get_sharing_bit h.num_proc h.my_rank
          (set_sharing_bit h.num_proc h.my_rank h.sharing_processes_info i)
          j
        ≡ (if j == i then true else is_shared h j)
  own_bit j =
      get_sharing_bit-set h.num_proc h.my_rank h.sharing_processes_info sound.known sound.fits i j

  count_here :
      (j : ℕ)
      → count_sharing_procs (set_sharing_bit h.num_proc h.my_rank h.sharing_processes_info i) j
        ≡ (if j == i then sharers h i + 1 else sharers h j)
  count_here j =
      let alone : is_shared h i ≡ false = ground arith in
      count_sharing_procs-set h.num_proc h.my_rank h.sharing_processes_info sound.known sound.fits i
        j
      ∙ rw alone (ground arith)

  shared-IsSound : IsSound (copy_page i h)
  unfolding copy_page
  shared-IsSound = share-SoundTables _ _ _ _ _ sound i (ground arith) (ground arith)

  pub copy_page-IsSound : IsSound (copy_page i h)
  copy_page-IsSound = shared-IsSound

  -- A private page that nobody shares still counts as private when it is moved.
  pub copy_page-ConservesAt : sharers h i ≡ 0 → ConservesAt i h (copy_page i h)
  unfolding copy_page private_weight shared_weight base_weight
  copy_page-ConservesAt nobody = record {
    private_here = ground (arith, own_bit i, count_here i);
    shared_here = ground (arith, own_bit i, count_here i);
    base_here = refl;
    private_elsewhere = λ j ne. ground (arith, own_bit j, count_here j);
    shared_elsewhere = λ j ne. ground (arith, own_bit j, count_here j);
    base_elsewhere = λ j ne. refl;
  }

  pub remap_page-IsSound : IsSound (remap_page i h)
  unfolding remap_page copy_page
  remap_page-IsSound = elim (Bool-cases (sharers h i == 1)) [
    | inl one ↦ rw one shared-IsSound
    | inr more ↦ rw more shared-IsSound
  ]

  -- `RemapRegion` on a private page that some process shares keeps the counters in account.
  pub remap_page-ConservesAt : 0 < sharers h i → ConservesAt i h (remap_page i h)
  unfolding remap_page private_weight shared_weight base_weight
  remap_page-ConservesAt others = elim (Bool-cases (sharers h i == 1)) [
    | inl one ↦ rw one (record {
      private_here = ground (arith, own_bit i, count_here i);
      shared_here = ground (arith, own_bit i, count_here i);
      base_here = refl;
      private_elsewhere = λ j ne. ground (arith, own_bit j, count_here j);
      shared_elsewhere = λ j ne. ground (arith, own_bit j, count_here j);
      base_elsewhere = λ j ne. refl;
    })
    | inr more ↦ rw more (record {
      private_here = ground (arith, own_bit i, count_here i);
      shared_here = ground (arith, own_bit i, count_here i);
      base_here = refl;
      private_elsewhere = λ j ne. ground (arith, own_bit j, count_here j);
      shared_elsewhere = λ j ne. ground (arith, own_bit j, count_here j);
      base_elsewhere = λ j ne. refl;
    })
  ]

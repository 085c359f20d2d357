-- ===== src/Pages/StepLaws/Free.antt =====
-- The step of `ShmFreeWrapper`.
use sbllmalloc.Shared.{
  ℕ, ◌-◌, ◌≡◌, ◌≢◌, refl, ◌∙◌, arith, Bool, true, false, ◌==◌, if◌then◌else◌, Bool-cases, inl, inr,
}
use sbllmalloc.Metadata.Sharing.{unset_sharing_bit, get_sharing_bit, count_sharing_procs}
use sbllmalloc.Metadata.OwnView.{get_sharing_bit-unset, count_sharing_procs-unset, own_counted}
use sbllmalloc.Metadata.Bitmap.{unset_bit}
use sbllmalloc.Metadata.BitmapLaws.{get_bit-unset_bit, reset_and_return_bit_lem}
use sbllmalloc.Pages.State.{Pages, int_add, int_sub}
use sbllmalloc.Pages.Steps.{count_freed, one_mmap_less, free_page}
use sbllmalloc.Pages.Account.{
  IsSound, is_initialized, is_zero, is_shared, sharers, private_weight, shared_weight, base_weight,
  ConservesAt, Moves,
}
use sbllmalloc.Pages.Others.{SameOthers, same_others, unset_sharing_bit-SameBits}
use sbllmalloc.Pages.StepLaws.Tables.{
  own_bit, count_here, unshare-SoundTables, unset_zero-SoundTables, unset_initialized-SoundTables,
}
use sbllmalloc.Pages.StepLaws.Free.Cases.{untouched, unshared, free_page_cases}
pub mod Cases
pub mod Bits

module _ (h : Pages) (sound : IsSound h) (i : ℕ) where
  cleared-IsSound : is_shared h i ≡ false → (c d e z m : ℕ) → IsSound (untouched h i c d e z m)
  unfolding untouched
  cleared-IsSound not_shared c d e z m =
      let s1 = unset_zero-SoundTables _ _ _ _ _ sound i in
      unset_initialized-SoundTables _ _ _ _ _ s1 i
        (ground (arith, get_bit-unset_bit h.zero_pages_bv i sound.bytes_zero i)) not_shared

  unshared-IsSound : (c d e z m : ℕ) → IsSound (unshared h i c d e z m)
  unfolding unshared untouched
  unshared-IsSound c d e z m =
      let s1 = unset_zero-SoundTables _ _ _ _ _ sound i in
      let s2 = unshare-SoundTables _ _ _ _ _ s1 i in
      unset_initialized-SoundTables _ _ _ _ _ s2 i
        (ground (arith, get_bit-unset_bit h.zero_pages_bv i sound.bytes_zero i))
        (ground (arith, own_bit h sound i i))

  -- Freeing a page keeps the tables sound.
  pub free_page-IsSound : (last : Bool) → IsSound (free_page i last h).0
  free_page-IsSound last =
      free_page_cases h sound i IsSound last
        (λ fresh m.
          unset_initialized-SoundTables _ _ _ _ _ sound i (ground (arith, sound.zero_initialized i))
            (ground (arith, sound.shared_initialized i)))
        (λ old z m. cleared-IsSound (sound.exclusive i z) _ _ _ _ _)
        (λ old sh one m. unshared-IsSound _ _ _ _ _) (λ old sh two m. unshared-IsSound _ _ _ _ _)
        (λ old sh a b m. unshared-IsSound _ _ _ _ _) (λ old nz pr m. cleared-IsSound pr _ _ _ _ _)

  -- Freeing a page leaves the bits of the other processes.
  pub free_page-SameOthers : (last : Bool) → SameOthers h (free_page i last h).0
  unfolding unshared untouched
  free_page-SameOthers last =
      let left = unset_sharing_bit-SameBits _ _ _ i sound.known sound.fits in
      free_page_cases h sound i (SameOthers h) last
        (λ fresh m. same_others refl refl (λ r j lt ne. refl))
        (λ old z m. same_others refl refl (λ r j lt ne. refl))
        (λ old sh one m. same_others refl refl left) (λ old sh two m. same_others refl refl left)
        (λ old sh a b m. same_others refl refl left)
        (λ old nz pr m. same_others refl refl (λ r j lt ne. refl))

  untouched-ConservesAt :
      is_initialized h i ≡ true
      → is_shared h i ≡ false
      → (d z m : ℕ)
      → let h' = untouched h i h.shared_page_count d (int_sub h.base_case_total_page_count 1) z m in
        Moves h.all_proc_private_page_count (private_weight h i) d (private_weight h' i)
        → ConservesAt i h h'
  unfolding untouched private_weight shared_weight base_weight
  untouched-ConservesAt old not_shared d z m private_here =
      let init_bit = get_bit-unset_bit h.initialized_pages_bv i sound.bytes_initialized in
      let zero_bit = get_bit-unset_bit h.zero_pages_bv i sound.bytes_zero in
      record {
        private_here = private_here;
        shared_here = refl;
        base_here = ground (arith, init_bit i);
        private_elsewhere = λ j ne. ground (arith, init_bit j, zero_bit j);
        shared_elsewhere = λ j ne. refl;
        base_elsewhere = λ j ne. ground (arith, init_bit j);
      }

  unshared-ConservesAt :
      is_initialized h i ≡ true
      → is_shared h i ≡ true
      → (c d m : ℕ)
      → let h' = unshared h i c d (int_sub h.base_case_total_page_count 1) h.zero_page_count m in
        Moves h.all_proc_private_page_count (private_weight h i) d (private_weight h' i)
        → Moves h.shared_page_count (shared_weight h i) c (shared_weight h' i)
        → ConservesAt i h h'
  unfolding unshared untouched private_weight shared_weight base_weight
  unshared-ConservesAt old mine c d m private_here shared_here =
      let init_bit = get_bit-unset_bit h.initialized_pages_bv i sound.bytes_initialized in
      let zero_bit = get_bit-unset_bit h.zero_pages_bv i sound.bytes_zero in
      record {
        private_here = private_here;
        shared_here = shared_here;
        base_here = ground (arith, init_bit i);
        private_elsewhere = λ j ne.
            ground (arith, init_bit j, zero_bit j, own_bit h sound i j, count_here h sound i j);
        shared_elsewhere = λ j ne. ground (arith, count_here h sound i j);
        base_elsewhere = λ j ne. ground (arith, init_bit j);
      }

  -- With sound metadata, the step of `ShmFreeWrapper` on a page moves the counters of private,
  -- shared and base-case pages by what that page counts in the metadata (modulo 2^32), and leaves
  -- what every other page counts.
  pub free_page-ConservesAt : (last : Bool) → ConservesAt i h (free_page i last h).0
  unfolding untouched unshared private_weight shared_weight base_weight
  free_page-ConservesAt last =
      let init_bit = get_bit-unset_bit h.initialized_pages_bv i sound.bytes_initialized in
      let zero_bit = get_bit-unset_bit h.zero_pages_bv i sound.bytes_zero in
      let counted =
        own_counted h.num_proc h.my_rank h.sharing_processes_info sound.known sound.fits i in
      free_page_cases h sound i (λ r. ConservesAt i h r) last
        (λ fresh m. record {
          private_here = ground (arith, init_bit i);
          shared_here = refl;
          base_here = ground (arith, init_bit i);
          private_elsewhere = λ j ne. ground (arith, init_bit j);
          shared_elsewhere = λ j ne. refl;
          base_elsewhere = λ j ne. ground (arith, init_bit j);
        })
        (λ old z m.
          untouched-ConservesAt old (sound.exclusive i z) _ _ m
            (ground (arith, init_bit i, zero_bit i)))
        (λ old mine one m.
          unshared-ConservesAt old mine _ _ m
            (ground (arith, init_bit i, own_bit h sound i i, count_here h sound i i, counted))
            (ground (arith, count_here h sound i i, counted)))
        (λ old mine two m.
          unshared-ConservesAt old mine _ _ m
            (ground (arith, init_bit i, own_bit h sound i i, count_here h sound i i, counted))
            (ground (arith, count_here h sound i i, counted)))
        (λ old mine not_one not_two m.
          unshared-ConservesAt old mine _ _ m
            (ground (arith, init_bit i, own_bit h sound i i, count_here h sound i i, counted))
            (ground (arith, count_here h sound i i, counted)))
        (λ old nz pr m. untouched-ConservesAt old pr _ _ m (ground (arith, init_bit i, zero_bit i)))

-- ===== src/Pages/StepLaws/Fault.antt =====
-- The step of the signal handler: a write to a page that is not writable.
use sbllmalloc.Shared.{ℕ, ◌<◌, ◌≡◌, refl, arith, true, false, ◌==◌, Bool-cases, inl, inr}
use sbllmalloc.Metadata.Sharing.{unset_sharing_bit, count_sharing_procs}
use sbllmalloc.Metadata.OwnView.{own_counted}
use sbllmalloc.Metadata.Bitmap.{set_bit, unset_bit}
use sbllmalloc.Metadata.BitmapLaws.{
  get_bit-set_bit, get_bit-unset_bit, set_and_return_bit_lem, reset_and_return_bit_lem,
}
use sbllmalloc.Pages.State.{Pages, int_add, int_sub}
use sbllmalloc.Pages.Steps.{
  Fault, first_touch, zero_page, shared_page, private_page, count_unshared, unshare_page,
  fault_page,
}
use sbllmalloc.Pages.Account.{
  IsSound, is_initialized, is_zero, is_shared, private_weight, shared_weight, base_weight,
  ConservesAt, Moves,
}
use sbllmalloc.Pages.Others.{SameOthers, same_others, unset_sharing_bit-SameBits}
use sbllmalloc.Pages.StepLaws.Tables.{
  own_bit, count_here, unshare-SoundTables, unset_zero-SoundTables, set_initialized-SoundTables,
}
pub mod Bits

module _ (h : Pages) (sound : IsSound h) (i : ℕ) where
  -- `SetAndReturnBit` and `ResetAndReturnBit`, applied.
  unfoldable pub initialized : Pages
  initialized = record h { initialized_pages_bv = set_bit h.initialized_pages_bv i }

  unfoldable pub cleared : Pages
  cleared = record h {
    initialized_pages_bv = set_bit h.initialized_pages_bv i;
    zero_pages_bv = unset_bit h.zero_pages_bv i;
  }

  unfoldable pub unshared : Pages
  unshared = record h {
    initialized_pages_bv = set_bit h.initialized_pages_bv i;
    zero_pages_bv = unset_bit h.zero_pages_bv i;
    sharing_processes_info = unset_sharing_bit h.num_proc h.my_rank h.sharing_processes_info i;
  }

  abbrev left_sharers : ℕ
  left_sharers =
      count_sharing_procs (unset_sharing_bit h.num_proc h.my_rank h.sharing_processes_info i) i

  -- The results of the handler on a page, one by one, with the facts that lead there.
  pub fault_page_cases {ℓ} :
      (P : Pages × Fault → Type ℓ)
      → (is_initialized h i ≡ false
          → P (
            record initialized {
              all_proc_private_page_count = int_add h.all_proc_private_page_count 1;
              base_case_total_page_count = int_add h.base_case_total_page_count 1;
            },
            first_touch,
          ))
      → (is_initialized h i ≡ true
          → is_zero h i ≡ true
          → P (
            record cleared {
              all_proc_private_page_count = int_add h.all_proc_private_page_count 1;
              zero_page_count = int_sub h.zero_page_count 1;
            },
            zero_page,
          ))
      → (is_initialized h i ≡ true
          → is_zero h i ≡ false
          → is_shared h i ≡ true
          → P (count_unshared left_sharers unshared, shared_page))
      → (is_initialized h i ≡ true
          → is_zero h i ≡ false
          → is_shared h i ≡ false
          → P (cleared, private_page))
      → P (fault_page i h)
  unfolding fault_page unshare_page initialized cleared unshared
  fault_page_cases P first zeroed mine own =
      let setting = set_and_return_bit_lem h.initialized_pages_bv i sound.bytes_initialized in
      let resetting = reset_and_return_bit_lem h.zero_pages_bv i sound.bytes_zero in
      elim (Bool-cases (is_initialized h i)) [
        | inr fresh ↦ rw (setting, resetting, fresh) (first fresh)
        | inl old ↦ elim (Bool-cases (is_zero h i)) [
          | inl z ↦ rw (setting, resetting, old, z) (zeroed old z)
          | inr nz ↦ elim (Bool-cases (is_shared h i)) [
            | inl sh ↦ rw (setting, resetting, old, nz, sh) (mine old nz sh)
            | inr pr ↦ rw (setting, resetting, old, nz, pr) (own old nz pr)
          ]
        ]
      ]

  pub count_unshared_cases {ℓ} :
      (P : Pages → Type ℓ)
      → (left_sharers ≡ 1
          → P (record unshared {
            shared_page_count = int_sub h.shared_page_count 1;
            all_proc_private_page_count = int_add h.all_proc_private_page_count 2;
          }))
      → (left_sharers ≡ 0 → P unshared)
      → (1 < left_sharers
          → P (record unshared {
            all_proc_private_page_count = int_add h.all_proc_private_page_count 1;
          }))
      → P (count_unshared left_sharers unshared)
  unfolding count_unshared unshared
  count_unshared_cases P one none_left more = elim (Bool-cases (left_sharers == 1)) [
    | inl e ↦ rw e (one (ground arith))
    | inr ne ↦ elim (Bool-cases (left_sharers == 0)) [
      | inl e ↦ rw (ne, e) (none_left (ground arith))
      | inr nz ↦ rw (ne, nz) (more (ground arith))
    ]
  ]

  -- The handler keeps the tables sound.
  pub fault_page-IsSound : IsSound (fault_page i h).0
  unfolding initialized cleared unshared
  fault_page-IsSound =
      let s1 = set_initialized-SoundTables _ _ _ _ _ sound i in
      let s2 = unset_zero-SoundTables _ _ _ _ _ s1 i in
      let s3 = unshare-SoundTables _ _ _ _ _ s2 i in
      fault_page_cases (λ r. IsSound r.0) (λ a. s1) (λ a b. s2)
        (λ a b c. count_unshared_cases IsSound (λ e. s3) (λ e. s3) (λ e. s3)) (λ a b c. s2)

  -- The handler leaves the bits of the other processes.
  pub fault_page-SameOthers : SameOthers h (fault_page i h).0
  unfolding initialized cleared unshared
  fault_page-SameOthers =
      let left = unset_sharing_bit-SameBits _ _ _ i sound.known sound.fits in
      fault_page_cases (λ r. SameOthers h r.0) (λ a. same_others refl refl (λ r j lt ne. refl))
        (λ a b. same_others refl refl (λ r j lt ne. refl))
        (λ a b c.
          count_unshared_cases (SameOthers h) (λ e. same_others refl refl left)
            (λ e. same_others refl refl left) (λ e. same_others refl refl left))
        (λ a b c. same_others refl refl (λ r j lt ne. refl))

  -- A page that the process shared and has its own frame again, with the counters that are given.
  unshared-ConservesAt :
      is_shared h i ≡ true
      → is_zero h i ≡ false
      → (c d : ℕ)
      → let h' = record unshared { shared_page_count = c; all_proc_private_page_count = d } in
        Moves h.all_proc_private_page_count (private_weight h i) d (private_weight h' i)
        → Moves h.shared_page_count (shared_weight h i) c (shared_weight h' i)
        → ConservesAt i h h'
  unfolding unshared private_weight shared_weight base_weight
  unshared-ConservesAt mine nz c d private_here shared_here =
      let init_bit = get_bit-set_bit h.initialized_pages_bv i sound.bytes_initialized in
      let zero_bit = get_bit-unset_bit h.zero_pages_bv i sound.bytes_zero in
      record {
        private_here = private_here;
        shared_here = shared_here;
        base_here = ground (arith, init_bit i, sound.shared_initialized i);
        private_elsewhere = λ j ne.
            ground (arith, init_bit j, zero_bit j, own_bit h sound i j, count_here h sound i j);
        shared_elsewhere = λ j ne. ground (arith, count_here h sound i j);
        base_elsewhere = λ j ne. ground (arith, init_bit j);
      }

  -- With sound metadata, the write-fault step of `SigSegvHandler` on a page moves the counters of
  -- private, shared and base-case pages by what that page counts in the metadata (modulo 2^32),
  -- and leaves what every other page counts.
  pub fault_page-ConservesAt : ConservesAt i h (fault_page i h).0
  unfolding initialized cleared unshared private_weight shared_weight base_weight
  fault_page-ConservesAt =
      let init_bit = get_bit-set_bit h.initialized_pages_bv i sound.bytes_initialized in
      let zero_bit = get_bit-unset_bit h.zero_pages_bv i sound.bytes_zero in
      let counted =
        own_counted h.num_proc h.my_rank h.sharing_processes_info sound.known sound.fits i in
      fault_page_cases (λ r. ConservesAt i h r.0)
        (λ fresh. record {
          private_here =
              ground (arith, init_bit i, sound.zero_initialized i, sound.shared_initialized i);
          shared_here = refl;
          base_here = ground (arith, init_bit i);
          private_elsewhere = λ j ne. ground (arith, init_bit j);
          shared_elsewhere = λ j ne. refl;
          base_elsewhere = λ j ne. ground (arith, init_bit j);
        })
        (λ old z. record {
          private_here = ground (arith, init_bit i, zero_bit i, sound.exclusive i);
          shared_here = refl;
          base_here = ground (arith, init_bit i);
          private_elsewhere = λ j ne. ground (arith, init_bit j, zero_bit j);
          shared_elsewhere = λ j ne. refl;
          base_elsewhere = λ j ne. ground (arith, init_bit j);
        })
        (λ old nz mine.
          count_unshared_cases (ConservesAt i h)
            (λ e.
              unshared-ConservesAt mine nz _ _
                (ground (
                  arith,
                  init_bit i,
                  zero_bit i,
                  own_bit h sound i i,
                  count_here h sound i i,
                  counted,
                ))
                (ground (arith, count_here h sound i i, counted)))
            (λ e.
              unshared-ConservesAt mine nz _ _
                (ground (
                  arith,
                  init_bit i,
                  zero_bit i,
                  own_bit h sound i i,
                  count_here h sound i i,
                  counted,
                ))
                (ground (arith, count_here h sound i i, counted)))
            (λ e.
              unshared-ConservesAt mine nz _ _
                (ground (
                  arith,
                  init_bit i,
                  zero_bit i,
                  own_bit h sound i i,
                  count_here h sound i i,
                  counted,
                ))
                (ground (arith, count_here h sound i i, counted))))
        (λ old nz alone. record {
          private_here = ground (arith, init_bit i, zero_bit i);
          shared_here = refl;
          base_here = ground (arith, init_bit i);
          private_elsewhere = λ j ne. ground (arith, init_bit j, zero_bit j);
          shared_elsewhere = λ j ne. refl;
          base_elsewhere = λ j ne. ground (arith, init_bit j);
        })

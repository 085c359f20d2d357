-- ===== src/Pages/StepLaws/Free/Cases.antt =====
-- The results of the step of `ShmFreeWrapper` on a page, one by one.
use sbllmalloc.Shared.{ℕ, ◌≡◌, ◌≢◌, arith, Bool, true, false, ◌==◌, Bool-cases, inl, inr}
use sbllmalloc.Metadata.Sharing.{unset_sharing_bit}
use sbllmalloc.Metadata.Bitmap.{unset_bit}
use sbllmalloc.Metadata.BitmapLaws.{reset_and_return_bit_lem}
use sbllmalloc.Pages.State.{Pages, int_add, int_sub}
use sbllmalloc.Pages.Steps.{count_freed, one_mmap_less, free_page}
use sbllmalloc.Pages.Account.{IsSound, is_initialized, is_zero, is_shared, sharers}

one_mmap_less_cases {ℓ} :
    (P : Pages → Type ℓ) (test : Bool) (h : Pages)
    → ((m : ℕ) → P (record h { mmap_count = m }))
    → P (one_mmap_less test h)
unfolding one_mmap_less
one_mmap_less_cases P true h all = all _
one_mmap_less_cases P false h all = all _

module _ (h : Pages) (i : ℕ) where
  -- What is freed by every branch: the page has not been written and is not zero.
  unfoldable pub untouched : ℕ → ℕ → ℕ → ℕ → ℕ → Pages
  untouched c d e z m = record h {
    initialized_pages_bv = unset_bit h.initialized_pages_bv i;
    zero_pages_bv = unset_bit h.zero_pages_bv i;
    shared_page_count = c;
    all_proc_private_page_count = d;
    base_case_total_page_count = e;
    zero_page_count = z;
    mmap_count = m;
  }

  unfoldable pub unshared : ℕ → ℕ → ℕ → ℕ → ℕ → Pages
  unfolding untouched
  unshared c d e z m = record (untouched c d e z m) {
    sharing_processes_info = unset_sharing_bit h.num_proc h.my_rank h.sharing_processes_info i;
  }

module _ (h : Pages) (sound : IsSound h) (i : ℕ) where
  -- The results on a page, one by one, with the facts that lead there. The number of mappings is not
  -- looked at.
  pub free_page_cases {ℓ} :
      (P : Pages → Type ℓ) (last : Bool)
      → (is_initialized h i ≡ false
          → (m : ℕ)
          → P (record h {
            initialized_pages_bv = unset_bit h.initialized_pages_bv i;
            mmap_count = m;
          }))
      → (is_initialized h i ≡ true
          → is_zero h i ≡ true
          → (m : ℕ)
          → P (
              untouched h i h.shared_page_count h.all_proc_private_page_count
                (int_sub h.base_case_total_page_count 1)
                (int_sub h.zero_page_count 1)
                m))
      → (is_initialized h i ≡ true
          → is_shared h i ≡ true
          → sharers h i ≡ 1
          → (m : ℕ)
          → P (
              unshared h i h.shared_page_count
                (int_sub h.all_proc_private_page_count 1)
                (int_sub h.base_case_total_page_count 1)
                h.zero_page_count
                m))
      → (is_initialized h i ≡ true
          → is_shared h i ≡ true
          → sharers h i ≡ 2
          → (m : ℕ)
          → P (
              unshared h i
                (int_sub h.shared_page_count 1)
                (int_add h.all_proc_private_page_count 1)
                (int_sub h.base_case_total_page_count 1)
                h.zero_page_count
                m))
      → (is_initialized h i ≡ true
          → is_shared h i ≡ true
          → sharers h i ≢ 1
          → sharers h i ≢ 2
          → (m : ℕ)
          → P (
              unshared h i h.shared_page_count h.all_proc_private_page_count
                (int_sub h.base_case_total_page_count 1)
                h.zero_page_count
                m))
      → (is_initialized h i ≡ true
          → is_zero h i ≡ false
          → is_shared h i ≡ false
          → (m : ℕ)
          → P (
              untouched h i h.shared_page_count
                (int_sub h.all_proc_private_page_count 1)
                (int_sub h.base_case_total_page_count 1)
                h.zero_page_count
                m))
      → P (free_page i last h).0
  unfolding free_page count_freed untouched unshared
  free_page_cases P last new zeroed one two many own =
      let resetting = reset_and_return_bit_lem h.initialized_pages_bv i sound.bytes_initialized in
      let clearing = reset_and_return_bit_lem h.zero_pages_bv i sound.bytes_zero in
      elim (Bool-cases (is_initialized h i)) [
        | inr fresh ↦
            rw (resetting, clearing, fresh) (one_mmap_less_cases P last _ (λ m. new fresh m))
        | inl old ↦ elim (Bool-cases (is_zero h i)) [
          | inl z ↦
              rw (resetting, clearing, old, z)
                (one_mmap_less_cases P true _ (λ m.
                  one_mmap_less_cases
                    (λ r.
                      P (record r {
                        zero_page_count = int_sub h.zero_page_count 1;
                        mmap_count = m;
                      }))
                    _ _ (λ m'. zeroed old z m)))
          | inr nz ↦ elim (Bool-cases (is_shared h i)) [
            | inr pr ↦
                rw (resetting, clearing, old, nz, pr)
                  (one_mmap_less_cases
                    (λ r. P (record r {
                      all_proc_private_page_count = int_sub h.all_proc_private_page_count 1;
                    }))
                    _ _ (λ m. own old nz pr m))
            | inl sh ↦ elim (Bool-cases (sharers h i == 1)) [
              | inl e ↦
                  rw (resetting, clearing, old, nz, sh, e)
                    (one_mmap_less_cases
                      (λ r. P (record r {
                        all_proc_private_page_count = int_sub r.all_proc_private_page_count 1;
                        sharing_processes_info =
                            unset_sharing_bit h.num_proc h.my_rank h.sharing_processes_info i;
                      }))
                      _ _ (λ m. one old sh (ground arith) m))
              | inr ne ↦ elim (Bool-cases (sharers h i == 2)) [
                | inl e ↦
                    rw (resetting, clearing, old, nz, sh, ne, e)
                      (one_mmap_less_cases
                        (λ r. P (record r {
                          shared_page_count = int_sub r.shared_page_count 1;
                          all_proc_private_page_count = int_add r.all_proc_private_page_count 1;
                          sharing_processes_info =
                              unset_sharing_bit h.num_proc h.my_rank h.sharing_processes_info i;
                        }))
                        _ _ (λ m. two old sh (ground arith) m))
                | inr ne2 ↦
                    rw (resetting, clearing, old, nz, sh, ne, ne2)
                      (one_mmap_less_cases
                        (λ r. P (record r {
                          sharing_processes_info =
                              unset_sharing_bit h.num_proc h.my_rank h.sharing_processes_info i;
                        }))
                        _ _ (λ m. many old sh (ground arith) (ground arith) m))
              ]
            ]
          ]
        ]
      ]

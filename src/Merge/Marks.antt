-- ===== src/Merge/Marks.antt =====
-- SharedHeap.cpp: the bits that the remapping of a run of pages sets, where the system maps all pages.
use sbllmalloc.Shared.{
  ◌^◌, ℕ, zero, suc, ◌+◌, ◌*◌, ◌<◌, ◌≡◌, refl, ◌∙◌, arith, Bool, true, false, ◌||◌, ltb, ◌==◌,
  if◌then◌else◌, Bool-cases, inl, inr,
}
use sbllmalloc.Metadata.Sharing.{bits, count_sharing_procs}
use sbllmalloc.Metadata.SharingLaws.{Fits, set_sharing_bit-Fits}
use sbllmalloc.Metadata.OwnView.{get_sharing_bit-set}
use sbllmalloc.Metadata.Bitmap.{set_bit, set_multi_bits}
use sbllmalloc.Metadata.BitmapLaws.{in_range}
use sbllmalloc.Pages.Memory.{Memory}
use sbllmalloc.Pages.State.{Pages}
use sbllmalloc.Pages.Steps.{copy_page, remap_page}
use sbllmalloc.Pages.Account.{IsSound, is_initialized, is_zero, is_shared}
use sbllmalloc.Merge.Remaps.{System, page_loop, remap_region, copy_and_remap_region, remap_to_zero}
use sbllmalloc.Merge.ZeroLaws.{AllMapped, zero_loop_cases, zero_bits_set}

-- The process has a bit, and the words fit.
abbrev pub HasBits : Pages → Type 0
HasBits h = (h.my_rank < bits h.num_proc) × Fits h.num_proc h.sharing_processes_info

-- From `h` to `h'` the pages of which `shares` or `zeroes` holds become shared or zero.
pub record Marks (shares zeroes : ℕ → Bool) (h h' : Pages) : Type 0 where
  pub marks_initialized : (j : ℕ) → is_initialized h' j ≡ is_initialized h j
  pub marks_zero : (j : ℕ) → is_zero h' j ≡ (is_zero h j || zeroes j)
  pub marks_shared : (j : ℕ) → is_shared h' j ≡ (is_shared h j || shares j)

abbrev pub nowhere : ℕ → Bool
nowhere j = false

pub Marks-none : (h : Pages) → Marks nowhere nowhere h h
Marks-none h = record {
  marks_initialized = λ j. refl;
  marks_zero = λ j. ground arith;
  marks_shared = λ j. ground arith;
}

Marks-memory :
    {shares zeroes : ℕ → Bool} {h h' : Pages} (m : Memory)
    → Marks shares zeroes h h'
    → Marks shares zeroes h (record h' { memory = m })
Marks-memory m marks = record {
  marks_initialized = marks.marks_initialized;
  marks_zero = marks.marks_zero;
  marks_shared = marks.marks_shared;
}

-- A step that shares its page
pub record SharesPage (step : ℕ → Pages → Pages) : Type 0 where
  pub keeps_bits : (i : ℕ) (h : Pages) → HasBits h → HasBits (step i h)
  pub marks : (i : ℕ) (h : Pages) → HasBits h → Marks (λ j. j == i) nowhere h (step i h)

pub copy_page-SharesPage : SharesPage copy_page
unfolding copy_page
copy_page-SharesPage = record {
  keeps_bits = λ i h has. (has.0, set_sharing_bit-Fits _ _ _ i has.0 has.1);
  marks = λ i h has. record {
    marks_initialized = λ j. refl;
    marks_zero = λ j. ground arith;
    marks_shared = λ j. ground (arith, get_sharing_bit-set _ _ _ has.0 has.1 i j);
  };
}

pub remap_page-SharesPage : SharesPage remap_page
unfolding remap_page
remap_page-SharesPage = record {
  keeps_bits = λ i h has. elim (Bool-cases (count_sharing_procs h.sharing_processes_info i == 1)) [
    | inl one ↦ rw one (has.0, set_sharing_bit-Fits _ _ _ i has.0 has.1)
    | inr other ↦ rw other (has.0, set_sharing_bit-Fits _ _ _ i has.0 has.1)
  ];
  marks = λ i h has. elim (Bool-cases (count_sharing_procs h.sharing_processes_info i == 1)) [
    | inl one ↦ rw one (record {
      marks_initialized = λ j. refl;
      marks_zero = λ j. ground arith;
      marks_shared = λ j. ground (arith, get_sharing_bit-set _ _ _ has.0 has.1 i j);
    })
    | inr other ↦ rw other (record {
      marks_initialized = λ j. refl;
      marks_zero = λ j. ground arith;
      marks_shared = λ j. ground (arith, get_sharing_bit-set _ _ _ has.0 has.1 i j);
    })
  ];
}

page_loop-Marks :
    {step : ℕ → Pages → Pages} (laws : SharesPage step) (n i : ℕ) (h : Pages)
    → HasBits h
    → Marks (in_range i n) nowhere h (page_loop step n i h)
unfolding page_loop
page_loop-Marks laws zero i h has = record {
  marks_initialized = λ j. refl;
  marks_zero = λ j. ground arith;
  marks_shared = λ j. ground arith;
}
page_loop-Marks {step} laws (suc n) i h has =
    let first = laws.marks i h has in
    let rest = page_loop-Marks laws n (i + 1) (step i h) (laws.keeps_bits i h has) in
    record {
      marks_initialized = λ j. rest.marks_initialized j ∙ first.marks_initialized j;
      marks_zero = λ j. ground (arith, rest.marks_zero j, first.marks_zero j);
      marks_shared = λ j. ground (arith, rest.marks_shared j, first.marks_shared j);
    }

module _ (os : System) (n i : ℕ) (h : Pages) (maps : os.get_shared_region i n ≡ true)
    (has : HasBits h) where
  pub remap_region-Marks : Marks (in_range i n) nowhere h (remap_region os i n h)
  unfolding remap_region
  remap_region-Marks = rw maps (Marks-memory _ (page_loop-Marks remap_page-SharesPage n i h has))

  pub copy_and_remap_region-Marks : Marks (in_range i n) nowhere h (copy_and_remap_region os i n h)
  unfolding copy_and_remap_region
  copy_and_remap_region-Marks =
      rw maps (Marks-memory _ (page_loop-Marks copy_page-SharesPage n i h has))

pub remap_to_zero-Marks :
    (os : System) (n i : ℕ) (h : Pages)
    → AllMapped os
    → IsSound h
    → 0 < n
    → n < 2 ^ 31
    → Marks nowhere (in_range i n) h (remap_to_zero os i n h)
unfolding remap_to_zero
remap_to_zero-Marks os n i h mapped sound some_page small =
    zero_loop_cases
      (λ h' done. Marks nowhere (in_range i n) h (
        if done
        then record h' {
          zero_pages_bv =
              if ltb 1 n
              then set_multi_bits 12 h'.zero_pages_bv i (n * 4096)
              else set_bit h'.zero_pages_bv i;
        }
        else h'))
      os.maps_zero_page n i h
      (λ c d mem done zeroed counted all. rw (all mapped) (record {
        marks_initialized = λ j. refl;
        marks_zero = λ j. ground (arith, (zero_bits_set i n h sound some_page small j).1);
        marks_shared = λ j. ground arith;
      }))

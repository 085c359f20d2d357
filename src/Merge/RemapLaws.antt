-- ===== src/Merge/RemapLaws.antt =====
-- SharedHeap.cpp: `RemapRegion` and `CopyAndRemapRegion` on a run of private pages.
use sbllmalloc.Shared.{
  ℕ, ◌+◌, ◌≤◌, ◌<◌, ◌≡◌, ◌≢◌, refl, false, arith, ◌==◌, if◌then◌else◌, Bool-cases, inl, inr,
}
use sbllmalloc.Metadata.Sharing.{count_sharing_procs}
use sbllmalloc.Metadata.OwnView.{get_sharing_bit-set, count_sharing_procs-set}
use sbllmalloc.Pages.Memory.{in_run, map_shared, copy_to_shared}
use sbllmalloc.Pages.State.{Pages}
use sbllmalloc.Pages.Steps.{remap_page, copy_page}
use sbllmalloc.Pages.Account.{IsSound, is_private, sharers}
use sbllmalloc.Pages.Others.{copy_page-SameOthers, remap_page-SameOthers}
use sbllmalloc.Pages.StepLaws.Remap.{
  remap_page-IsSound, remap_page-ConservesAt, copy_page-IsSound, copy_page-ConservesAt,
}
use sbllmalloc.Merge.Remaps.{System, remap_region, copy_and_remap_region}
use sbllmalloc.Merge.Keeps.{PrivateRun, Keeps, Keeps-refl, Keeps-memory, PageStep, page_loop-Keeps}

module _ (h : Pages) (i j : ℕ) (sound : IsSound h) (elsewhere : j ≢ i) where
  is_private-copy_page : is_private (copy_page i h) j ≡ is_private h j
  unfolding copy_page
  is_private-copy_page = ground (
    arith,
    get_sharing_bit-set h.num_proc h.my_rank h.sharing_processes_info sound.known sound.fits i j,
  )

  is_private-remap_page : is_private (remap_page i h) j ≡ is_private h j
  unfolding remap_page
  is_private-remap_page =
      let bit =
        get_sharing_bit-set h.num_proc h.my_rank h.sharing_processes_info sound.known sound.fits i
          j in
      elim (Bool-cases (count_sharing_procs h.sharing_processes_info i == 1)) [
        | inl one ↦ rw one (ground (arith, bit))
        | inr other ↦ rw other (ground (arith, bit))
      ]

  sharers-copy_page : sharers (copy_page i h) j ≡ sharers h j
  unfolding copy_page
  sharers-copy_page = ground (
    arith,
    count_sharing_procs-set h.num_proc h.my_rank h.sharing_processes_info sound.known sound.fits i
        j,
  )

  sharers-remap_page : sharers (remap_page i h) j ≡ sharers h j
  unfolding remap_page
  sharers-remap_page = ground (
    arith,
    count_sharing_procs-set h.num_proc h.my_rank h.sharing_processes_info sound.known sound.fits i
        j,
  )

memory-copy_page : (i : ℕ) (h : Pages) → (copy_page i h).memory ≡ h.memory
unfolding copy_page
memory-copy_page i h = refl

memory-remap_page : (i : ℕ) (h : Pages) → (remap_page i h).memory ≡ h.memory
unfolding remap_page
memory-remap_page i h = elim (Bool-cases (count_sharing_procs h.sharing_processes_info i == 1)) [
  | inl one ↦ rw one refl
  | inr other ↦ rw other refl
]

-- The pages outside of a run
outside_run :
    {A : Type 0} (start n p j : ℕ) (a b : A)
    → start + n ≤ p
    → p ≤ j
    → (if in_run start n j then a else b) ≡ b
outside_run start n p j a b top le =
    let out : in_run start n j ≡ false = ground arith in rw out refl

-- A page that nobody shares is copied; one that somebody shares is remapped.
pub copy_page-PageStep : PageStep copy_page (λ k. k ≡ 0)
copy_page-PageStep = record {
  keeps_sound = copy_page-IsSound;
  conserves = copy_page-ConservesAt;
  same_private = is_private-copy_page;
  same_sharers = sharers-copy_page;
  same_memory = memory-copy_page;
  same_others = copy_page-SameOthers;
}

pub remap_page-PageStep : PageStep remap_page (λ k. 0 < k)
remap_page-PageStep = record {
  keeps_sound = remap_page-IsSound;
  conserves = remap_page-ConservesAt;
  same_private = is_private-remap_page;
  same_sharers = sharers-remap_page;
  same_memory = memory-remap_page;
  same_others = remap_page-SameOthers;
}

module _ {Z : Type 0} (os : System) (n start p : ℕ) (h : Pages) (sound : IsSound h)
    (top : start + n ≤ p) (run : PrivateRun h start (start + n)) where
  pub remap_region-Keeps :
      ((j : ℕ) → start ≤ j → j < start + n → 0 < sharers h j)
      → Keeps Z p h (remap_region os start n h)
  unfolding remap_region map_shared
  remap_region-Keeps shared = elim (Bool-cases (os.get_shared_region start n)) [
    | inl mapped ↦ rw mapped (
        Keeps-memory p _ (λ j le. outside_run start n p j _ _ top le) (λ j le. refl)
          (page_loop-Keeps remap_page-PageStep n start p h top sound run shared))
    | inr failed ↦ rw failed (Keeps-refl p h sound)
  ]

  pub copy_and_remap_region-Keeps :
      ((j : ℕ) → start ≤ j → j < start + n → sharers h j ≡ 0)
      → Keeps Z p h (copy_and_remap_region os start n h)
  unfolding copy_and_remap_region map_shared copy_to_shared
  copy_and_remap_region-Keeps alone = elim (Bool-cases (os.get_shared_region start n)) [
    | inl mapped ↦ rw mapped (
        Keeps-memory p _ (λ j le. outside_run start n p j _ _ top le)
          (λ j le. outside_run start n p j _ _ top le)
          (page_loop-Keeps copy_page-PageStep n start p h top sound run alone))
    | inr failed ↦ rw failed (Keeps-refl p h sound)
  ]

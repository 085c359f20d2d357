-- ===== src/Merge/Remaps.antt =====
-- SharedHeap.cpp: `RemapRegion`, `CopyAndRemapRegion` and `RemapToZero`, on the pages from an index on.
-- The success of `mmap` is given. `IsCloseToMmapLimit` returns false.
use sbllmalloc.Shared.{ℕ, zero, suc, ◌+◌, ◌*◌, Bool, true, false, ltb, if◌then◌else◌}
use sbllmalloc.Metadata.Bitmap.{set_bit, set_multi_bits}
use sbllmalloc.Pages.Memory.{map_shared, copy_to_shared, map_zero}
use sbllmalloc.Pages.State.{Pages, int_add, int_sub}
use sbllmalloc.Pages.Steps.{remap_page, copy_page}

-- What a merge sees of the system: whether `GetSharedRegion` maps a run of pages, and whether `mmap` maps the
-- zero page, and whether the page of the shared file is mapped beside it, in the buffer of 4 MB of
-- `MergeManyPages` or by `GetSharedPage` in `MergePages`.
pub record System : Type 0 where
  pub get_shared_region : ℕ → ℕ → Bool
  pub maps_zero_page : ℕ → Bool
  pub maps_buffer : ℕ → Bool

-- A loop over the pages from `i` on.
unfoldable pub page_loop : (ℕ → Pages → Pages) → ℕ → ℕ → Pages → Pages
page_loop step zero i h = h
page_loop step (suc n) i h = page_loop step n (i + 1) (step i h)

-- `zeroPageCount += 1; (*allProcPrivatePageCount)--`
unfoldable pub count_zero_page : Pages → Pages
count_zero_page h = record h {
  zero_page_count = int_add h.zero_page_count 1;
  all_proc_private_page_count = int_sub h.all_proc_private_page_count 1;
}

-- The state, and whether all pages were mapped.
unfoldable pub zero_loop : (ℕ → Bool) → ℕ → ℕ → Pages → Pages × Bool
zero_loop maps zero i h = (h, true)
zero_loop maps (suc n) i h =
    let rest =
      zero_loop maps n (i + 1) (count_zero_page (record h { memory = map_zero i h.memory })) in
    if maps i then rest else (h, false)

module _ (os : System) (start n : ℕ) (h : Pages) where
  unfoldable pub remap_region : Pages
  remap_region =
      if os.get_shared_region start n
      then record (page_loop remap_page n start h) { memory = map_shared start n h.memory }
      else h

  unfoldable pub copy_and_remap_region : Pages
  copy_and_remap_region =
      if os.get_shared_region start n
      then record (page_loop copy_page n start h) {
        memory = map_shared start n (copy_to_shared start n h.memory);
      }
      else h

  -- The bits are set when all pages are mapped.
  unfoldable pub remap_to_zero : Pages
  remap_to_zero =
      let (h', done) = zero_loop os.maps_zero_page n start h in
      let bits =
        if ltb 1 n
        then set_multi_bits 12 h'.zero_pages_bv start (n * 4096)
        else set_bit h'.zero_pages_bv start in
      if done then record h' { zero_pages_bv = bits } else h'

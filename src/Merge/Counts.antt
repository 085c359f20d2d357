-- ===== src/Merge/Counts.antt =====
-- SharedHeap.cpp: the shared counters while a run of pages is remapped.
use sbllmalloc.Shared.{ℕ, ◌+◌, ◌≤◌, ◌<◌, ◌≡◌, arith}
use sbllmalloc.Pages.State.{Pages}
use sbllmalloc.Pages.Account.{IsSound, sharers, Conserves}
use sbllmalloc.Merge.Remaps.{System, remap_region, copy_and_remap_region}
use sbllmalloc.Merge.Keeps.{PrivateRun}
use sbllmalloc.Merge.RemapLaws.{remap_region-Keeps, copy_and_remap_region-Keeps}

module _ (os : System) (total start n : ℕ) (h : Pages) (top : start + n ≤ total) (sound : IsSound h)
    (run : PrivateRun h start (start + n)) where
  -- The shared run.
  pub remap_region-Conserves :
      ((j : ℕ) → start ≤ j → j < start + n → 0 < sharers h j)
      → Conserves total h (remap_region os start n h)
  remap_region-Conserves shared =
      (remap_region-Keeps {Z = Unit {0}} os n start total h sound top run shared).still_counted tt
        total (omega arith)

  -- The copied run.
  pub copy_and_remap_region-Conserves :
      ((j : ℕ) → start ≤ j → j < start + n → sharers h j ≡ 0)
      → Conserves total h (copy_and_remap_region os start n h)
  copy_and_remap_region-Conserves alone =
      (copy_and_remap_region-Keeps {Z = Unit {0}} os n start total h sound top run
          alone).still_counted
        tt total (omega arith)

-- ===== src/Process/FaultPolicies.antt =====
-- SharedHeap.cpp: `SigSegvHandler` under each of the four policies, and on one fault after another.
use mathlib.Core.Option
use sbllmalloc.Shared.{ℕ, ◌-◌, ◌*◌, ◌/◌, ◌^◌, ◌<◌, ◌≢◌, List, [], ◌∷◌, Option, some}
use sbllmalloc.Contents.PageStates.{Agrees}
use sbllmalloc.Pages.Memory.{unmapped}
use sbllmalloc.Pages.State.{Pages}
use sbllmalloc.Pages.Account.{IsSound}
use sbllmalloc.Merge.Remaps.{System}
use sbllmalloc.Process.Calls.{Process, sig_segv_handler}
use sbllmalloc.Process.FaultNotes.{ReadyWith}

-- What the policy of a process relies on.
abbrev pub Ready : Process → Type 0
Ready p =
    ReadyWith p.heap.space p.heap.merge_metric p.heap.pages p.heap.alloc_record
      p.buffer_of_dirty_pages

-- The address lies in a page that is mapped, above the bottom of the heap and below its top.
abbrev pub InMappedPage : Process → ℕ → Type 0
InMappedPage p addr =
    (p.heap.space.bottom < addr / 4096 * 4096)
    × (addr < p.heap.space.top)
    × ((p.heap.pages.memory.frames ((addr / 4096 * 4096 - p.heap.space.bottom) / 2 ^ 12)).backing
        ≢ unmapped)

-- A process that can serve a fault.
pub record Serving (p : Process) : Type 0 where
  pub sound : IsSound p.heap.pages
  pub agrees : Agrees p.heap.pages
  pub ready : Ready p

-- One write fault after another.
unfoldable pub serve_faults : System → List ℕ → Process → Option Process
serve_faults os [] p = some p
serve_faults os (addr ∷ rest) p = Option.bind (sig_segv_handler os addr p) (serve_faults os rest)

-- ===== src/Merge/ManyLaws.antt =====
-- SharedHeap.cpp: `MergeManyPages`: its assertions, what it makes of each page, and what it counts.
use sbllmalloc.Shared.{ℕ, ◌+◌, ◌^◌, ◌<◌, ◌≤◌, ◌≡◌, refl, ap, arith, some}
use sbllmalloc.Metadata.Address.{heap_pages}
use sbllmalloc.Pages.State.{Pages}
use sbllmalloc.Pages.Sums.{sum_below}
use sbllmalloc.Pages.Account.{IsSound, Conserves}
use sbllmalloc.Merge.Remaps.{System}
use sbllmalloc.Merge.Many.{flush, merge_many_pages}
use sbllmalloc.Merge.Keeps.{Keeps, Keeps-refl, Keeps-trans}
use sbllmalloc.Merge.ZeroLaws.{AllMapped, AllBuffered}
use sbllmalloc.Merge.ManyLaws.Waits.{nothing, Waits-Keeps, flush_cases}
use sbllmalloc.Merge.ManyLaws.Rounds.{merge_loop-Waits}
use sbllmalloc.Merge.Marks.{Marks}
use sbllmalloc.Merge.ManyLaws.Progress.{to_zero, to_share, AllShared, Settled, flush-Settled}
use sbllmalloc.Merge.ManyLaws.Tally.{freed, merge_loop-flush-freed}
use sbllmalloc.Merge.ManyLaws.Outcome.{merge_loop-Settled}
pub mod Waits
pub mod Cases
pub mod Progress
pub mod Rounds
mod Outcome
pub mod Tally

-- It returns, and what the whole merge keeps.
pub merge_many_pages-Keeps :
    (os : System) (start n : ℕ) (h : Pages)
    → IsSound h
    → AllBuffered os
    → start + n ≤ heap_pages
    → (h' : Pages) × (merged : ℕ) × (merge_many_pages os start n h ≡ some (h', merged))
      × Keeps (AllMapped os) (start + n) h h'
unfolding merge_many_pages
merge_many_pages-Keeps os start n h sound all top =
    let (m', e, w) =
      merge_loop-Waits os h all n start _ top (nothing h 0 (Keeps-refl start h sound)) in
    (
      (flush os (start + n) m').pages,
      (flush os (start + n) m').counter_pages_merged,
      rw (merge_many_pages, e) refl,
      flush_cases (λ r. Keeps (AllMapped os) (start + n) h r.pages) os h (start + n) m' w
          (λ h' k keeps.
            Keeps-trans (start + n) (start + n) (omega arith) (Waits-Keeps (start + n) m' w) keeps),
    )

-- From sound metadata, `MergeManyPages` on any run of pages passes its assertions in every round,
-- returns, and leaves the metadata sound: no page is both zero and shared, and zero or shared
-- pages were written.
pub merge_many_pages-IsSound :
    (os : System) (start n : ℕ) (h : Pages)
    → IsSound h
    → AllBuffered os
    → start + n ≤ heap_pages
    → (h' : Pages) × (merged : ℕ) × (merge_many_pages os start n h ≡ some (h', merged)) × IsSound h'
merge_many_pages-IsSound os start n h sound all top =
    let (h', merged, e, keeps) = merge_many_pages-Keeps os start n h sound all top in
    (h', merged, e, keeps.still_sound)

-- From sound metadata, where every page can be mapped to the zero page, and the buffer in which
-- shared pages are compared is always mapped, `MergeManyPages` on a run of pages of the heap below
-- a bound returns, and moves the counters of private, shared and base-case pages by what the pages
-- below the bound count in the metadata.
pub merge_many_pages-Conserves :
    (os : System) (start n total : ℕ) (h : Pages)
    → IsSound h
    → AllBuffered os
    → start + n ≤ heap_pages
    → AllMapped os
    → start + n ≤ total
    → (h' : Pages) × (merged : ℕ) × (merge_many_pages os start n h ≡ some (h', merged))
      × Conserves total h h'
merge_many_pages-Conserves os start n total h sound all top mapped below =
    let (h', merged, e, keeps) = merge_many_pages-Keeps os start n h sound all top in
    (h', merged, e, keeps.still_counted mapped total below)

-- From sound metadata, where every page can be mapped to the zero page, every run of pages from
-- the shared file and the buffer in which shared pages are compared, `MergeManyPages` on a run of
-- pages of the heap returns, and each page of the metadata is then what it was before, but for the
-- private pages of the run: one of zeros is a zero page, and one of other contents that no process
-- shares, or that holds the contents in the shared file, is shared.
pub merge_many_pages-Marks :
    (os : System) (start n : ℕ) (h : Pages)
    → IsSound h
    → AllBuffered os
    → start + n ≤ heap_pages
    → AllMapped os
    → AllShared os
    → (h' : Pages) × (merged : ℕ) × (merge_many_pages os start n h ≡ some (h', merged))
      × Marks (to_share h start (start + n)) (to_zero h start (start + n)) h h'
unfolding merge_many_pages
merge_many_pages-Marks os start n h sound all top mapped shared =
    let (m', e, w, settled) =
      merge_loop-Settled os mapped shared all h start n start (omega arith) top _
        (nothing h 0 (Keeps-refl start h sound))
        (record {
          initialized_settled = λ j. refl;
          zero_settled = λ j. ground arith;
          shared_settled = λ j. ground arith;
        }) in
    (
      (flush os (start + n) m').pages,
      (flush os (start + n) m').counter_pages_merged,
      rw (merge_many_pages, e) refl,
      flush-Settled os mapped shared h start (start + n) m' w settled,
    )

-- From sound metadata, where the buffer in which shared pages are compared is always mapped,
-- `MergeManyPages` on a run of pages of the heap returns, and the number of merged pages that it
-- reports is the number of private pages of the run, as they were before, that are of zeros or
-- that other processes share with the same contents.
pub merge_many_pages-eq-freed :
    (os : System) (start n : ℕ) (h : Pages)
    → IsSound h
    → AllBuffered os
    → start + n ≤ heap_pages
    → (h' : Pages) × (merge_many_pages os start n h ≡ some (h', freed h start n))
unfolding merge_many_pages sum_below
merge_many_pages-eq-freed os start n h sound all top =
    let (m', e, counted) =
      merge_loop-flush-freed os h all start n top _ (nothing h 0 (Keeps-refl start h sound)) refl in
    (
      (flush os (start + n) m').pages,
      rw (merge_many_pages, e) (ap (λ c. some ((flush os (start + n) m').pages, c)) counted),
    )

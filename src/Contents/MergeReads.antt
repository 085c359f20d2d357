-- ===== src/Contents/MergeReads.antt =====
-- SharedHeap.cpp: what the processes read, over `MergeManyPages`, whether or not the system maps the pages.
use mathlib.Core.Path.{subst}
use sbllmalloc.Shared.{◌≤◌, ℕ, zero, suc, ◌+◌, ◌≡◌, refl, arith, some}
use sbllmalloc.Metadata.Address.{heap_pages}
use sbllmalloc.Pages.State.{Pages}
use sbllmalloc.Pages.Account.{IsSound}
use sbllmalloc.Merge.ZeroLaws.{AllBuffered}
use sbllmalloc.Merge.Remaps.{System}
use sbllmalloc.Merge.Many.{Outstanding, flush, merge_page, merge_loop, merge_many_pages}
use sbllmalloc.Merge.Keeps.{Keeps-refl}
use sbllmalloc.Merge.ManyLaws.Waits.{Waits, nothing, shareable, moveable, zeros, Waits-goes_on}
use sbllmalloc.Merge.ManyLaws.Cases.{merge_page_cases}
use sbllmalloc.Merge.ManyLaws.Rounds.{merge_page-Waits}
use sbllmalloc.Contents.Reads.{Transparent, Transparent-refl, Transparent-trans}
use sbllmalloc.Contents.FlushReads.{
  Compared, Compares, flush-Keeps, flush-Transparent, stop_here, start_zero, start_move,
  start_share, join_run,
}

module _ (os : System) (first : Pages) (p : ℕ) where
  merge_page-Compares :
      (m : Outstanding)
      → Waits os first p m
      → Compared p m
      → Compares os first p m (merge_page os p m)
  unfolding flush
  merge_page-Compares m (nothing h n keeps) c =
      let w = nothing h n keeps in
      merge_page_cases os p (Compares os first p m) m keeps.still_sound
        (λ no. stop_here os first p m w c) (λ here zc. start_zero os first p m w c zc)
        (λ here alone_here nzc. start_move os first p m w c)
        (λ here many_here nzc eq. start_share os first p m w c eq)
        (λ here many_here nzc ne. stop_here os first p m w c)
  merge_page-Compares m (shareable h n s keeps lt run many) c =
      let w = shareable h n s keeps lt run many in
      merge_page_cases os p (Compares os first p m) m keeps.still_sound
        (λ no. stop_here os first p m w c) (λ here zc. start_zero os first p m w c zc)
        (λ here alone_here nzc. start_move os first p m w c)
        (λ here many_here nzc eq. join_run os first p m w c (λ f. absurd (cc)) (λ f. eq))
        (λ here many_here nzc ne. stop_here os first p m w c)
  merge_page-Compares m (moveable h n s keeps lt run alone) c =
      let w = moveable h n s keeps lt run alone in
      merge_page_cases os p (Compares os first p m) m keeps.still_sound
        (λ no. stop_here os first p m w c) (λ here zc. start_zero os first p m w c zc)
        (λ here alone_here nzc. join_run os first p m w c (λ f. absurd (cc)) (λ f. absurd (cc)))
        (λ here many_here nzc eq. start_share os first p m w c eq)
        (λ here many_here nzc ne. stop_here os first p m w c)
  merge_page-Compares m (zeros h n s keeps lt run small) c =
      let w = zeros h n s keeps lt run small in
      merge_page_cases os p (Compares os first p m) m keeps.still_sound
        (λ no. stop_here os first p m w c)
        (λ here zc. join_run os first p m w c (λ f. zc) (λ f. absurd (cc)))
        (λ here alone_here nzc. start_move os first p m w c)
        (λ here many_here nzc eq. start_share os first p m w c eq)
        (λ here many_here nzc ne. stop_here os first p m w c)

merge_loop-Transparent :
    (os : System) (first : Pages)
    → AllBuffered os
    → (n p : ℕ) (m : Outstanding) → p + n ≤ heap_pages
    → Waits os first p m
    → Compared p m
    → (m' : Outstanding) × (merge_loop os n p m ≡ some m')
      × Waits os first (p + n) m'
      × Compared (p + n) m'
      × Transparent m.pages m'.pages
unfolding merge_loop
merge_loop-Transparent os first all zero p m top w c =
    let e : p ≡ p + 0 = omega arith in
    (
      m,
      refl,
      subst (λ q. Waits os first q m) e w,
      subst (λ q. Compared q m) e c,
      Transparent-refl m.pages,
    )
merge_loop-Transparent os first all (suc n) p m top w c =
    let next : p + 1 + n ≡ p + suc n = omega arith in
    let (here, compared) = merge_page-Compares os first p m w c in
    let (m', e, w', c', rest) =
      merge_loop-Transparent os first all n (p + 1) (merge_page os p m) (omega arith)
        (merge_page-Waits os first p m w (omega arith)) compared in
    (
      m',
      rw (Waits-goes_on all p m (omega arith) w) e,
      subst (λ q. Waits os first q m') next w',
      subst (λ q. Compared q m') next c',
      Transparent-trans here rest,
    )

-- From sound metadata, where the buffer in which shared pages are compared is always mapped,
-- whichever other mappings the system makes or refuses, `MergeManyPages` on a run of pages of the
-- heap passes its assertions in every round and returns with sound metadata; the process then
-- reads the same bytes of all its pages as before, the bits of the other processes are as they
-- were, and so is each page of the shared file that another process has.
pub merge_many_pages-Transparent :
    (os : System) (start n : ℕ) (h : Pages)
    → IsSound h
    → AllBuffered os
    → start + n ≤ heap_pages
    → (h' : Pages) × (merged : ℕ) × (merge_many_pages os start n h ≡ some (h', merged))
      × IsSound h'
      × Transparent h h'
unfolding merge_many_pages
merge_many_pages-Transparent os start n h sound all top =
    let (m', e, w, c, rounds) =
      merge_loop-Transparent os h all n start _ top (nothing h 0 (Keeps-refl start h sound))
        (λ s none_there. absurd (cc)) in
    (
      (flush os (start + n) m').pages,
      (flush os (start + n) m').counter_pages_merged,
      rw (merge_many_pages, e) refl,
      (flush-Keeps os h (start + n) m' w).still_sound,
      Transparent-trans rounds (flush-Transparent os h (start + n) m' w c),
    )

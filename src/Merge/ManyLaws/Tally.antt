-- ===== src/Merge/ManyLaws/Tally.antt =====
-- SharedHeap.cpp: `counter_pages_merged` of `MergeManyPages`, in its rounds.
use mathlib.Core.Path.{subst, sym}
use sbllmalloc.Merge.Keeps.{still_zero, still_same}
use sbllmalloc.Shared.{
  ℕ, zero, suc, ◌+◌, ◌-◌, ◌^◌, ◌≤◌, ◌<◌, ◌≡◌, refl, arith, ◌&&◌, ◌||◌, none, some, ltb,
  if◌then◌else◌, Bool-cases, inl, inr,
}
use sbllmalloc.Pages.Sums.{sum_below}
use sbllmalloc.Pages.Memory.{is_zero_content, same_content}
use sbllmalloc.Metadata.Address.{heap_pages}
use sbllmalloc.Pages.State.{Pages}
use sbllmalloc.Pages.Account.{is_private, sharers}
use sbllmalloc.Merge.ZeroLaws.{AllBuffered}
use sbllmalloc.Merge.Remaps.{System}
use sbllmalloc.Merge.Many.{Outstanding, flush, merge_page, merge_loop}
use sbllmalloc.Merge.ManyLaws.Waits.{Waits, nothing, shareable, moveable, zeros, Waits-goes_on}
use sbllmalloc.Merge.ManyLaws.Cases.{merge_page_cases}
use sbllmalloc.Merge.ManyLaws.Rounds.{merge_page-Waits}

-- The frames that the merge of a page frees: that of a private page of zeros, or of the contents that
-- its sharers have.
abbrev frees : Pages → ℕ → ℕ
frees h j =
    if is_private h j
      && (is_zero_content h.memory j || (ltb 0 (sharers h j) && same_content h.memory j))
    then 1
    else 0

abbrev pub freed : Pages → ℕ → ℕ → ℕ
freed h start n = sum_below n (λ k. frees h (start + k))

freed_le : (h : Pages) (start n : ℕ) → freed h start n ≤ n
unfolding sum_below
freed_le h start zero = omega arith
freed_le h start (suc n) =
    let rest = freed_le h start n in
    elim (Bool-cases (
      is_private h (start + n)
      && (is_zero_content h.memory (start + n)
          || (ltb 0 (sharers h (start + n)) && same_content h.memory (start + n))))) [
            | inl yes_one ↦ rw yes_one (omega arith)
            | inr no_one ↦ rw no_one (omega arith)
          ]

-- The pages that wait and that the next flush counts
abbrev uncounted : Outstanding → ℕ → ℕ
uncounted m p =
    if m.last_page_shareable || m.last_page_zero
    then elim m.mergeable_start_addr [ none ↦ 0 | some s ↦ p - s ]
    else 0

-- The counter, with the pages that wait, is the number of frames that the rounds so far free.
abbrev pub Tallied : Pages → ℕ → ℕ → Outstanding → Type 0
Tallied first start k m = m.counter_pages_merged + uncounted m (start + k) ≡ freed first start k

module _ (os : System) (first : Pages) (start k : ℕ) (small : k < 2 ^ 31) where
  abbrev p : ℕ
  p = start + k

  flush-Tallied :
      (m : Outstanding)
      → Waits os first p m
      → Tallied first start k m
      → (flush os p m).counter_pages_merged ≡ freed first start k
  unfolding flush
  flush-Tallied _ (nothing h n keeps) tallied = omega (arith, tallied)
  flush-Tallied _ (shareable h n s keeps lt run many) tallied =
      omega (arith, tallied, freed_le first start k)
  flush-Tallied _ (moveable h n s keeps lt run alone) tallied = omega (arith, tallied)
  flush-Tallied _ (zeros h n s keeps lt run small) tallied =
      omega (arith, tallied, freed_le first start k)

  merge_page-Tallied :
      (m : Outstanding)
      → Waits os first p m
      → Tallied first start k m
      → Tallied first start (suc k) (merge_page os p m)
  unfolding flush sum_below
  merge_page-Tallied m (nothing h n keeps) tallied =
      let flushed = flush-Tallied m (nothing h n keeps) tallied in
      let same = keeps.still_private p (omega arith) in
      let others = keeps.still_sharers p (omega arith) in
      let zero_content = still_zero keeps p (omega arith) in
      let same_bytes_there = still_same keeps p (omega arith) in
      merge_page_cases os p (Tallied first start (suc k)) m keeps.still_sound (λ no. ground arith)
        (λ here zc. ground arith) (λ here alone_here nzc. ground arith)
        (λ here many_here nzc eq. ground arith) (λ here many_here nzc ne. ground arith)
  merge_page-Tallied m (shareable h n s keeps lt run many) tallied =
      let flushed = flush-Tallied m (shareable h n s keeps lt run many) tallied in
      let same = keeps.still_private p (omega arith) in
      let others = keeps.still_sharers p (omega arith) in
      let zero_content = still_zero keeps p (omega arith) in
      let same_bytes_there = still_same keeps p (omega arith) in
      merge_page_cases os p (Tallied first start (suc k)) m keeps.still_sound (λ no. ground arith)
        (λ here zc. ground arith) (λ here alone_here nzc. ground arith)
        (λ here many_here nzc eq. ground arith) (λ here many_here nzc ne. ground arith)
  merge_page-Tallied m (moveable h n s keeps lt run alone) tallied =
      let flushed = flush-Tallied m (moveable h n s keeps lt run alone) tallied in
      let same = keeps.still_private p (omega arith) in
      let others = keeps.still_sharers p (omega arith) in
      let zero_content = still_zero keeps p (omega arith) in
      let same_bytes_there = still_same keeps p (omega arith) in
      merge_page_cases os p (Tallied first start (suc k)) m keeps.still_sound (λ no. ground arith)
        (λ here zc. ground arith) (λ here alone_here nzc. ground arith)
        (λ here many_here nzc eq. ground arith) (λ here many_here nzc ne. ground arith)
  merge_page-Tallied m (zeros h n s keeps lt run small) tallied =
      let flushed = flush-Tallied m (zeros h n s keeps lt run small) tallied in
      let same = keeps.still_private p (omega arith) in
      let others = keeps.still_sharers p (omega arith) in
      let zero_content = still_zero keeps p (omega arith) in
      let same_bytes_there = still_same keeps p (omega arith) in
      merge_page_cases os p (Tallied first start (suc k)) m keeps.still_sound (λ no. ground arith)
        (λ here zc. ground arith) (λ here alone_here nzc. ground arith)
        (λ here many_here nzc eq. ground arith) (λ here many_here nzc ne. ground arith)

merge_loop-Tallied :
    (os : System) (first : Pages)
    → AllBuffered os
    → (start n k : ℕ) → start + k + n ≤ heap_pages
    → (m : Outstanding) → Waits os first (start + k) m
    → Tallied first start k m
    → (m' : Outstanding) × (merge_loop os n (start + k) m ≡ some m')
      × Waits os first (start + (k + n)) m'
      × Tallied first start (k + n) m'
unfolding merge_loop
merge_loop-Tallied os first all start zero k top m w tallied =
    let e : k ≡ k + 0 = omega arith in
    (
      m,
      refl,
      subst (λ q. Waits os first (start + q) m) e w,
      subst (λ q. Tallied first start q m) e tallied,
    )
merge_loop-Tallied os first all start (suc n) k top m w tallied =
    let page = merge_page os (start + k) m in
    let next : start + k + 1 ≡ start + suc k = omega arith in
    let last : suc k + n ≡ k + suc n = omega arith in
    let (m', e, w', tallied') =
      merge_loop-Tallied os first all start n (suc k) (omega arith) page
        (subst (λ q. Waits os first q page) next
          (merge_page-Waits os first (start + k) m w (omega arith)))
        (merge_page-Tallied os first start k (omega arith) m w tallied) in
    (
      m',
      rw (Waits-goes_on all (start + k) m (omega arith) w)
          (subst (λ q. merge_loop os n q page ≡ some m') (sym next) e),
      subst (λ q. Waits os first (start + q) m') last w',
      subst (λ q. Tallied first start q m') last tallied',
    )

pub merge_loop-flush-freed :
    (os : System) (first : Pages)
    → AllBuffered os
    → (start n : ℕ) → start + n ≤ heap_pages
    → (m : Outstanding) → Waits os first start m
    → Tallied first start 0 m
    → (m' : Outstanding) × (merge_loop os n start m ≡ some m')
      × ((flush os (start + n) m').counter_pages_merged ≡ freed first start n)
merge_loop-flush-freed os first all start n top m w tallied =
    let here : start + 0 ≡ start = omega arith in
    let whole : 0 + n ≡ n = omega arith in
    let (m', e, w', tallied') =
      merge_loop-Tallied os first all start n 0 (omega arith) m
        (subst (λ p. Waits os first p m) (sym here) w) tallied in
    (
      m',
      subst (λ p. merge_loop os n p m ≡ some m') here e,
      flush-Tallied os first start n (omega arith) m'
          (subst (λ k. Waits os first (start + k) m') whole w')
          (subst (λ k. Tallied first start k m') whole tallied'),
    )

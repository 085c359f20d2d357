-- ===== src/Merge/ManyLaws/Outcome.antt =====
-- SharedHeap.cpp: a round of the loop of `MergeManyPages` makes its page what a merge makes of it.
use mathlib.Core.Path.{subst}
use sbllmalloc.Merge.Keeps.{still_zero, still_same}
use sbllmalloc.Shared.{
  ℕ, zero, suc, ◌+◌, ◌≤◌, ◌<◌, ◌≡◌, refl, arith, Bool, true, false, not, ◌&&◌, ◌||◌, some, ◌==◌,
}
use sbllmalloc.Pages.Memory.{is_zero_content, same_content}
use sbllmalloc.Metadata.Address.{heap_pages}
use sbllmalloc.Pages.State.{Pages}
use sbllmalloc.Pages.Account.{is_private, sharers}
use sbllmalloc.Merge.Remaps.{System}
use sbllmalloc.Merge.Many.{Outstanding, flush, merge_page, merge_loop}
use sbllmalloc.Merge.ZeroLaws.{AllBuffered, AllMapped}
use sbllmalloc.Merge.Marks.{Marks}
use sbllmalloc.Merge.ManyLaws.Waits.{Waits, nothing, shareable, moveable, zeros, Waits-goes_on}
use sbllmalloc.Merge.ManyLaws.Cases.{merge_page_cases}
use sbllmalloc.Merge.ManyLaws.Rounds.{merge_page-Waits}
use sbllmalloc.Merge.ManyLaws.Progress.{
  to_zero, to_share, AllShared, Settled, flush-Settled, to_zero-next, to_share-next,
}

module _ (os : System) (mapped : AllMapped os) (shared : AllShared os) (first : Pages) (start p : ℕ)
    (from : start ≤ p) where
  abbrev zeroes_here : Bool
  zeroes_here = is_private first p && is_zero_content first.memory p

  abbrev shares_here : Bool
  shares_here =
      is_private first p
      && not (is_zero_content first.memory p)
      && (sharers first p == 0 || same_content first.memory p)

  abbrev Flushed : Outstanding → Type 0
  Flushed m = Marks (to_share first start p) (to_zero first start p) first (flush os p m).pages

  -- After a flush: nothing waits, or the page starts a run.
  stop_here :
      (m : Outstanding)
      → Flushed m
      → zeroes_here ≡ false
      → shares_here ≡ false
      → Settled first start (p + 1) (flush os p m)
  unfolding flush
  stop_here m marks no_zero no_share = record {
    initialized_settled = marks.marks_initialized;
    zero_settled = λ j. ground (arith, marks.marks_zero j, to_zero-next first start p j from);
    shared_settled = λ j. ground (arith, marks.marks_shared j, to_share-next first start p j from);
  }

  start_zero :
      (m : Outstanding)
      → Flushed m
      → zeroes_here ≡ true
      → shares_here ≡ false
      → Settled first start
          (p + 1)
          (record (flush os p m) { mergeable_start_addr = some p; last_page_zero = true })
  unfolding flush
  start_zero m marks is_zero_page no_share = record {
    initialized_settled = marks.marks_initialized;
    zero_settled = λ j. ground (arith, marks.marks_zero j, to_zero-next first start p j from);
    shared_settled = λ j. ground (arith, marks.marks_shared j, to_share-next first start p j from);
  }

  start_move :
      (m : Outstanding)
      → Flushed m
      → zeroes_here ≡ false
      → shares_here ≡ true
      → Settled first start
          (p + 1)
          (record (flush os p m) { mergeable_start_addr = some p; last_page_moveable = true })
  unfolding flush
  start_move m marks no_zero shares = record {
    initialized_settled = marks.marks_initialized;
    zero_settled = λ j. ground (arith, marks.marks_zero j, to_zero-next first start p j from);
    shared_settled = λ j. ground (arith, marks.marks_shared j, to_share-next first start p j from);
  }

  start_share :
      (m : Outstanding)
      → Flushed m
      → zeroes_here ≡ false
      → shares_here ≡ true
      → Settled first start
          (p + 1)
          (record (flush os p m) { mergeable_start_addr = some p; last_page_shareable = true })
  unfolding flush
  start_share m marks no_zero shares = record {
    initialized_settled = marks.marks_initialized;
    zero_settled = λ j. ground (arith, marks.marks_zero j, to_zero-next first start p j from);
    shared_settled = λ j. ground (arith, marks.marks_shared j, to_share-next first start p j from);
  }

  -- The page joins the run that waits.
  join_run :
      (m : Outstanding) (s : ℕ)
      → s < p
      → Settled first start p (record m { mergeable_start_addr = some s })
      → m.last_page_zero ≡ zeroes_here
      → (m.last_page_shareable || m.last_page_moveable) ≡ shares_here
      → Settled first start (p + 1) (record m { mergeable_start_addr = some s })
  join_run m s lt settled zero_flag share_flag = record {
    initialized_settled = settled.initialized_settled;
    zero_settled = λ j. ground (arith, settled.zero_settled j, to_zero-next first start p j from);
    shared_settled =
        λ j. ground (arith, settled.shared_settled j, to_share-next first start p j from);
  }

  pub merge_page-Settled :
      (m : Outstanding)
      → Waits os first p m
      → Settled first start p m
      → Settled first start (p + 1) (merge_page os p m)
  unfolding flush
  merge_page-Settled m (nothing h n keeps) settled =
      let marks = flush-Settled os mapped shared first start p m (nothing h n keeps) settled in
      let same = keeps.still_private p (omega arith) in
      let others = keeps.still_sharers p (omega arith) in
      let zero_content = still_zero keeps p (omega arith) in
      let same_bytes_there = still_same keeps p (omega arith) in
      merge_page_cases os p (Settled first start (p + 1)) m keeps.still_sound
        (λ no. stop_here m marks (ground arith) (ground arith))
        (λ here zc. start_zero m marks (ground arith) (ground arith))
        (λ here alone nzc. start_move m marks (ground arith) (ground arith))
        (λ here many nzc eq. start_share m marks (ground arith) (ground arith))
        (λ here many nzc ne. stop_here m marks (ground arith) (ground arith))
  merge_page-Settled m (shareable h n s keeps lt run many) settled =
      let marks =
        flush-Settled os mapped shared first start p m (shareable h n s keeps lt run many)
          settled in
      let same = keeps.still_private p (omega arith) in
      let others = keeps.still_sharers p (omega arith) in
      let zero_content = still_zero keeps p (omega arith) in
      let same_bytes_there = still_same keeps p (omega arith) in
      merge_page_cases os p (Settled first start (p + 1)) m keeps.still_sound
        (λ no. stop_here m marks (ground arith) (ground arith))
        (λ here zc. start_zero m marks (ground arith) (ground arith))
        (λ here alone nzc. start_move m marks (ground arith) (ground arith))
        (λ here many nzc eq. join_run m s lt settled (ground arith) (ground arith))
        (λ here many nzc ne. stop_here m marks (ground arith) (ground arith))
  merge_page-Settled m (moveable h n s keeps lt run alone) settled =
      let marks =
        flush-Settled os mapped shared first start p m (moveable h n s keeps lt run alone)
          settled in
      let same = keeps.still_private p (omega arith) in
      let others = keeps.still_sharers p (omega arith) in
      let zero_content = still_zero keeps p (omega arith) in
      let same_bytes_there = still_same keeps p (omega arith) in
      merge_page_cases os p (Settled first start (p + 1)) m keeps.still_sound
        (λ no. stop_here m marks (ground arith) (ground arith))
        (λ here zc. start_zero m marks (ground arith) (ground arith))
        (λ here alone nzc. join_run m s lt settled (ground arith) (ground arith))
        (λ here many nzc eq. start_share m marks (ground arith) (ground arith))
        (λ here many nzc ne. stop_here m marks (ground arith) (ground arith))
  merge_page-Settled m (zeros h n s keeps lt run small) settled =
      let marks =
        flush-Settled os mapped shared first start p m (zeros h n s keeps lt run small) settled in
      let same = keeps.still_private p (omega arith) in
      let others = keeps.still_sharers p (omega arith) in
      let zero_content = still_zero keeps p (omega arith) in
      let same_bytes_there = still_same keeps p (omega arith) in
      merge_page_cases os p (Settled first start (p + 1)) m keeps.still_sound
        (λ no. stop_here m marks (ground arith) (ground arith))
        (λ here zc. join_run m s lt settled (ground arith) (ground arith))
        (λ here alone nzc. start_move m marks (ground arith) (ground arith))
        (λ here many nzc eq. start_share m marks (ground arith) (ground arith))
        (λ here many nzc ne. stop_here m marks (ground arith) (ground arith))

pub merge_loop-Settled :
    (os : System)
    → AllMapped os
    → AllShared os
    → AllBuffered os
    → (first : Pages) (start n p : ℕ) → start ≤ p
    → p + n ≤ heap_pages
    → (m : Outstanding) → Waits os first p m
    → Settled first start p m
    → (m' : Outstanding) × (merge_loop os n p m ≡ some m')
      × Waits os first (p + n) m'
      × Settled first start (p + n) m'
unfolding merge_loop
merge_loop-Settled os mapped shared all first start zero p from top m w settled =
    let e : p ≡ p + 0 = omega arith in
    (m, refl, subst (λ q. Waits os first q m) e w, subst (λ q. Settled first start q m) e settled)
merge_loop-Settled os mapped shared all first start (suc n) p from top m w settled =
    let next : p + 1 + n ≡ p + suc n = omega arith in
    let (m', e, w', settled') =
      merge_loop-Settled os mapped shared all first start n (p + 1) (omega arith) (omega arith)
        (merge_page os p m) (merge_page-Waits os first p m w (omega arith))
        (merge_page-Settled os mapped shared first start p from m w settled) in
    (
      m',
      rw (Waits-goes_on all p m (omega arith) w) e,
      subst (λ q. Waits os first q m') next w',
      subst (λ q. Settled first start q m') next settled',
    )

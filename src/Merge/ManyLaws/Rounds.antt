-- ===== src/Merge/ManyLaws/Rounds.antt =====
-- SharedHeap.cpp: a round of the loop of `MergeManyPages`, and the loop.
use mathlib.Core.Path.{sym, subst}
use sbllmalloc.Shared.{
  ℕ, zero, suc, ◌+◌, ◌<◌, ◌≤◌, ◌^◌, ◌≡◌, refl, ◌∙◌, arith, true, some, if◌then◌else◌,
}
use sbllmalloc.Metadata.Address.{heap_pages}
use sbllmalloc.Pages.State.{Pages}
use sbllmalloc.Pages.Account.{is_private, sharers}
use sbllmalloc.Merge.Remaps.{System}
use sbllmalloc.Merge.Many.{Outstanding, is_some, flush, merge_page, merge_loop}
use sbllmalloc.Merge.Keeps.{PrivateRun, Keeps, Keeps-refl, Keeps-trans}
use sbllmalloc.Merge.ZeroLaws.{AllMapped, AllBuffered}
use sbllmalloc.Merge.ManyLaws.Cases.{merge_page_cases}
use sbllmalloc.Merge.ManyLaws.Waits.{
  SharedRun, Waits, nothing, shareable, moveable, zeros, Waits-goes_on, Waits-Keeps, flush_cases,
  extend_run, single_run, Keeps-next,
}

module _ (os : System) (first : Pages) (p : ℕ) where
  -- A page after which nothing waits
  flush-Waits : (m : Outstanding) → Waits os first p m → Waits os first (p + 1) (flush os p m)
  flush-Waits m w = flush_cases (Waits os first (p + 1)) os first p m w (λ h' n keeps.
      nothing h' n (Keeps-next p (Keeps-trans p p (omega arith) (Waits-Keeps p m w) keeps)))

  flush-flush-Waits :
      (m : Outstanding) → Waits os first p m → Waits os first (p + 1) (flush os p (flush os p m))
  flush-flush-Waits m w =
      flush_cases (λ r. Waits os first (p + 1) (flush os p r)) os first p m w
        (λ h' n keeps.
          flush-Waits _ (nothing h' n (Keeps-trans p p (omega arith) (Waits-Keeps p m w) keeps)))

  -- A run that starts at `p`
  single_private :
      {h h' : Pages} → Keeps (AllMapped os) p h h' → is_private h p ≡ true → PrivateRun h' p (p + 1)
  single_private {h} {h'} keeps here =
      single_run (λ j. is_private h' j ≡ true) p (keeps.still_private p (omega arith) ∙ here)

  single_sharers :
      (Q : ℕ → Type 0) {h h' : Pages}
      → Keeps (AllMapped os) p h h'
      → Q (sharers h p)
      → SharedRun Q h' p (p + 1)
  single_sharers Q {h} {h'} keeps here =
      single_run (λ j. Q (sharers h' j)) p
        (subst Q (sym (keeps.still_sharers p (omega arith))) here)

  zeros_here :
      (m : Outstanding)
      → Waits os first p m
      → is_private m.pages p ≡ true
      → p + 1 < 2 ^ 31
      → Waits os first
          (p + 1)
          (record (flush os p m) { mergeable_start_addr = some p; last_page_zero = true })
  zeros_here m w here small =
      flush_cases
        (λ r.
          Waits os first (p + 1)
            (record r { mergeable_start_addr = some p; last_page_zero = true }))
        os first p m w
        (λ h' n keeps.
          zeros h' n p (Keeps-next p (Keeps-trans p p (omega arith) (Waits-Keeps p m w) keeps))
            (omega arith) (single_private keeps here) small)

  moveable_here :
      (m : Outstanding)
      → Waits os first p m
      → is_private m.pages p ≡ true
      → sharers m.pages p ≡ 0
      → Waits os first
          (p + 1)
          (record (flush os p m) { mergeable_start_addr = some p; last_page_moveable = true })
  moveable_here m w here alone =
      flush_cases
        (λ r.
          Waits os first (p + 1)
            (record r { mergeable_start_addr = some p; last_page_moveable = true }))
        os first p m w
        (λ h' n keeps.
          moveable h' n p (Keeps-next p (Keeps-trans p p (omega arith) (Waits-Keeps p m w) keeps))
            (omega arith) (single_private keeps here) (single_sharers (λ k. k ≡ 0) keeps alone))

  shareable_here :
      (m : Outstanding)
      → Waits os first p m
      → is_private m.pages p ≡ true
      → 0 < sharers m.pages p
      → Waits os first (p + 1) (
          if is_some (flush os p m).mergeable_start_addr
          then flush os p m
          else record (flush os p m) { mergeable_start_addr = some p; last_page_shareable = true })
  shareable_here m w here others =
      flush_cases
        (λ r. Waits os first (p + 1) (
          if is_some r.mergeable_start_addr
          then r
          else record r { mergeable_start_addr = some p; last_page_shareable = true }))
        os first p m w
        (λ h' n keeps.
          shareable h' n p (Keeps-next p (Keeps-trans p p (omega arith) (Waits-Keeps p m w) keeps))
            (omega arith) (single_private keeps here) (single_sharers (λ k. 0 < k) keeps others))

  pub merge_page-Waits :
      (m : Outstanding)
      → Waits os first p m
      → p + 1 < 2 ^ 31
      → Waits os first (p + 1) (merge_page os p m)
  merge_page-Waits m (nothing h n keeps) below =
      let w = nothing h n keeps in
      let stay = Keeps-refl p h keeps.still_sound in
      merge_page_cases os p (Waits os first (p + 1)) m keeps.still_sound (λ no. flush-Waits m w)
        (λ here zc. zeros h n p (Keeps-next p keeps) (omega arith) (single_private stay here) below)
        (λ here alone nzc.
          moveable h n p (Keeps-next p keeps) (omega arith) (single_private stay here)
            (single_sharers (λ k. k ≡ 0) stay alone))
        (λ here others nzc same. shareable_here m w here others)
        (λ here others nzc differs. flush-flush-Waits m w)
  merge_page-Waits m (shareable h n s keeps lt run shared) below =
      let w = shareable h n s keeps lt run shared in
      merge_page_cases os p (Waits os first (p + 1)) m keeps.still_sound (λ no. flush-Waits m w)
        (λ here zc. zeros_here m w here below) (λ here alone nzc. moveable_here m w here alone)
        (λ here others nzc same.
          shareable h n s (Keeps-next p keeps) (omega arith)
            (extend_run (λ j. is_private h j ≡ true) s p run here)
            (extend_run (λ j. 0 < sharers h j) s p shared others))
        (λ here others nzc differs. flush-Waits m w)
  merge_page-Waits m (moveable h n s keeps lt run alone) below =
      let w = moveable h n s keeps lt run alone in
      merge_page_cases os p (Waits os first (p + 1)) m keeps.still_sound (λ no. flush-Waits m w)
        (λ here zc. zeros_here m w here below)
        (λ here none_here nzc.
          moveable h n s (Keeps-next p keeps) (omega arith)
            (extend_run (λ j. is_private h j ≡ true) s p run here)
            (extend_run (λ j. sharers h j ≡ 0) s p alone none_here))
        (λ here others nzc same. shareable_here m w here others)
        (λ here others nzc differs. flush-flush-Waits m w)
  merge_page-Waits m (zeros h n s keeps lt run small) below =
      let w = zeros h n s keeps lt run small in
      merge_page_cases os p (Waits os first (p + 1)) m keeps.still_sound (λ no. flush-Waits m w)
        (λ here zc.
          zeros h n s (Keeps-next p keeps) (omega arith)
            (extend_run (λ j. is_private h j ≡ true) s p run here) below)
        (λ here alone nzc. moveable_here m w here alone)
        (λ here others nzc same. shareable_here m w here others)
        (λ here others nzc differs. flush-flush-Waits m w)

pub merge_loop-Waits :
    (os : System) (first : Pages)
    → AllBuffered os
    → (n p : ℕ) (m : Outstanding) → p + n ≤ heap_pages
    → Waits os first p m
    → (m' : Outstanding) × (merge_loop os n p m ≡ some m') × Waits os first (p + n) m'
unfolding merge_loop
merge_loop-Waits os first all zero p m top w =
    (m, refl, subst (λ q. Waits os first q m) (omega arith) w)
merge_loop-Waits os first all (suc n) p m top w =
    let (m', e, w') =
      merge_loop-Waits os first all n (p + 1) (merge_page os p m) (omega arith)
        (merge_page-Waits os first p m w (omega arith)) in
    (
      m',
      rw (Waits-goes_on all p m (omega arith) w) e,
      subst (λ q. Waits os first q m') (omega arith) w',
    )

-- ===== src/Merge/Countdown.antt =====
-- SharedHeap.cpp: the countdown of `MergeByTHRESHOLD` over successive calls, each of which finds the tree and
-- the pages as they are then.
use sbllmalloc.Shared.{
  inr, inl, Bool-cases, ℕ, zero, suc, ◌-◌, ◌≤◌, ◌<◌, ◌≡◌, refl, ap, ◌∙◌, arith, false, some, ◌==◌,
  if◌then◌else◌,
}
use sbllmalloc.Avl.Tree.{AvlTreeData}
use sbllmalloc.Metadata.Address.{Space}
use sbllmalloc.Pages.State.{Pages, int_add, int_sub}
use sbllmalloc.Merge.Remaps.{System}
use sbllmalloc.Merge.Policies.{int_ge, merge_all, merge_by_threshold}

-- `*allProcPrivatePageCount + *sharedPageCount`
abbrev pub frames_used : Pages → ℕ
frames_used h = int_add h.all_proc_private_page_count h.shared_page_count

module _ (os : System) (space : Space) (trees : ℕ → AvlTreeData) (pages : ℕ → Pages) where
  -- `countDownTimer` and `mergeMinMemTh` after some calls
  unfoldable pub timer_after : ℕ → ℕ → ℕ → ℕ × ℕ
  timer_after zero timer least = (timer, least)
  timer_after (suc n) timer least =
      let (timer', least') = timer_after n timer least in
      let (timer'', least'', h, tree) =
        merge_by_threshold os space timer' least' (trees n) (pages n) in
      (timer'', least'')

  early_call :
      (timer least : ℕ) (tree : AvlTreeData) (h : Pages)
      → 1 < timer
      → timer ≤ 100
      → merge_by_threshold os space timer least tree h ≡ (timer - 1, least, some h, tree)
  unfolding merge_by_threshold
  early_call timer least tree h more low =
      let left : int_sub timer 1 ≡ timer - 1 = omega arith in
      let waits : (timer - 1 == 0) ≡ false = ground arith in rw (left, waits) refl

  pub timer_after-early :
      (n timer least : ℕ) → n < timer → timer ≤ 100 → timer_after n timer least ≡ (timer - n, least)
  unfolding timer_after
  timer_after-early zero timer least more low = ap (λ t. (t, least)) (omega arith)
  timer_after-early (suc n) timer least more low =
      let before = timer_after-early n timer least (omega arith) low in
      let this = early_call (timer - n) least (trees n) (pages n) (omega arith) (omega arith) in
      ap
        (λ (s : ℕ × ℕ).
          let r = merge_by_threshold os space s.0 s.1 (trees n) (pages n) in (r.0, r.1))
        before
      ∙ ap (λ r. (r.0, r.1)) this
      ∙ ap (λ t. (t, least)) (omega arith)

  last_call :
      (least : ℕ) (tree : AvlTreeData) (h : Pages)
      → merge_by_threshold os space 1 least tree h ≡ (
          if int_ge (frames_used h) least
          then (let (h', tree') = merge_all os space tree h in (100, frames_used h, h', tree'))
          else (100, least, some h, tree))
  unfolding merge_by_threshold
  last_call least tree h = refl

  -- With a timer from 1 to 100, whatever tree and pages each call finds, each call of
  -- `MergeByTHRESHOLD` before the timer is 1 only takes one off it and leaves the threshold, the
  -- pages and the tree; the call that finds it 1 resets it to 100, and merges all regions and
  -- raises the threshold to the frames in use exactly if these have reached the threshold.
  pub merge_by_threshold-due :
      (n timer least : ℕ)
      → n < timer
      → timer ≤ 100
      → let (t, l) = timer_after n timer least in
        let tree = trees n in
        let h = pages n in
        merge_by_threshold os space t l tree h ≡ (
          if timer - n == 1
          then (if int_ge (frames_used h) least
              then (let (h', tree') = merge_all os space tree h in (100, frames_used h, h', tree'))
              else (100, least, some h, tree))
          else (timer - n - 1, least, some h, tree))
  merge_by_threshold-due n timer least before low =
      ap (λ (s : ℕ × ℕ). merge_by_threshold os space s.0 s.1 (trees n) (pages n))
        (timer_after-early n timer least before low)
      ∙ elim (Bool-cases (timer - n == 1)) [
        | inl last ↦
            let one : timer - n ≡ 1 = ground arith in
            rw (last, one) (last_call least (trees n) (pages n))
        | inr more ↦
            rw more (early_call (timer - n) least (trees n) (pages n) (ground arith) (omega arith))
      ]

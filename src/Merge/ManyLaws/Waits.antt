-- ===== src/Merge/ManyLaws/Waits.antt =====
-- SharedHeap.cpp: the pages that wait in `MergeManyPages`, and `FLUSH_OUTSTANDING_MERGES`.
use mathlib.Core.Path.{subst}
use native.Mathlib.Decide.{dec_lt}
use sbllmalloc.Shared.{◌^◌, ℕ, ◌+◌, ◌-◌, ◌≤◌, ◌<◌, ◌≡◌, refl, arith, true, false, none, some}
use sbllmalloc.Metadata.Address.{heap_pages}
use sbllmalloc.Pages.State.{Pages}
use sbllmalloc.Pages.Account.{sharers}
use sbllmalloc.Merge.Remaps.{System}
use sbllmalloc.Merge.Many.{Outstanding, is_consistent, goes_on, remap_run, flush}
use sbllmalloc.Merge.Keeps.{PrivateRun, Keeps, Keeps-refl, Keeps-trans}
use sbllmalloc.Merge.RemapLaws.{remap_region-Keeps, copy_and_remap_region-Keeps}
use sbllmalloc.Merge.ZeroLaws.{AllMapped, AllBuffered, remap_to_zero-Keeps}

-- The sharers of all pages from `s` up to but not `p`.
abbrev pub SharedRun : (ℕ → Type 0) → Pages → ℕ → ℕ → Type 0
SharedRun Q h s p = (j : ℕ) → s ≤ j → j < p → Q (sharers h j)

-- At page `p`, the pages that wait are private and of one kind, and all since `first` is kept.
pub data Waits (os : System) (first : Pages) (p : ℕ) : Outstanding → Type 0 where
  nothing :
      (h : Pages) (n : ℕ)
      → Keeps (AllMapped os) p first h
      → Waits os first p (record {
        pages = h;
        mergeable_start_addr = none;
        last_page_shareable = false;
        last_page_moveable = false;
        last_page_zero = false;
        counter_pages_merged = n;
      })
  shareable :
      (h : Pages) (n s : ℕ)
      → Keeps (AllMapped os) p first h
      → s < p
      → PrivateRun h s p
      → SharedRun (λ k. 0 < k) h s p
      → Waits os first p (record {
        pages = h;
        mergeable_start_addr = some s;
        last_page_shareable = true;
        last_page_moveable = false;
        last_page_zero = false;
        counter_pages_merged = n;
      })
  moveable :
      (h : Pages) (n s : ℕ)
      → Keeps (AllMapped os) p first h
      → s < p
      → PrivateRun h s p
      → SharedRun (λ k. k ≡ 0) h s p
      → Waits os first p (record {
        pages = h;
        mergeable_start_addr = some s;
        last_page_shareable = false;
        last_page_moveable = true;
        last_page_zero = false;
        counter_pages_merged = n;
      })
  zeros :
      (h : Pages) (n s : ℕ)
      → Keeps (AllMapped os) p first h
      → s < p
      → PrivateRun h s p
      → p < 2 ^ 31
      → Waits os first p (record {
        pages = h;
        mergeable_start_addr = some s;
        last_page_shareable = false;
        last_page_moveable = false;
        last_page_zero = true;
        counter_pages_merged = n;
      })

Waits-is_consistent :
    {os : System} {first : Pages} (p : ℕ) (m : Outstanding)
    → Waits os first p m
    → is_consistent m ≡ true
unfolding is_consistent
Waits-is_consistent p _ (nothing h n keeps) = refl
Waits-is_consistent p _ (shareable h n s keeps lt run shared) = refl
Waits-is_consistent p _ (moveable h n s keeps lt run alone) = refl
Waits-is_consistent p _ (zeros h n s keeps lt run small) = refl

pub Waits-goes_on :
    {os : System} {first : Pages}
    → AllBuffered os
    → (p : ℕ) (m : Outstanding) → p < heap_pages
    → Waits os first p m
    → goes_on os p m ≡ true
unfolding goes_on
Waits-goes_on all p m low w = ground (arith, Waits-is_consistent p m w, all p)

pub Waits-Keeps :
    {os : System} {first : Pages} (p : ℕ) (m : Outstanding)
    → Waits os first p m
    → Keeps (AllMapped os) p first m.pages
Waits-Keeps p _ (nothing h n keeps) = keeps
Waits-Keeps p _ (shareable h n s keeps lt run shared) = keeps
Waits-Keeps p _ (moveable h n s keeps lt run alone) = keeps
Waits-Keeps p _ (zeros h n s keeps lt run small) = keeps

-- After a flush nothing waits.
pub flush_cases {ℓ} :
    (P : Outstanding → Type ℓ) (os : System) (first : Pages) (p : ℕ) (m : Outstanding)
    → Waits os first p m
    → ((h' : Pages) (n : ℕ)
        → Keeps (AllMapped os) p m.pages h'
        → P (record {
          pages = h';
          mergeable_start_addr = none;
          last_page_shareable = false;
          last_page_moveable = false;
          last_page_zero = false;
          counter_pages_merged = n;
        }))
    → P (flush os p m)
unfolding flush remap_run
flush_cases P os first p _ (nothing h n keeps) case = case h n (Keeps-refl p h keeps.still_sound)
flush_cases P os first p _ (shareable h n s keeps lt run shared) case = case _ _ (
    remap_region-Keeps os (p - s) s p h keeps.still_sound (omega arith)
      (λ j low high. run j low (omega arith)) (λ j low high. shared j low (omega arith)))
flush_cases P os first p _ (moveable h n s keeps lt run alone) case = case _ _ (
    copy_and_remap_region-Keeps os (p - s) s p h keeps.still_sound (omega arith)
      (λ j low high. run j low (omega arith)) (λ j low high. alone j low (omega arith)))
flush_cases P os first p _ (zeros h n s keeps lt run small) case = case _ _ (
    remap_to_zero-Keeps os (p - s) s p h keeps.still_sound (omega arith) (omega arith) (omega arith)
      (λ j low high. run j low (omega arith)))

-- What holds of the pages up to `p` and of `p` holds up to the next page.
pub extend_run {ℓ} :
    (P : ℕ → Type ℓ) (s p : ℕ)
    → ((j : ℕ) → s ≤ j → j < p → P j)
    → P p
    → (j : ℕ) → s ≤ j
    → j < p + 1
    → P j
extend_run P s p run here j low high = elim (dec_lt j p) [
  | yes lt ↦ run j low lt
  | no ge ↦ let e : p ≡ j = omega arith in subst P (e) here
]

pub single_run {ℓ} : (P : ℕ → Type ℓ) (p : ℕ) → P p → (j : ℕ) → p ≤ j → j < p + 1 → P j
single_run P p here j low high = let e : p ≡ j = omega arith in subst P (e) here

pub Keeps-next : {Z : Type 0} (p : ℕ) {h h' : Pages} → Keeps Z p h h' → Keeps Z (p + 1) h h'
Keeps-next p {h} {h'} keeps =
    Keeps-trans p (p + 1) (omega arith) keeps (Keeps-refl (p + 1) h' keeps.still_sound)

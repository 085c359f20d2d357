-- ===== src/Merge/ManyLaws/Progress.antt =====
-- SharedHeap.cpp: what `MergeManyPages` makes of each page, in its rounds.
use mathlib.Core.Path.{subst}
use native.Mathlib.Decide.{ℕ_discrete}
use sbllmalloc.Shared.{
  ℕ, ◌+◌, ◌-◌, ◌≤◌, ◌≡◌, ◌∙◌, arith, Bool, true, false, not, ◌&&◌, ◌||◌, none, some, leb, ltb, ◌==◌,
}
use sbllmalloc.Metadata.BitmapLaws.{in_range}
use sbllmalloc.Pages.Memory.{is_zero_content, same_content}
use sbllmalloc.Pages.State.{Pages}
use sbllmalloc.Pages.Account.{is_initialized, is_zero, is_shared, is_private, sharers}
use sbllmalloc.Merge.Remaps.{System}
use sbllmalloc.Merge.Many.{Outstanding, remap_run, flush}
use sbllmalloc.Merge.ZeroLaws.{AllMapped}
use sbllmalloc.Merge.Marks.{
  Marks, Marks-none, remap_region-Marks, copy_and_remap_region-Marks, remap_to_zero-Marks,
}
use sbllmalloc.Merge.ManyLaws.Waits.{Waits, nothing, shareable, moveable, zeros}

-- The private pages from `start` up to but not `p` that a merge maps to the zero page: those of zeros.
abbrev pub to_zero : Pages → ℕ → ℕ → ℕ → Bool
to_zero h start p j = leb start j && ltb j p && is_private h j && is_zero_content h.memory j

-- Those that it maps to the shared file: the others that no process shares, or of the same contents.
abbrev pub to_share : Pages → ℕ → ℕ → ℕ → Bool
to_share h start p j =
    leb start j
    && ltb j p
    && is_private h j
    && not (is_zero_content h.memory j)
    && (sharers h j == 0 || same_content h.memory j)

-- Every run can be mapped from the shared file.
abbrev pub AllShared : System → Type 0
AllShared os = (s n : ℕ) → os.get_shared_region s n ≡ true

abbrev pending : Outstanding → ℕ → ℕ → Bool
pending m p j = elim m.mergeable_start_addr [ none ↦ false | some s ↦ in_range s (p - s) j ]

-- With the pages that wait, each page is what a merge makes of it.
pub record Settled (first : Pages) (start p : ℕ) (m : Outstanding) : Type 0 where
  pub initialized_settled : (j : ℕ) → is_initialized m.pages j ≡ is_initialized first j
  pub zero_settled :
      (j : ℕ)
      → (is_zero m.pages j || (m.last_page_zero && pending m p j))
        ≡ (is_zero first j || to_zero first start p j)
  pub shared_settled :
      (j : ℕ)
      → (is_shared m.pages j || ((m.last_page_shareable || m.last_page_moveable) && pending m p j))
        ≡ (is_shared first j || to_share first start p j)

module _ (os : System) (mapped : AllMapped os) (shared : AllShared os) (first : Pages)
    (start p : ℕ) where
  flush-Marks :
      (m : Outstanding)
      → Waits os first p m
      → Marks
          (λ j. (m.last_page_shareable || m.last_page_moveable) && pending m p j)
          (λ j. m.last_page_zero && pending m p j)
          m.pages
          (flush os p m).pages
  unfolding flush remap_run
  flush-Marks _ (nothing h n keeps) = Marks-none h
  flush-Marks _ (shareable h n s keeps lt run others) =
      let sound = keeps.still_sound in
      remap_region-Marks os (p - s) s h (shared s (p - s)) (sound.known, sound.fits)
  flush-Marks _ (moveable h n s keeps lt run alone) =
      let sound = keeps.still_sound in
      copy_and_remap_region-Marks os (p - s) s h (shared s (p - s)) (sound.known, sound.fits)
  flush-Marks _ (zeros h n s keeps lt run small) =
      remap_to_zero-Marks os (p - s) s h mapped keeps.still_sound (omega arith) (omega arith)

  pub flush-Settled :
      (m : Outstanding)
      → Waits os first p m
      → Settled first start p m
      → Marks (to_share first start p) (to_zero first start p) first (flush os p m).pages
  flush-Settled m w settled =
      let marks = flush-Marks m w in
      record {
        marks_initialized = λ j. marks.marks_initialized j ∙ settled.initialized_settled j;
        marks_zero = λ j. marks.marks_zero j ∙ settled.zero_settled j;
        marks_shared = λ j. marks.marks_shared j ∙ settled.shared_settled j;
      }

module _ (first : Pages) (start p : ℕ) where
  pub to_zero-next :
      (j : ℕ)
      → start ≤ p
      → to_zero first start (p + 1) j ≡ (
          to_zero first start p j
          || (j == p && (is_private first p && is_zero_content first.memory p)))
  to_zero-next j le = elim (ℕ_discrete p j) [
    | yes e ↦
        subst
          (λ q. to_zero first start (p + 1) q ≡ (
            to_zero first start p q
            || (q == p && (is_private first p && is_zero_content first.memory p))))
          e (ground arith)
    | no ne ↦ ground arith
  ]

  pub to_share-next :
      (j : ℕ)
      → start ≤ p
      → to_share first start (p + 1) j ≡ (
          to_share first start p j
          || (j == p
              && (is_private first p
                  && not (is_zero_content first.memory p)
                  && (sharers first p == 0 || same_content first.memory p))))
  to_share-next j le = elim (ℕ_discrete p j) [
    | yes e ↦
        subst
          (λ q. to_share first start (p + 1) q ≡ (
            to_share first start p q
            || (q == p
                && (is_private first p
                    && not (is_zero_content first.memory p)
                    && (sharers first p == 0 || same_content first.memory p)))))
          e (ground arith)
    | no ne ↦ ground arith
  ]

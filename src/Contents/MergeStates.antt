-- ===== src/Contents/MergeStates.antt =====
-- SharedHeap.cpp: the mappings and the metadata, over `MergeManyPages`.
use mathlib.Core.Path.{subst, sym}
use sbllmalloc.Shared.{
  ◌^◌, ◌≤◌, ℕ, zero, suc, ◌+◌, ◌-◌, ◌*◌, ◌<◌, ◌≡◌, refl, ap, ◌∙◌, arith, none, some, ltb,
  Bool-cases, inl, inr, if◌then◌else◌,
}
use sbllmalloc.Metadata.Bitmap.{set_bit, set_multi_bits}
use sbllmalloc.Pages.Memory.{in_run, map_shared, copy_to_shared}
use sbllmalloc.Metadata.Address.{heap_pages}
use sbllmalloc.Pages.State.{Pages}
use sbllmalloc.Pages.Account.{IsSound}
use sbllmalloc.Merge.Remaps.{System, remap_region, copy_and_remap_region, remap_to_zero}
use sbllmalloc.Merge.Many.{Outstanding, remap_run, flush, merge_page, merge_loop, merge_many_pages}
use sbllmalloc.Merge.Keeps.{PrivateRun, Keeps-refl}
use sbllmalloc.Merge.Marks.{remap_region-Marks, copy_and_remap_region-Marks}
use sbllmalloc.Merge.ZeroLaws.{AllBuffered, AllMapped, zero_loop_cases, zero_bits_set}
use sbllmalloc.Merge.ManyLaws.Waits.{Waits, nothing, shareable, moveable, zeros, Waits-goes_on}
use sbllmalloc.Merge.ManyLaws.Cases.{merge_page_cases}
use sbllmalloc.Merge.ManyLaws.Rounds.{merge_page-Waits, merge_loop-Waits}
use sbllmalloc.Contents.PageStates.{as_zero, as_shared, Agrees, PageState-cast}

module _ (os : System) (start n : ℕ) (h : Pages) (sound : IsSound h) (agrees : Agrees h)
    (run : PrivateRun h start (start + n)) where
  remap_region-Agrees : Agrees (remap_region os start n h)
  unfolding remap_region map_shared
  remap_region-Agrees j = elim (Bool-cases (os.get_shared_region start n)) [
    | inr failed ↦ rw failed (agrees j)
    | inl mapped ↦
        let marks = remap_region-Marks os n start h mapped (sound.known, sound.fits) in
        elim (Bool-cases (in_run start n j)) [
          | inl here ↦
              let private = run j (ground arith) (ground arith) in
              PageState-cast (rw (mapped, here) refl) (ground (arith, marks.marks_initialized j))
                (ground (arith, marks.marks_zero j)) (ground (arith, marks.marks_shared j))
                as_shared
          | inr out ↦
              PageState-cast (rw (mapped, out) refl) (ground (arith, marks.marks_initialized j))
                (ground (arith, marks.marks_zero j)) (ground (arith, marks.marks_shared j))
                (agrees j)
        ]
  ]

  copy_and_remap_region-Agrees : Agrees (copy_and_remap_region os start n h)
  unfolding copy_and_remap_region map_shared copy_to_shared
  copy_and_remap_region-Agrees j = elim (Bool-cases (os.get_shared_region start n)) [
    | inr failed ↦ rw failed (agrees j)
    | inl mapped ↦
        let marks = copy_and_remap_region-Marks os n start h mapped (sound.known, sound.fits) in
        elim (Bool-cases (in_run start n j)) [
          | inl here ↦
              let private = run j (ground arith) (ground arith) in
              PageState-cast (rw (mapped, here) refl) (ground (arith, marks.marks_initialized j))
                (ground (arith, marks.marks_zero j)) (ground (arith, marks.marks_shared j))
                as_shared
          | inr out ↦
              PageState-cast (rw (mapped, out) refl) (ground (arith, marks.marks_initialized j))
                (ground (arith, marks.marks_zero j)) (ground (arith, marks.marks_shared j))
                (agrees j)
        ]
  ]

  remap_to_zero-Agrees : AllMapped os → 0 < n → n < 2 ^ 31 → Agrees (remap_to_zero os start n h)
  unfolding remap_to_zero
  remap_to_zero-Agrees mapped some_page small =
      zero_loop_cases
        (λ h' done. Agrees (
          if done
          then record h' {
            zero_pages_bv =
                if ltb 1 n
                then set_multi_bits 12 h'.zero_pages_bv start (n * 4096)
                else set_bit h'.zero_pages_bv start;
          }
          else h'))
        os.maps_zero_page n start h
        (λ c d mem done zeroed counted all j. rw (all mapped) (
          let bits = (zero_bits_set start n h sound some_page small j).1 in
          elim (Bool-cases (in_run start n j)) [
            | inl here ↦
                let private = run j (ground arith) (ground arith) in
                PageState-cast (zeroed.inside (all mapped) j here) (ground arith)
                  (ground (arith, bits)) (ground arith) as_zero
            | inr out ↦
                PageState-cast (zeroed.elsewhere j out) refl (ground (arith, bits)) refl (agrees j)
          ]))

module _ (os : System) (first : Pages) (p : ℕ) where
  flush-Agrees :
      AllMapped os
      → (m : Outstanding) → Waits os first p m
      → Agrees m.pages
      → Agrees (flush os p m).pages
  unfolding flush remap_run
  flush-Agrees mapped _ (nothing h n keeps) agrees = agrees
  flush-Agrees mapped _ (shareable h n s keeps lt run many) agrees =
      remap_region-Agrees os s (p - s) h keeps.still_sound agrees
        (λ j low high. run j low (omega arith))
  flush-Agrees mapped _ (moveable h n s keeps lt run alone) agrees =
      copy_and_remap_region-Agrees os s (p - s) h keeps.still_sound agrees
        (λ j low high. run j low (omega arith))
  flush-Agrees mapped _ (zeros h n s keeps lt run small) agrees =
      remap_to_zero-Agrees os s (p - s) h keeps.still_sound agrees
        (λ j low high. run j low (omega arith)) mapped (omega arith) (omega arith)

  -- A round leaves the pages, or flushes.
  merge_page_either :
      (P : Pages → Type 0) (m : Outstanding)
      → Waits os first p m
      → P m.pages
      → P (flush os p m).pages
      → P (merge_page os p m).pages
  unfolding flush
  merge_page_either P m (nothing h n keeps) before after =
      merge_page_cases os p (λ r. P r.pages) m keeps.still_sound (λ no. after) (λ here zc. after)
        (λ here alone_here nzc. after) (λ here many_here nzc eq. after)
        (λ here many_here nzc ne. after)
  merge_page_either P m (shareable h n s keeps lt run many) before after =
      merge_page_cases os p (λ r. P r.pages) m keeps.still_sound (λ no. after) (λ here zc. after)
        (λ here alone_here nzc. after) (λ here many_here nzc eq. before)
        (λ here many_here nzc ne. after)
  merge_page_either P m (moveable h n s keeps lt run alone) before after =
      merge_page_cases os p (λ r. P r.pages) m keeps.still_sound (λ no. after) (λ here zc. after)
        (λ here alone_here nzc. before) (λ here many_here nzc eq. after)
        (λ here many_here nzc ne. after)
  merge_page_either P m (zeros h n s keeps lt run small) before after =
      merge_page_cases os p (λ r. P r.pages) m keeps.still_sound (λ no. after) (λ here zc. before)
        (λ here alone_here nzc. after) (λ here many_here nzc eq. after)
        (λ here many_here nzc ne. after)

-- What the flushes keep, all rounds and the last flush keep.
module _ (os : System) (first : Pages) (K : Pages → Type 0) (all : AllBuffered os)
    (flush_keeps : (p : ℕ) (m : Outstanding)
      → Waits os first p m
      → K m.pages
      → K (flush os p m).pages) where
  merge_loop-keeps :
      (n p : ℕ) (m m' : Outstanding)
      → p + n ≤ heap_pages
      → Waits os first p m
      → K m.pages
      → merge_loop os n p m ≡ some m'
      → Waits os first (p + n) m' × K m'.pages
  unfolding merge_loop
  merge_loop-keeps zero p m m' top w kept e =
      let same : m ≡ m' = cc in
      let stop : p ≡ p + 0 = omega arith in
      subst (λ r. Waits os first (p + 0) r × K r.pages) same
        (subst (λ q. Waits os first q m) stop w, kept)
  merge_loop-keeps (suc n) p m m' top w kept e =
      let next : p + 1 + n ≡ p + suc n = omega arith in
      let (w', kept') =
        merge_loop-keeps n (p + 1) (merge_page os p m) m' (omega arith)
          (merge_page-Waits os first p m w (omega arith))
          (merge_page_either os first p K m w kept (flush_keeps p m w kept))
          (ap (λ c. if c then merge_loop os n (p + 1) (merge_page os p m) else none)
              (sym (Waits-goes_on all p m (omega arith) w))
            ∙ e) in
      (subst (λ q. Waits os first q m') next w', kept')

  pub merge_many_pages-keeps :
      (start n : ℕ)
      → IsSound first
      → start + n ≤ heap_pages
      → K first
      → (h' : Pages) × (merged : ℕ) × (merge_many_pages os start n first ≡ some (h', merged)) × K h'
  unfolding merge_many_pages
  merge_many_pages-keeps start n sound top kept =
      let w = nothing first 0 (Keeps-refl start first sound) in
      let (m', e, waits) = merge_loop-Waits os first all n start _ top w in
      let (w', kept') = merge_loop-keeps n start _ m' top w kept e in
      (
        (flush os (start + n) m').pages,
        (flush os (start + n) m').counter_pages_merged,
        rw (merge_many_pages, e) refl,
        flush_keeps (start + n) m' w' kept',
      )

pub merge_many_pages-Agrees :
    (os : System) (start n : ℕ) (h : Pages)
    → IsSound h
    → AllBuffered os
    → start + n ≤ heap_pages
    → AllMapped os
    → Agrees h
    → (h' : Pages) × (merged : ℕ) × (merge_many_pages os start n h ≡ some (h', merged)) × Agrees h'
merge_many_pages-Agrees os start n h sound all top mapped agrees =
    merge_many_pages-keeps os h (λ r. Agrees r) all
      (λ p m w agrees. flush-Agrees os h p mapped m w agrees) start n sound top agrees

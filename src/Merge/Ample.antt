-- ===== src/Merge/Ample.antt =====
-- SharedHeap.cpp: a run of `MergeManyPages` that returns is also one where the buffer is always mapped.
use sbllmalloc.Shared.{
  ◌⊎◌, sym, Option, ℕ, zero, suc, ◌+◌, ◌≡◌, refl, ap, ◌∙◌, arith, true, false, none, some,
  Bool-cases, inl, inr, if◌then◌else◌,
}
use sbllmalloc.Pages.State.{Pages}
use sbllmalloc.Merge.Remaps.{System, remap_region, copy_and_remap_region, remap_to_zero}
use sbllmalloc.Merge.Many.{
  Outstanding, goes_on, remap_run, flush, merge_page, merge_loop, merge_many_pages,
}
use sbllmalloc.Merge.ZeroLaws.{AllBuffered}

loop_cases : (o : Option Outstanding) → (o ≡ none) ⊎ ((m' : Outstanding) × (o ≡ some m'))
loop_cases none = inl refl
loop_cases (some m') = inr (m', refl)

module _ (os : System) where
  abbrev pub ample : System
  ample = record {
    get_shared_region = os.get_shared_region;
    maps_zero_page = os.maps_zero_page;
    maps_buffer = λ i. true;
  }

  pub ample-AllBuffered : AllBuffered ample
  ample-AllBuffered j = refl

  merge_page-ample : (p : ℕ) (m : Outstanding) → merge_page os p m ≡ merge_page ample p m
  unfolding merge_page flush remap_run remap_region copy_and_remap_region remap_to_zero
  merge_page-ample p m = refl

  flush-ample : (p : ℕ) (m : Outstanding) → flush os p m ≡ flush ample p m
  unfolding flush remap_run remap_region copy_and_remap_region remap_to_zero
  flush-ample p m = refl

  goes_on-ample : (p : ℕ) (m : Outstanding) → goes_on os p m ≡ true → goes_on ample p m ≡ true
  unfolding goes_on
  goes_on-ample p m e = ground (arith, e)

  merge_loop-ample :
      (n p : ℕ) (m m' : Outstanding)
      → merge_loop os n p m ≡ some m'
      → merge_loop ample n p m ≡ some m'
  unfolding merge_loop
  merge_loop-ample zero p m m' e = e
  merge_loop-ample (suc n) p m m' e = elim (Bool-cases (goes_on os p m)) [
    | inr ends ↦
        let none_there : (if goes_on os p m
              then merge_loop os n (p + 1) (merge_page os p m)
              else none)
            ≡ none =
          rw ends refl in
        absurd (cc)
    | inl on ↦
        let rest = merge_loop-ample n (p + 1) (merge_page os p m) m' (
          sym (ap (λ c. if c then merge_loop os n (p + 1) (merge_page os p m) else none) on) ∙ e) in
        ap (λ c. if c then merge_loop ample n (p + 1) (merge_page ample p m) else none)
          (goes_on-ample p m on)
        ∙ ap (merge_loop ample n (p + 1)) (sym (merge_page-ample p m))
        ∙ rest
  ]

  pub merge_many_pages-ample :
      (start n : ℕ) (h h' : Pages) (merged : ℕ)
      → merge_many_pages os start n h ≡ some (h', merged)
      → merge_many_pages ample start n h ≡ some (h', merged)
  unfolding merge_many_pages
  merge_many_pages-ample start n h h' merged e =
      let m : Outstanding = record {
        pages = h;
        mergeable_start_addr = none;
        last_page_shareable = false;
        last_page_moveable = false;
        last_page_zero = false;
        counter_pages_merged = 0;
      } in
      elim (loop_cases (merge_loop os n start m)) [
        | inl ends ↦
            let none_there : merge_many_pages os start n h ≡ none =
              rw (merge_many_pages, ends) refl in
            absurd (cc)
        | inr (m', done) ↦
            let last = flush os (start + n) m' in
            let ran : merge_many_pages os start n h ≡ some (last.pages, last.counter_pages_merged) =
              rw (merge_many_pages, done) refl in
            rw (merge_many_pages, merge_loop-ample n start m m' done)
              (ap (λ r. some (r.pages, r.counter_pages_merged)) (sym (flush-ample (start + n) m'))
                ∙ sym ran
                ∙ e)
      ]

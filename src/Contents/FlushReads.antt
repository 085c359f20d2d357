-- ===== src/Contents/FlushReads.antt =====
-- SharedHeap.cpp: what the processes read, over `FLUSH_OUTSTANDING_MERGES`, whether or not the system maps the
-- pages.
use mathlib.Core.Path.{subst}
use sbllmalloc.Shared.{
  ℕ, ◌+◌, ◌-◌, ◌*◌, ◌≤◌, ◌<◌, ◌≡◌, refl, ◌∙◌, arith, true, some, ltb, Bool-cases, inl, inr,
  if◌then◌else◌,
}
use sbllmalloc.Metadata.Bitmap.{set_bit, set_multi_bits}
use sbllmalloc.Pages.Memory.{in_run, is_zero_content, same_content, map_shared, copy_to_shared}
use sbllmalloc.Pages.State.{Pages}
use sbllmalloc.Pages.Account.{IsSound, sharers}
use sbllmalloc.Pages.Others.{SameOthers}
use sbllmalloc.Merge.Remaps.{System, remap_region, copy_and_remap_region, remap_to_zero}
use sbllmalloc.Merge.Many.{Outstanding, remap_run, flush}
use sbllmalloc.Merge.Keeps.{Keeps, still_zero, still_same}
use sbllmalloc.Merge.ZeroLaws.{AllMapped, zero_loop_cases}
use sbllmalloc.Merge.ManyLaws.Waits.{
  Waits, nothing, shareable, moveable, zeros, flush_cases, extend_run,
}
use sbllmalloc.Contents.Reads.{Transparent, Transparent-refl}
use sbllmalloc.Contents.RunReads.{
  map_shared-SameReads, map_copied-SameReads, zeroed-SameReads, nobody_shares,
}

module _ (os : System) (start n : ℕ) (h : Pages) where
  remap_region-Transparent :
      SameOthers h (remap_region os start n h)
      → ((j : ℕ) → in_run start n j ≡ true → same_content h.memory j ≡ true)
      → Transparent h (remap_region os start n h)
  unfolding remap_region
  remap_region-Transparent others same = elim (Bool-cases (os.get_shared_region start n)) [
    | inl mapped ↦ record {
      same_reads = rw mapped (map_shared-SameReads start n h.memory same);
      same_others = others;
      kept_file = λ r j lt ne e. rw mapped (unfold map_shared in refl);
    }
    | inr failed ↦ rw failed (Transparent-refl h)
  ]

  copy_and_remap_region-Transparent :
      SameOthers h (copy_and_remap_region os start n h)
      → IsSound h
      → ((j : ℕ) → in_run start n j ≡ true → sharers h j ≡ 0)
      → Transparent h (copy_and_remap_region os start n h)
  unfolding copy_and_remap_region
  copy_and_remap_region-Transparent others sound alone =
      elim (Bool-cases (os.get_shared_region start n)) [
        | inl mapped ↦ record {
          same_reads = rw mapped (map_copied-SameReads start n h.memory);
          same_others = others;
          kept_file = λ r j lt ne e. elim (Bool-cases (in_run start n j)) [
            | inl here ↦ absurd (nobody_shares h r j sound lt (alone j here) e)
            | inr out ↦ rw mapped (unfold map_shared copy_to_shared in rw out refl)
          ];
        }
        | inr failed ↦ rw failed (Transparent-refl h)
      ]

  remap_to_zero-Transparent :
      SameOthers h (remap_to_zero os start n h)
      → ((j : ℕ) → in_run start n j ≡ true → is_zero_content h.memory j ≡ true)
      → Transparent h (remap_to_zero os start n h)
  unfolding remap_to_zero
  remap_to_zero-Transparent others zero_there =
      zero_loop_cases
        (λ h' done.
          let after =
            if done
            then record h' {
              zero_pages_bv =
                  if ltb 1 n
                  then set_multi_bits 12 h'.zero_pages_bv start (n * 4096)
                  else set_bit h'.zero_pages_bv start;
            }
            else h' in
          SameOthers h after → Transparent h after)
        os.maps_zero_page n start h
        (λ c d mem done zeroed counted all. elim (Bool-cases done) [
          | inl success ↦ rw success (λ o. record {
            same_reads = zeroed-SameReads start n h.memory mem done zeroed zero_there;
            same_others = o;
            kept_file = λ r j lt ne e. zeroed.same_file j;
          })
          | inr failed ↦ rw failed (λ o. record {
            same_reads = zeroed-SameReads start n h.memory mem done zeroed zero_there;
            same_others = o;
            kept_file = λ r j lt ne e. zeroed.same_file j;
          })
        ])
        others

-- What the comparisons have told of the pages that wait.
abbrev pub Compared : ℕ → Outstanding → Type 0
Compared p m =
    (s : ℕ)
    → m.mergeable_start_addr ≡ some s
    → (j : ℕ) → s ≤ j
    → j < p
    → (m.last_page_zero ≡ true → is_zero_content m.pages.memory j ≡ true)
      × (m.last_page_shareable ≡ true → same_content m.pages.memory j ≡ true)

module _ (os : System) (first : Pages) (p : ℕ) where
  pub flush-Keeps :
      (m : Outstanding) → Waits os first p m → Keeps (AllMapped os) p m.pages (flush os p m).pages
  flush-Keeps m w =
      flush_cases (λ r. Keeps (AllMapped os) p m.pages r.pages) os first p m w (λ h' n keeps. keeps)

  pub flush-Transparent :
      (m : Outstanding)
      → Waits os first p m
      → Compared p m
      → Transparent m.pages (flush os p m).pages
  unfolding flush remap_run
  flush-Transparent _ (nothing h n keeps) compared = Transparent-refl h
  flush-Transparent m (shareable h n s keeps lt run many) compared =
      remap_region-Transparent os s (p - s) h
        (flush-Keeps m (shareable h n s keeps lt run many)).still_others
        (λ j here. (compared s refl j (ground arith) (ground arith)).1 refl)
  flush-Transparent m (moveable h n s keeps lt run alone) compared =
      copy_and_remap_region-Transparent os s (p - s) h
        (flush-Keeps m (moveable h n s keeps lt run alone)).still_others keeps.still_sound
        (λ j here. alone j (ground arith) (ground arith))
  flush-Transparent m (zeros h n s keeps lt run small) compared =
      remap_to_zero-Transparent os s (p - s) h
        (flush-Keeps m (zeros h n s keeps lt run small)).still_others
        (λ j here. (compared s refl j (ground arith) (ground arith)).0 refl)

  -- The pages that wait after a page
  abbrev pub Compares : Outstanding → Outstanding → Type 0
  Compares m r = Transparent m.pages r.pages × Compared (p + 1) r

  module _ (m : Outstanding) (w : Waits os first p m) (compared : Compared p m) where
    pub stop_here : Compares m (flush os p m)
    unfolding flush
    stop_here = (flush-Transparent m w compared, λ s e j low high. absurd (cc))

    pub start_zero :
        is_zero_content m.pages.memory p ≡ true
        → Compares m
            (record (flush os p m) { mergeable_start_addr = some p; last_page_zero = true })
    unfolding flush
    start_zero zero_there = (
      flush-Transparent m w compared,
      λ s e j low high.
          let here : p ≡ j = ground arith in
          (
            λ flag.
                subst (λ q. is_zero_content (flush os p m).pages.memory q ≡ true) here
                  (still_zero (flush-Keeps m w) p (omega arith) ∙ zero_there),
            λ flag. absurd (cc),
          ),
    )

    pub start_move :
        Compares m
          (record (flush os p m) { mergeable_start_addr = some p; last_page_moveable = true })
    unfolding flush
    start_move = (
      flush-Transparent m w compared,
      λ s e j low high. (λ flag. absurd (cc), λ flag. absurd (cc)),
    )

    pub start_share :
        same_content m.pages.memory p ≡ true
        → Compares m
            (record (flush os p m) { mergeable_start_addr = some p; last_page_shareable = true })
    unfolding flush
    start_share same = (
      flush-Transparent m w compared,
      λ s e j low high.
          let here : p ≡ j = ground arith in
          (
            λ flag. absurd (cc),
            λ flag.
                subst (λ q. same_content (flush os p m).pages.memory q ≡ true) here
                  (still_same (flush-Keeps m w) p (omega arith) ∙ same),
          ),
    )

    -- The page joins the run that waits.
    pub join_run :
        (m.last_page_zero ≡ true → is_zero_content m.pages.memory p ≡ true)
        → (m.last_page_shareable ≡ true → same_content m.pages.memory p ≡ true)
        → Compares m m
    join_run zero_there same = (
      Transparent-refl m.pages,
      λ s e.
          extend_run
            (λ j.
              (m.last_page_zero ≡ true → is_zero_content m.pages.memory j ≡ true)
              × (m.last_page_shareable ≡ true → same_content m.pages.memory j ≡ true))
            s p (compared s e) (zero_there, same),
    )

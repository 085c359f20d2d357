-- ===== src/Merge/ZeroFailure.antt =====
-- SharedHeap.cpp: `RemapToZero` where `mmap` refuses a page in the middle of the run.
use sbllmalloc.Shared.{
  ℕ, zero, suc, ◌+◌, ◌*◌, ◌%◌, ◌^◌, ◌≤◌, ◌<◌, ◌≡◌, refl, ap, ◌∙◌, arith, Bool, true, false, ltb,
  if◌then◌else◌,
}
use mathlib.Core.Path.{subst, sym}
use sbllmalloc.Metadata.Bitmap.{set_bit, set_multi_bits}
use native.Mathlib.Decide.{ℕ_discrete}
use sbllmalloc.Pages.Memory.{Memory, in_run, map_zero}
use sbllmalloc.Merge.ZeroMapped.{zero_frame}
use sbllmalloc.Pages.Steps.{fault_page, handle_fault, change_mapping, private_page}
use sbllmalloc.Pages.StepLaws.Fault.Bits.{fault_page-FaultBits}
use sbllmalloc.Pages.StepLaws.Fault.{fault_page-IsSound}
use sbllmalloc.Pages.State.{Pages}
use sbllmalloc.Pages.Account.{
  IsSound, is_initialized, is_zero, is_shared, is_private, private_weight, Conserves,
}
use sbllmalloc.Merge.Remaps.{System, count_zero_page, zero_loop, remap_to_zero}

-- The counters of the pages before the one that is refused
zero_loop-fails :
    (maps : ℕ → Bool) (k n i : ℕ) (h : Pages)
    → k < n
    → ((j : ℕ) → i ≤ j → j < i + k → maps j ≡ true)
    → maps (i + k) ≡ false
    → (c d : ℕ) × (m : Memory) × (zero_loop maps n i h
        ≡ (record h { zero_page_count = c; all_proc_private_page_count = d; memory = m }, false))
      × ((d + k) % 2 ^ 32 ≡ h.all_proc_private_page_count % 2 ^ 32)
      × ((j : ℕ) → j < i → m.frames j ≡ h.memory.frames j)
      × ((j : ℕ) → i ≤ j → j < i + k → m.frames j ≡ zero_frame)
unfolding zero_loop count_zero_page map_zero
zero_loop-fails maps k zero i h less mapped refused = absurd (omega arith)
zero_loop-fails maps zero (suc n) i h less mapped refused =
    let here : maps i ≡ false = ap maps (omega arith) ∙ refused in
    (
      h.zero_page_count,
      h.all_proc_private_page_count,
      h.memory,
      rw here refl,
      omega arith,
      λ j lt. refl,
      λ j low high. absurd (omega arith),
    )
zero_loop-fails maps (suc k) (suc n) i h less mapped refused =
    let here : maps i ≡ true = mapped i (omega arith) (omega arith) in
    let (c, d, m, e, counted, before, zeroed) =
      zero_loop-fails maps k n (i + 1) (count_zero_page (record h { memory = map_zero i h.memory }))
        (omega arith) (λ j low high. mapped j (omega arith) (omega arith))
        (ap maps (omega arith) ∙ refused) in
    let kept : (j : ℕ) → j < i → m.frames j ≡ h.memory.frames j = λ j lt.
      let other : in_run i 1 j ≡ false = ground arith in before j (omega arith) ∙ rw other refl in
    let first : m.frames i ≡ zero_frame =
      let own : in_run i 1 i ≡ true = ground arith in before i (omega arith) ∙ rw own refl in
    (
      c,
      d,
      m,
      rw here e,
      omega (arith, counted),
      kept,
      λ j low high. elim (ℕ_discrete i j) [
        | yes same ↦ subst (λ q. m.frames q ≡ zero_frame) same first
        | no ne ↦ zeroed j (omega arith) (omega arith)
      ],
    )

-- One write fault of the page after another
unfoldable pub faulted : ℕ → ℕ → Pages → Pages
faulted zero j h = h
faulted (suc times) j h = handle_fault j (faulted times j h)

-- A written page without a zero bit that is mapped to the zero page.
abbrev Stuck : ℕ → Pages → Type 0
Stuck j h =
    IsSound h
    × (is_initialized h j ≡ true)
    × (is_zero h j ≡ false)
    × (is_shared h j ≡ false)
    × (h.memory.frames j ≡ zero_frame)

handle_fault-Stuck : (j : ℕ) (h : Pages) → Stuck j h → Stuck j (handle_fault j h)
unfolding handle_fault change_mapping
handle_fault-Stuck j h (sound, written, nz, own, frame) =
    let bits = fault_page-FaultBits h j sound in
    let kind : (fault_page j h).1 ≡ private_page = bits.found ∙ ground (arith, written, nz, own) in
    (
      fault_page-IsSound h sound j,
      ground (arith, bits.now_initialized j),
      ground (arith, bits.now_zero j),
      ground (arith, bits.now_shared j),
      ap (λ f. (change_mapping f j h.memory).frames j) kind ∙ frame,
    )

faulted-Stuck : (times j : ℕ) (h : Pages) → Stuck j h → Stuck j (faulted times j h)
unfolding faulted
faulted-Stuck zero j h stuck = stuck
faulted-Stuck (suc times) j h stuck =
    handle_fault-Stuck j (faulted times j h) (faulted-Stuck times j h stuck)

module _ (os : System) (start n k : ℕ) (h : Pages) (less : k < n)
    (mapped : (j : ℕ) → start ≤ j → j < start + k → os.maps_zero_page j ≡ true)
    (refused : os.maps_zero_page (start + k) ≡ false) where
  remap_to_zero-fails :
      (c d : ℕ) × (m : Memory) × (remap_to_zero os start n h
        ≡ record h { zero_page_count = c; all_proc_private_page_count = d; memory = m })
      × ((d + k) % 2 ^ 32 ≡ h.all_proc_private_page_count % 2 ^ 32)
      × ((j : ℕ) → start ≤ j → j < start + k → m.frames j ≡ zero_frame)
  unfolding remap_to_zero
  remap_to_zero-fails =
      let (c, d, m, e, counted, before, zeroed) =
        zero_loop-fails os.maps_zero_page k n start h less mapped refused in
      (
        c,
        d,
        m,
        ap
            (λ (r : Pages × Bool).
              if r.1
              then record r.0 {
                zero_pages_bv =
                    if ltb 1 n
                    then set_multi_bits 12 r.0.zero_pages_bv start (n * 4096)
                    else set_bit r.0.zero_pages_bv start;
              }
              else r.0)
            e,
        counted,
        zeroed,
      )

  -- Where `mmap` maps at least one page of the run and then refuses one, `RemapToZero` leaves the
  -- shared counters out of account.
  pub remap_to_zero-not_Conserves :
      (total : ℕ) → 0 < k → k < 2 ^ 32 → ¬ Conserves total h (remap_to_zero os start n h)
  unfolding private_weight
  remap_to_zero-not_Conserves total some_page small conserves =
      let (c, d, m, done, counted, zeroed) = remap_to_zero-fails in
      let moved = (subst (Conserves total h) done conserves).private_moves in
      omega (arith, moved, counted)

  -- With sound metadata, where `mmap` maps the first pages of a run and then refuses one, each of
  -- these pages that was private is mapped read-only to the zero page, without its zero bit,
  -- however many write faults of it `SigSegvHandler` has dealt with.
  pub remap_to_zero-handle_fault :
      (times j : ℕ)
      → IsSound h
      → is_private h j ≡ true
      → start ≤ j
      → j < start + k
      → ((faulted times j (remap_to_zero os start n h)).memory.frames j ≡ zero_frame)
        × (is_zero (faulted times j (remap_to_zero os start n h)) j ≡ false)
  remap_to_zero-handle_fault times j sound private low high =
      let (c, d, m, done, counted, zeroed) = remap_to_zero-fails in
      let after : Pages = record h {
        zero_page_count = c;
        all_proc_private_page_count = d;
        memory = m;
      } in
      let stuck : Stuck j after =
        (sound, ground arith, ground arith, ground arith, zeroed j low high) in
      let still =
        subst (Stuck j) (ap (faulted times j) (sym done)) (faulted-Stuck times j after stuck) in
      (still.4, still.2)

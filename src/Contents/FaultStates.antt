-- ===== src/Contents/FaultStates.antt =====
-- SharedHeap.cpp: the page of a write fault in `SigSegvHandler`, its mapping and its bytes.
use mathlib.Core.Path.{subst, sym}
use native.Mathlib.Decide.{ℕ_discrete}
use sbllmalloc.Shared.{ℕ, ◌≡◌, ◌≢◌, refl, ap, ◌∙◌, arith, Bool, true, false, ◌==◌}
use sbllmalloc.Pages.Memory.{
  Bytes, Frame, Memory, unmapped, anonymous, in_run, page_bytes, backing_bytes, make_writable,
  map_zeroed, map_copy,
}
use sbllmalloc.Pages.State.{Pages}
use sbllmalloc.Pages.Steps.{
  Fault, first_touch, zero_page, shared_page, private_page, fault_page, change_mapping,
  handle_fault,
}
use sbllmalloc.Pages.Account.{IsSound, is_initialized, is_zero, is_shared}
use sbllmalloc.Pages.Others.{SameOthers-memory}
use sbllmalloc.Pages.StepLaws.Fault.{fault_page-SameOthers}
use sbllmalloc.Pages.StepLaws.Fault.Bits.{kind_of, fault_page-FaultBits}
use sbllmalloc.Contents.Reads.{Transparent}
use sbllmalloc.Contents.PageStates.{
  PageState, as_unmapped, as_fresh, as_private, as_zero, as_shared, Agrees, StillMapped,
  PageState-cast,
}

-- The other pages and the shared file
change_mapping-frames :
    (kind : Fault) (i j : ℕ) (m : Memory) → j ≢ i → (change_mapping kind i m).frames j ≡ m.frames j
unfolding change_mapping make_writable map_zeroed map_copy
change_mapping-frames first_touch i j m ne =
    let other : (j == i) ≡ false = ground arith in rw other refl
change_mapping-frames zero_page i j m ne =
    let out : in_run i 1 j ≡ false = ground arith in rw out refl
change_mapping-frames shared_page i j m ne =
    let out : in_run i 1 j ≡ false = ground arith in rw out refl
change_mapping-frames private_page i j m ne = refl

pub change_mapping-file :
    (kind : Fault) (i j : ℕ) (m : Memory)
    → (change_mapping kind i m).shared_file j ≡ m.shared_file j
unfolding change_mapping make_writable map_zeroed map_copy
change_mapping-file first_touch i j m = refl
change_mapping-file zero_page i j m = refl
change_mapping-file shared_page i j m = refl
change_mapping-file private_page i j m = refl

-- The frame after a fault of a page that is mapped: of its own, writable, and with the same bytes.
frame_after :
    (m : Memory) (i : ℕ) {f : Frame} {ini z s : Bool}
    → PageState f ini z s
    → m.frames i ≡ f
    → f.backing ≢ unmapped
    → (change_mapping (kind_of ini z s) i m).frames i
      ≡ record { backing = anonymous (page_bytes m i); writable = true }
unfolding change_mapping make_writable map_zeroed map_copy backing_bytes
frame_after m i as_unmapped e mapped = absurd (mapped refl)
frame_after m i (as_fresh bytes) e mapped =
    let here : (i == i) ≡ true = ground arith in rw (here, e) refl
frame_after m i (as_private bytes) e mapped = rw e refl
frame_after m i as_zero e mapped =
    let here : in_run i 1 i ≡ true = ground arith in rw (here, e) refl
frame_after m i as_shared e mapped = let here : in_run i 1 i ≡ true = ground arith in rw here refl

own_not_unmapped : (bytes : Bytes) → anonymous bytes ≢ unmapped
own_not_unmapped bytes e = absurd (cc)

-- A page that is not mapped to the zero page is not so after a fault.
pub handle_fault-is_zero :
    (h : Pages) (i : ℕ)
    → IsSound h
    → (j : ℕ) → is_zero h j ≡ false
    → is_zero (handle_fault i h) j ≡ false
unfolding handle_fault
handle_fault-is_zero h i sound j e =
    let bits = fault_page-FaultBits h i sound in ground (arith, bits.now_zero j)

module _ (h : Pages) (i : ℕ) (sound : IsSound h) (agrees : Agrees h)
    (mapped : (h.memory.frames i).backing ≢ unmapped) where
  -- With sound metadata that agree with the mappings, after `SigSegvHandler` has dealt with a
  -- write fault in a page that is mapped, the page has a frame of its own, is writable, and holds
  -- the bytes that were read from it before, whatever it was mapped to.
  pub handle_fault-frame :
      (handle_fault i h).memory.frames i
      ≡ record { backing = anonymous (page_bytes h.memory i); writable = true }
  unfolding handle_fault
  handle_fault-frame =
      ap (λ kind. (change_mapping kind i h.memory).frames i) (fault_page-FaultBits h i sound).found
      ∙ frame_after h.memory i (agrees i) refl mapped

  pub handle_fault-Agrees : Agrees (handle_fault i h)
  unfolding handle_fault
  handle_fault-Agrees j =
      let bits = fault_page-FaultBits h i sound in
      elim (ℕ_discrete i j) [
        | yes e ↦
            subst
              (λ q.
                PageState ((handle_fault i h).memory.frames q) (is_initialized (handle_fault i h) q)
                  (is_zero (handle_fault i h) q) (is_shared (handle_fault i h) q))
              e
              (PageState-cast handle_fault-frame (ground (arith, bits.now_initialized i))
                (ground (arith, bits.now_zero i)) (ground (arith, bits.now_shared i))
                (as_private (page_bytes h.memory i)))
        | no ne ↦
            PageState-cast (change_mapping-frames (fault_page i h).1 i j h.memory (λ e. ne (sym e)))
              (ground (arith, bits.now_initialized j)) (ground (arith, bits.now_zero j))
              (ground (arith, bits.now_shared j)) (agrees j)
      ]

  pub handle_fault-StillMapped : StillMapped h (handle_fault i h)
  unfolding handle_fault
  handle_fault-StillMapped j there = elim (ℕ_discrete i j) [
    | yes e ↦
        subst (λ q. ((handle_fault i h).memory.frames q).backing ≢ unmapped) e
          (λ gone.
            own_not_unmapped (page_bytes h.memory i)
              (sym (ap (λ (f : Frame). f.backing) handle_fault-frame) ∙ gone))
    | no ne ↦ λ gone. there (
        sym (
          ap (λ (f : Frame). f.backing)
            (change_mapping-frames (fault_page i h).1 i j h.memory (λ e. ne (sym e))))
        ∙ gone)
  ]

  pub handle_fault-Transparent : Transparent h (handle_fault i h)
  unfolding handle_fault
  handle_fault-Transparent =
      let kind = (fault_page i h).1 in
      record {
        same_reads = λ j k lt. elim (ℕ_discrete i j) [
          | yes e ↦
              subst (λ q. page_bytes (change_mapping kind i h.memory) q k ≡ page_bytes h.memory q k)
                e
                (ap
                    (λ (f : Frame).
                      backing_bytes f.backing ((change_mapping kind i h.memory).shared_file i) k)
                    handle_fault-frame
                  ∙ unfold backing_bytes in refl)
          | no ne ↦
              ap
                (λ (f : Frame).
                  backing_bytes f.backing ((change_mapping kind i h.memory).shared_file j) k)
                (change_mapping-frames kind i j h.memory (λ e. ne (sym e)))
              ∙ ap (λ b. backing_bytes (h.memory.frames j).backing b k)
                  (change_mapping-file kind i j h.memory)
        ];
        same_others = SameOthers-memory _ (fault_page-SameOthers h sound i);
        kept_file = λ r j lt ne e. change_mapping-file kind i j h.memory;
      }

-- ===== src/Merge/Keeps.antt =====
-- SharedHeap.cpp: what the remapping of a run of pages keeps, and loops over pages that keep it.
use mathlib.Core.Path.{sym, subst}
use sbllmalloc.Shared.{ℕ, zero, suc, ◌+◌, ◌≤◌, ◌<◌, ◌≡◌, ◌≢◌, refl, ap, arith, ◌∙◌, true}
use sbllmalloc.Pages.Memory.{
  Memory, Frame, is_zero_content, same_content, same_bytes, backing_bytes, zeros,
}
use sbllmalloc.Pages.State.{Pages}
use sbllmalloc.Pages.Account.{
  IsSound, is_private, sharers, ConservesAt, Conserves, Conserves-refl, Conserves-trans,
  ConservesAt-Conserves, Conserves-memory,
}
use sbllmalloc.Pages.Others.{SameOthers, SameOthers-refl, SameOthers-trans, SameOthers-memory}
use sbllmalloc.Merge.Remaps.{page_loop}

-- All pages from `s` up to but not `p` are private.
abbrev pub PrivateRun : Pages → ℕ → ℕ → Type 0
PrivateRun h s p = (j : ℕ) → s ≤ j → j < p → is_private h j ≡ true

-- From `h` to `h'`, on pages before `p`: the tables stay sound, the pages from `p` on stay private or
-- not and keep their sharers, their mapping and the page of the shared file, the other processes keep their bits, and under `Z` the counters move by
-- what the pages count.
pub record Keeps (Z : Type 0) (p : ℕ) (h h' : Pages) : Type 0 where
  pub still_sound : IsSound h'
  pub still_private : (j : ℕ) → p ≤ j → is_private h' j ≡ is_private h j
  pub still_sharers : (j : ℕ) → p ≤ j → sharers h' j ≡ sharers h j
  pub still_frame : (j : ℕ) → p ≤ j → h'.memory.frames j ≡ h.memory.frames j
  pub still_file : (j : ℕ) → p ≤ j → h'.memory.shared_file j ≡ h.memory.shared_file j
  pub still_others : SameOthers h h'
  pub still_counted : Z → (total : ℕ) → p ≤ total → Conserves total h h'

module _ {Z : Type 0} where
  pub Keeps-refl : (p : ℕ) (h : Pages) → IsSound h → Keeps Z p h h
  Keeps-refl p h sound = record {
    still_sound = sound;
    still_private = λ j le. refl;
    still_sharers = λ j le. refl;
    still_frame = λ j le. refl;
    still_file = λ j le. refl;
    still_others = SameOthers-refl h;
    still_counted = λ z total le. Conserves-refl total h;
  }

  pub Keeps-trans :
      (q p : ℕ) {h h' h'' : Pages} → q ≤ p → Keeps Z q h h' → Keeps Z p h' h'' → Keeps Z p h h''
  Keeps-trans q p {h} {h'} {h''} order a b = record {
    still_sound = b.still_sound;
    still_private = λ j le. b.still_private j le ∙ a.still_private j (omega arith);
    still_sharers = λ j le. b.still_sharers j le ∙ a.still_sharers j (omega arith);
    still_frame = λ j le. b.still_frame j le ∙ a.still_frame j (omega arith);
    still_file = λ j le. b.still_file j le ∙ a.still_file j (omega arith);
    still_others = SameOthers-trans a.still_others b.still_others;
    still_counted = λ z total le.
        Conserves-trans (a.still_counted z total (omega arith)) (b.still_counted z total le);
  }

  -- The mappings of the pages before `p` may be changed as well.
  pub Keeps-memory :
      (p : ℕ) {h h' : Pages} (m : Memory)
      → ((j : ℕ) → p ≤ j → m.frames j ≡ h.memory.frames j)
      → ((j : ℕ) → p ≤ j → m.shared_file j ≡ h.memory.shared_file j)
      → Keeps Z p h h'
      → Keeps Z p h (record h' { memory = m })
  Keeps-memory p m frames file keeps = record {
    still_sound = keeps.still_sound;
    still_private = keeps.still_private;
    still_sharers = keeps.still_sharers;
    still_frame = frames;
    still_file = file;
    still_others = SameOthers-memory m keeps.still_others;
    still_counted = λ z total le. Conserves-memory m (keeps.still_counted z total le);
  }

  -- What a comparison of pages from `p` on tells
  module _ {p : ℕ} {h h' : Pages} (keeps : Keeps Z p h h') (j : ℕ) (le : p ≤ j) where
    pub still_zero : is_zero_content h'.memory j ≡ is_zero_content h.memory j
    unfolding is_zero_content
    still_zero =
        ap
          (λ (f : Frame). same_bytes 4096 (backing_bytes f.backing (h'.memory.shared_file j)) zeros)
          (keeps.still_frame j le)
        ∙ ap (λ b. same_bytes 4096 (backing_bytes (h.memory.frames j).backing b) zeros)
            (keeps.still_file j le)

    pub still_same : same_content h'.memory j ≡ same_content h.memory j
    unfolding same_content
    still_same =
        ap
          (λ (f : Frame).
            same_bytes 4096 (h'.memory.shared_file j)
              (backing_bytes f.backing (h'.memory.shared_file j)))
          (keeps.still_frame j le)
        ∙ ap (λ b. same_bytes 4096 b (backing_bytes (h.memory.frames j).backing b))
            (keeps.still_file j le)

-- A step on one private page, whose sharers satisfy `Q`.
pub record PageStep (step : ℕ → Pages → Pages) (Q : ℕ → Type 0) : Type 0 where
  pub keeps_sound : (h : Pages) → IsSound h → (i : ℕ) → is_private h i ≡ true → IsSound (step i h)
  pub conserves :
      (h : Pages)
      → IsSound h
      → (i : ℕ) → is_private h i ≡ true
      → Q (sharers h i)
      → ConservesAt i h (step i h)
  pub same_private :
      (h : Pages) (i j : ℕ) → IsSound h → j ≢ i → is_private (step i h) j ≡ is_private h j
  pub same_sharers : (h : Pages) (i j : ℕ) → IsSound h → j ≢ i → sharers (step i h) j ≡ sharers h j
  pub same_memory : (i : ℕ) (h : Pages) → (step i h).memory ≡ h.memory
  pub same_others : (h : Pages) → IsSound h → (i : ℕ) → SameOthers h (step i h)

module _ {Z : Type 0} {step : ℕ → Pages → Pages} {Q : ℕ → Type 0} (laws : PageStep step Q) where
  step-Keeps :
      (h : Pages) (i : ℕ)
      → IsSound h
      → is_private h i ≡ true
      → Q (sharers h i)
      → Keeps Z (i + 1) h (step i h)
  step-Keeps h i sound private shared = record {
    still_sound = laws.keeps_sound h sound i private;
    still_private = λ j le. laws.same_private h i j sound (omega arith);
    still_sharers = λ j le. laws.same_sharers h i j sound (omega arith);
    still_frame = λ j le. ap (λ (m : Memory). m.frames j) (laws.same_memory i h);
    still_file = λ j le. ap (λ (m : Memory). m.shared_file j) (laws.same_memory i h);
    still_others = laws.same_others h sound i;
    still_counted = λ z total le.
        ConservesAt-Conserves total i h (step i h) (omega arith)
          (laws.conserves h sound i private shared);
  }

  pub page_loop-Keeps :
      (n i p : ℕ) (h : Pages)
      → i + n ≤ p
      → IsSound h
      → PrivateRun h i (i + n)
      → ((j : ℕ) → i ≤ j → j < i + n → Q (sharers h j))
      → Keeps Z p h (page_loop step n i h)
  unfolding page_loop
  page_loop-Keeps zero i p h top sound run shared = Keeps-refl p h sound
  page_loop-Keeps (suc n) i p h top sound run shared =
      let first =
        step-Keeps h i sound (run i (omega arith) (omega arith))
          (shared i (omega arith) (omega arith)) in
      Keeps-trans (i + 1) p (omega arith) first (
        page_loop-Keeps n (i + 1) p (step i h) (omega arith) first.still_sound
          (λ j low high. first.still_private j low ∙ run j (omega arith) (omega arith))
          (λ j low high.
            subst Q (sym (first.still_sharers j low)) (shared j (omega arith) (omega arith))))

-- ===== src/Contents/PageStates.antt =====
-- The five states of a page of a process: what it is mapped to, and what the metadata tell of it.
use mathlib.Core.Path.{subst, sym}
use sbllmalloc.Shared.{ℕ, ◌≡◌, ◌≢◌, refl, Bool, true, false}
use sbllmalloc.Pages.Memory.{Bytes, Frame, unmapped, anonymous, zero_page, shared_page}
use sbllmalloc.Pages.State.{Pages}
use sbllmalloc.Pages.Account.{is_initialized, is_zero, is_shared}

-- By the mapping, and by whether the page was written, is zero, and is shared.
pub data PageState : Frame → Bool → Bool → Bool → Type 0 where
  as_unmapped : PageState (record { backing = unmapped; writable = false }) false false false
  as_fresh :
      (bytes : Bytes)
      → PageState (record { backing = anonymous bytes; writable = false }) false false false
  as_private :
      (bytes : Bytes)
      → PageState (record { backing = anonymous bytes; writable = true }) true false false
  as_zero : PageState (record { backing = zero_page; writable = false }) true true false
  as_shared : PageState (record { backing = shared_page; writable = false }) true false true

-- The mappings agree with the metadata.
abbrev pub Agrees : Pages → Type 0
Agrees h =
    (j : ℕ) → PageState (h.memory.frames j) (is_initialized h j) (is_zero h j) (is_shared h j)

-- Pages that are mapped stay so.
abbrev pub StillMapped : Pages → Pages → Type 0
StillMapped h h' =
    (j : ℕ) → (h.memory.frames j).backing ≢ unmapped → (h'.memory.frames j).backing ≢ unmapped

pub PageState-cast :
    {f f' : Frame} {i i' z z' s s' : Bool}
    → f' ≡ f
    → i' ≡ i
    → z' ≡ z
    → s' ≡ s
    → PageState f i z s
    → PageState f' i' z' s'
PageState-cast {f} {f'} {i} {i'} {z} {z'} {s} {s'} ef ei ez es state =
    subst (λ x. PageState x i' z' s') (sym ef)
      (subst (λ x. PageState f x z' s') (sym ei)
        (subst (λ x. PageState f i x s') (sym ez) (subst (λ x. PageState f i z x) (sym es) state)))

-- What a page in one of the states is.
pub shared_page_is_shared :
    {f : Frame} {i z s : Bool} → PageState f i z s → f.backing ≡ shared_page → s ≡ true
shared_page_is_shared as_unmapped e = absurd (cc)
shared_page_is_shared (as_fresh bytes) e = absurd (cc)
shared_page_is_shared (as_private bytes) e = absurd (cc)
shared_page_is_shared as_zero e = absurd (cc)
shared_page_is_shared as_shared e = refl

-- ===== src/Contents/StoreStates.antt =====
-- The stores of a process to a page that is writable, and pages that are not mapped.
use sbllmalloc.Shared.{
  ℕ, ◌≡◌, refl, ap, ◌∙◌, arith, Bool, true, false, ◌==◌, Bool-cases, inl, inr, if◌then◌else◌,
}
use sbllmalloc.Pages.Memory.{
  Bytes, Frame, Memory, unmapped, anonymous, page_bytes, backing_bytes, with_byte, store_backing,
  store_byte,
}
use sbllmalloc.Contents.PageStates.{
  PageState, as_unmapped, as_fresh, as_private, as_zero, as_shared, PageState-cast,
}

-- A page that is not mapped has no bit.
pub unmapped_bits :
    {f : Frame} {i z s : Bool}
    → PageState f i z s
    → f.backing ≡ unmapped
    → (i ≡ false) × (z ≡ false) × (s ≡ false)
unmapped_bits as_unmapped e = (refl, refl, refl)
unmapped_bits (as_fresh bytes) e = (refl, refl, refl)
unmapped_bits (as_private bytes) e = absurd (cc)
unmapped_bits as_zero e = absurd (cc)
unmapped_bits as_shared e = absurd (cc)

-- A page that is writable has a frame of its own, and was written.
pub writable_private :
    {f : Frame} {i z s : Bool}
    → PageState f i z s
    → f.writable ≡ true
    → (bytes : Bytes) × (f ≡ record { backing = anonymous bytes; writable = true })
      × (i ≡ true)
      × (z ≡ false)
      × (s ≡ false)
writable_private as_unmapped e = absurd (cc)
writable_private (as_fresh bytes) e = absurd (cc)
writable_private (as_private bytes) e = (bytes, refl, refl, refl, refl)
writable_private as_zero e = absurd (cc)
writable_private as_shared e = absurd (cc)

-- A store to a page of a frame of its own.
module _ (m : Memory) (i k byte : ℕ) (bytes : Bytes)
    (own : m.frames i ≡ record { backing = anonymous bytes; writable = true }) where
  store_byte-frames :
      (j : ℕ)
      → (store_byte i k byte m).frames j ≡ (
          if j == i
          then record { backing = anonymous (with_byte k byte bytes); writable = true }
          else m.frames j)
  unfolding store_backing
  store_byte-frames j = elim (Bool-cases (j == i)) [
    | inr other ↦
        ap (λ (f : Frame). (store_backing f.backing i k byte m).frames j) own ∙ rw other refl
    | inl here ↦
        let e : j ≡ i = ground arith in
        ap (λ (f : Frame). (store_backing f.backing i k byte m).frames j) own
        ∙ rw (here, e, own) refl
  ]

  pub store_byte-file : (j : ℕ) → (store_byte i k byte m).shared_file j ≡ m.shared_file j
  unfolding store_backing
  store_byte-file j = ap (λ (f : Frame). (store_backing f.backing i k byte m).shared_file j) own

  pub store_byte-Agrees-at :
      (j : ℕ) {ini z s : Bool}
      → PageState (m.frames j) ini z s
      → (j ≡ i → (ini ≡ true) × (z ≡ false) × (s ≡ false))
      → PageState ((store_byte i k byte m).frames j) ini z s
  store_byte-Agrees-at j state here_bits = elim (Bool-cases (j == i)) [
    | inr other ↦ PageState-cast (store_byte-frames j ∙ rw other refl) refl refl refl state
    | inl here ↦
        let (a, b, c) = here_bits (ground arith) in
        PageState-cast (store_byte-frames j ∙ rw here refl) a b c
          (as_private (with_byte k byte bytes))
  ]

  pub store_byte-reads :
      (j l : ℕ)
      → page_bytes (store_byte i k byte m) j l
        ≡ (if j == i then with_byte k byte (page_bytes m i) else page_bytes m j) l
  unfolding backing_bytes
  store_byte-reads j l =
      ap (λ (f : Frame). backing_bytes f.backing ((store_byte i k byte m).shared_file j) l)
        (store_byte-frames j)
      ∙ elim (Bool-cases (j == i)) [
        | inl here ↦ rw (here, own) refl
        | inr other ↦
            rw other (ap (λ b. backing_bytes (m.frames j).backing b l) (store_byte-file j))
      ]

-- ===== src/Pages/StepLaws/Free/Bits.antt =====
-- The bits of all pages after the step of `ShmFreeWrapper` on a page.
use sbllmalloc.Shared.{ℕ, ◌≡◌, refl, arith, Bool, false, not, ◌&&◌, ◌==◌}
use sbllmalloc.Metadata.BitmapLaws.{get_bit-unset_bit}
use sbllmalloc.Pages.State.{Pages}
use sbllmalloc.Pages.Steps.{free_page}
use sbllmalloc.Pages.Account.{IsSound, is_initialized, is_zero, is_shared}
use sbllmalloc.Pages.StepLaws.Tables.{own_bit}
use sbllmalloc.Pages.StepLaws.Free.Cases.{untouched, unshared, free_page_cases}

-- The pages that `left` does not hold lose their bits, and no mapping changes.
pub record FreeBits (left : ℕ → Bool) (h h' : Pages) : Type 0 where
  pub left_initialized : (j : ℕ) → is_initialized h' j ≡ (is_initialized h j && left j)
  pub left_zero : (j : ℕ) → is_zero h' j ≡ (is_zero h j && left j)
  pub left_shared : (j : ℕ) → is_shared h' j ≡ (is_shared h j && left j)
  pub left_memory : h'.memory ≡ h.memory

pub free_page-FreeBits :
    (h : Pages) (i : ℕ) (last : Bool)
    → IsSound h
    → FreeBits (λ j. not (j == i)) h (free_page i last h).0
unfolding untouched unshared
free_page-FreeBits h i last sound =
    let init_bit = get_bit-unset_bit h.initialized_pages_bv i sound.bytes_initialized in
    let zero_bit = get_bit-unset_bit h.zero_pages_bv i sound.bytes_zero in
    let own = own_bit h sound i in
    let z = sound.zero_initialized i in
    let s = sound.shared_initialized i in
    let x = sound.exclusive i in
    let gone = λ (c d e k m : ℕ) (unshares : is_shared h i ≡ false).
      let bits : FreeBits (λ j. not (j == i)) h (untouched h i c d e k m) = record {
        left_initialized = λ j. ground (arith, init_bit j);
        left_zero = λ j. ground (arith, zero_bit j);
        left_shared = λ j. ground (arith, unshares);
        left_memory = refl;
      } in
      bits in
    let left = λ (c d e k m : ℕ).
      let bits : FreeBits (λ j. not (j == i)) h (unshared h i c d e k m) = record {
        left_initialized = λ j. ground (arith, init_bit j);
        left_zero = λ j. ground (arith, zero_bit j);
        left_shared = λ j. ground (arith, own j);
        left_memory = refl;
      } in
      bits in
    free_page_cases h sound i (FreeBits (λ j. not (j == i)) h) last
      (λ fresh m. record {
        left_initialized = λ j. ground (arith, init_bit j);
        left_zero = λ j. ground (arith, z);
        left_shared = λ j. ground (arith, s);
        left_memory = refl;
      })
      (λ old zc m. gone _ _ _ _ _ (x zc)) (λ old sh one m. left _ _ _ _ _)
      (λ old sh two m. left _ _ _ _ _) (λ old sh a b m. left _ _ _ _ _)
      (λ old nz pr m. gone _ _ _ _ _ pr)

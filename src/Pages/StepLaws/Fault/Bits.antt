-- ===== src/Pages/StepLaws/Fault/Bits.antt =====
-- The bits of all pages after the step of the signal handler, and what it found the page to be.
use sbllmalloc.Shared.{ℕ, ◌≡◌, refl, arith, Bool, not, ◌&&◌, ◌||◌, ◌==◌, if◌then◌else◌}
use sbllmalloc.Metadata.BitmapLaws.{get_bit-set_bit, get_bit-unset_bit}
use sbllmalloc.Pages.State.{Pages}
use sbllmalloc.Pages.Steps.{Fault, first_touch, zero_page, shared_page, private_page, fault_page}
use sbllmalloc.Pages.Account.{IsSound, is_initialized, is_zero, is_shared}
use sbllmalloc.Pages.StepLaws.Tables.{own_bit}
use sbllmalloc.Pages.StepLaws.Fault.{
  initialized, cleared, unshared, fault_page_cases, count_unshared_cases,
}

abbrev pub kind_of : Bool → Bool → Bool → Fault
kind_of initialized zero shared =
    if not initialized
    then first_touch
    else if zero
    then zero_page
    else if shared
    then shared_page
    else private_page

pub record FaultBits (h : Pages) (i : ℕ) (h' : Pages) (kind : Fault) : Type 0 where
  pub found : kind ≡ kind_of (is_initialized h i) (is_zero h i) (is_shared h i)
  pub now_initialized : (j : ℕ) → is_initialized h' j ≡ (is_initialized h j || j == i)
  pub now_zero : (j : ℕ) → is_zero h' j ≡ (is_zero h j && not (j == i))
  pub now_shared : (j : ℕ) → is_shared h' j ≡ (is_shared h j && not (j == i))

pub fault_page-FaultBits :
    (h : Pages) (i : ℕ) → IsSound h → FaultBits h i (fault_page i h).0 (fault_page i h).1
unfolding initialized cleared unshared
fault_page-FaultBits h i sound =
    let init_bit = get_bit-set_bit h.initialized_pages_bv i sound.bytes_initialized in
    let zero_bit = get_bit-unset_bit h.zero_pages_bv i sound.bytes_zero in
    let z = sound.zero_initialized i in
    let s = sound.shared_initialized i in
    let x = sound.exclusive i in
    fault_page_cases h sound i (λ r. FaultBits h i r.0 r.1)
      (λ a. record {
        found = rw a refl;
        now_initialized = λ j. ground (arith, init_bit j);
        now_zero = λ j. ground (arith, z);
        now_shared = λ j. ground (arith, s);
      })
      (λ a b. record {
        found = rw (a, b) refl;
        now_initialized = λ j. ground (arith, init_bit j);
        now_zero = λ j. ground (arith, zero_bit j);
        now_shared = λ j. ground (arith, x);
      })
      (λ a b c.
        count_unshared_cases h sound i (λ r. FaultBits h i r shared_page)
          (λ e. record {
            found = rw (a, b, c) refl;
            now_initialized = λ j. ground (arith, init_bit j);
            now_zero = λ j. ground (arith, zero_bit j);
            now_shared = λ j. ground (arith, own_bit h sound i j);
          })
          (λ e. record {
            found = rw (a, b, c) refl;
            now_initialized = λ j. ground (arith, init_bit j);
            now_zero = λ j. ground (arith, zero_bit j);
            now_shared = λ j. ground (arith, own_bit h sound i j);
          })
          (λ e. record {
            found = rw (a, b, c) refl;
            now_initialized = λ j. ground (arith, init_bit j);
            now_zero = λ j. ground (arith, zero_bit j);
            now_shared = λ j. ground (arith, own_bit h sound i j);
          }))
      (λ a b c. record {
        found = rw (a, b, c) refl;
        now_initialized = λ j. ground (arith, init_bit j);
        now_zero = λ j. ground (arith, zero_bit j);
        now_shared = λ j. ground (arith, c);
      })

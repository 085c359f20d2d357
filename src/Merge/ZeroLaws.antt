-- ===== src/Merge/ZeroLaws.antt =====
-- SharedHeap.cpp: `RemapToZero` on a run of private pages.
use Prim.Native.Nat.{min}
use sbllmalloc.Shared.{
  ℕ, zero, suc, ◌+◌, ◌-◌, ◌*◌, ◌/◌, ◌%◌, ◌^◌, ◌≤◌, ◌<◌, ◌≡◌, refl, arith, Bool, true, false, ltb,
  ◌∙◌, ap, if◌then◌else◌, Bool-cases, inl, inr,
}
use sbllmalloc.Metadata.Sharing.{Table}
use sbllmalloc.Metadata.OwnView.{to_count}
use sbllmalloc.Metadata.Bitmap.{get_bit, set_bit, set_multi_bits}
use sbllmalloc.Metadata.BitmapLaws.{
  get_bit-set_bit, set_bit-IsBytes, IsBytes, set_multi_bits-IsBytes, in_range,
  get_bit-set_multi_bits,
}
use sbllmalloc.Pages.Memory.{Memory, map_zero}
use sbllmalloc.Pages.State.{Pages}
use sbllmalloc.Pages.Account.{IsSound, private_weight, shared_weight, base_weight, Conserves}
use sbllmalloc.Merge.ZeroMapped.{ZeroMapped, ZeroMapped-none, ZeroMapped-refused, ZeroMapped-next}
use sbllmalloc.Merge.Remaps.{System, count_zero_page, zero_loop, remap_to_zero}
use sbllmalloc.Pages.Sums.{sum_below, sum_below-plus}
use sbllmalloc.Merge.Keeps.{PrivateRun, Keeps}

-- Every page of the system can be mapped to the zero page.
abbrev pub AllMapped : System → Type 0
AllMapped os = (j : ℕ) → os.maps_zero_page j ≡ true

-- The buffer of `MergeManyPages` is mapped for every page.
abbrev pub AllBuffered : System → Type 0
AllBuffered os = (j : ℕ) → os.maps_buffer j ≡ true

sum_below-in_range :
    (total start n : ℕ)
    → sum_below total (λ j. to_count (in_range start n j)) ≡ min n (total - start)
unfolding sum_below
sum_below-in_range zero start n = omega arith
sum_below-in_range (suc total) start n = ground (arith, sum_below-in_range total start n)

module _ (n start p : ℕ) (h : Pages) (sound : IsSound h) (top : start + n ≤ p)
    (run : PrivateRun h start (start + n)) (zeros : Table) (c d : ℕ) (mem : Memory) (done : Bool)
    (mapped : ZeroMapped start n h.memory mem done) (bytes : IsBytes zeros)
    (set : (j : ℕ)
      → get_bit zeros j ≡ (if in_range start n j then true else get_bit h.zero_pages_bv j)) where
  zeroed : Pages
  zeroed = record h {
    zero_page_count = c;
    all_proc_private_page_count = d;
    zero_pages_bv = zeros;
    memory = mem;
  }

  private_weight-zeroed :
      (j : ℕ) → private_weight h j ≡ private_weight zeroed j + to_count (in_range start n j)
  unfolding zeroed private_weight
  private_weight-zeroed j = ground (arith, set j, run j)

  zeroed-Conserves :
      (d + n) % 2 ^ 32 ≡ h.all_proc_private_page_count % 2 ^ 32
      → (total : ℕ) → p ≤ total
      → Conserves total h zeroed
  unfolding zeroed shared_weight base_weight
  zeroed-Conserves counted total le =
      let split =
        sum_below-plus total (private_weight h) (private_weight zeroed)
          (λ j. to_count (in_range start n j)) private_weight-zeroed in
      record {
        private_moves = omega (arith, split, sum_below-in_range total start n);
        shared_moves = refl;
        base_moves = refl;
      }

  zeroed-Keeps :
      (Z : Type 0)
      → (Z → (d + n) % 2 ^ 32 ≡ h.all_proc_private_page_count % 2 ^ 32)
      → Keeps Z p h zeroed
  unfolding zeroed
  zeroed-Keeps Z counted = record {
    still_sound = record {
      known = sound.known;
      fits = sound.fits;
      bytes_initialized = sound.bytes_initialized;
      bytes_zero = bytes;
      zero_initialized = λ j e. ground (arith, set j, run j, sound.zero_initialized j);
      shared_initialized = sound.shared_initialized;
      exclusive = λ j e. ground (arith, set j, run j, sound.exclusive j);
    };
    still_private = λ j le. ground (arith, set j);
    still_sharers = λ j le. refl;
    still_frame = λ j le. mapped.elsewhere j (ground arith);
    still_file = λ j le. mapped.same_file j;
    still_others = record { same_num = refl; same_rank = refl; same_bits = λ r j lt ne. refl };
    still_counted = λ z. zeroed-Conserves (counted z);
  }

pub zero_loop_cases {ℓ} :
    (P : Pages → Bool → Type ℓ) (maps : ℕ → Bool) (n i : ℕ) (h : Pages)
    → ((c d : ℕ) (mem : Memory) (done : Bool)
        → ZeroMapped i n h.memory mem done
        → (done ≡ true → (d + n) % 2 ^ 32 ≡ h.all_proc_private_page_count % 2 ^ 32)
        → (((j : ℕ) → maps j ≡ true) → done ≡ true)
        → P (record h { zero_page_count = c; all_proc_private_page_count = d; memory = mem }) done)
    → P (zero_loop maps n i h).0 (zero_loop maps n i h).1
unfolding zero_loop count_zero_page
zero_loop_cases P maps zero i h case =
    case h.zero_page_count h.all_proc_private_page_count h.memory true (ZeroMapped-none i h.memory)
      (λ e. omega arith) (λ all. refl)
zero_loop_cases P maps (suc n) i h case = elim (Bool-cases (maps i)) [
  | inl mapped ↦ rw mapped (
      zero_loop_cases P maps n (i + 1) (count_zero_page (record h { memory = map_zero i h.memory }))
        (λ c d mem done zeroed counted all.
          case c d mem done (ZeroMapped-next i n h.memory mem done zeroed)
            (λ e. omega (arith, counted e)) all))
  | inr failed ↦ rw failed (
      case h.zero_page_count h.all_proc_private_page_count h.memory false
        (ZeroMapped-refused i (suc n) h.memory) (λ e. absurd (cc)) (λ all. absurd (cc (all i))))
]

pub zero_bits_set :
    (start n : ℕ) (h : Pages)
    → IsSound h
    → 0 < n
    → n < 2 ^ 31
    → (j : ℕ)
    → let bits =
        if ltb 1 n
        then set_multi_bits 12 h.zero_pages_bv start (n * 4096)
        else set_bit h.zero_pages_bv start in
      IsBytes bits
      × (get_bit bits j ≡ (if in_range start n j then true else get_bit h.zero_pages_bv j))
zero_bits_set start n h sound some_page small j = elim (Bool-cases (ltb 1 n)) [
  | inl many ↦
      let whole : n * 4096 / 2 ^ 12 ≡ n = omega arith in
      rw many (
        set_multi_bits-IsBytes 12 h.zero_pages_bv start (n * 4096) sound.bytes_zero,
        get_bit-set_multi_bits 12 h.zero_pages_bv start (n * 4096) j sound.bytes_zero (omega arith)
            ∙ ap (λ t. if in_range start t j then true else get_bit h.zero_pages_bv j) whole,
      )
  | inr one ↦ rw one (
    set_bit-IsBytes h.zero_pages_bv start sound.bytes_zero,
    ground (arith, get_bit-set_bit h.zero_pages_bv start sound.bytes_zero j),
  )
]

pub remap_to_zero-Keeps :
    (os : System) (n start p : ℕ) (h : Pages)
    → IsSound h
    → start + n ≤ p
    → 0 < n
    → n < 2 ^ 31
    → PrivateRun h start (start + n)
    → Keeps (AllMapped os) p h (remap_to_zero os start n h)
unfolding remap_to_zero zeroed
remap_to_zero-Keeps os n start p h sound top some_page small run =
    zero_loop_cases
      (λ h' done. Keeps (AllMapped os) p h (
        if done
        then record h' {
          zero_pages_bv =
              if ltb 1 n
              then set_multi_bits 12 h'.zero_pages_bv start (n * 4096)
              else set_bit h'.zero_pages_bv start;
        }
        else h'))
      os.maps_zero_page n start h
      (λ c d mem done zeroed counted all. elim (Bool-cases done) [
        | inl success ↦ rw success (
            zeroed-Keeps n start p h sound top run _ c d mem done zeroed
              (zero_bits_set start n h sound some_page small 0).0
              (λ j. (zero_bits_set start n h sound some_page small j).1) (AllMapped os)
              (λ z. counted success))
        | inr failed ↦ rw failed (record {
          still_sound = sound;
          still_private = λ j le. refl;
          still_sharers = λ j le. refl;
          still_frame = λ j le. zeroed.elsewhere j (ground arith);
          still_file = λ j le. zeroed.same_file j;
          still_others = record {
            same_num = refl;
            same_rank = refl;
            same_bits = λ r j lt ne. refl;
          };
          still_counted = λ z total le. absurd (cc (all z));
        })
      ])

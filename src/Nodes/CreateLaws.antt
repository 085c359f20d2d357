-- ===== src/Nodes/CreateLaws.antt =====
-- SharedHeap.cpp: a process that creates the shared file, and one without written pages.
use Prim.Native.Nat.{bit_and}
use sbllmalloc.Shared.{ℕ, ◌^◌, ◌<◌, ◌≤◌, ◌≡◌, refl, ap, ◌∙◌, arith, false, ◌==◌}
use sbllmalloc.Bits.{count_loop, bit-zero, bit_and-le}
use sbllmalloc.Metadata.Address.{heap_pages}
use sbllmalloc.Metadata.Sharing.{NumProc, eight, sixteen, Table, bits, count_sharing_procs}
use sbllmalloc.Metadata.SharingLaws.{Fits, sharer, get_sharing_bit-eq-sharer}
use sbllmalloc.Metadata.Bitmap.{get_bit}
use sbllmalloc.Pages.Account.{SoundTables}
use sbllmalloc.Nodes.State.{Node, view, create, allocate_shared_metadata}
use sbllmalloc.Pages.Sums.{sum_below-zero}
use sbllmalloc.Nodes.Invariant.{
  over_processes, private_here, written_here, once_shared, more_shared, Accounted,
}

pub get_bit-empty : (j : ℕ) → get_bit (λ i. 0) j ≡ false
unfolding get_bit
get_bit-empty j = ground (arith, bit_and-le 0 (2 ^ bit_and j 7))

-- The bit vectors of a process without written pages are sound beside a table that has none of its bits.
pub fresh_sound :
    (n : NumProc) (rank : ℕ) (t : Table)
    → rank < bits n
    → Fits n t
    → ((j : ℕ) → sharer t rank j ≡ 0)
    → SoundTables n rank t (λ i. 0) (λ i. 0)
fresh_sound n rank t known fits absent =
    let own =
      λ (j : ℕ). get_sharing_bit-eq-sharer n rank t j known fits ∙ ap (λ k. k == 1) (absent j) in
    record {
      known = known;
      fits = fits;
      bytes_initialized = λ i. omega arith;
      bytes_zero = λ i. omega arith;
      zero_initialized = λ i e. e;
      shared_initialized = λ i e. absurd (cc (own i));
      exclusive = λ i e. own i;
    }

pub empty-Fits : (n : NumProc) → Fits n (λ i. 0)
empty-Fits eight i = omega arith
empty-Fits sixteen i = omega arith

pub some_bits : (n : NumProc) → 0 < bits n
some_bits eight = omega arith
some_bits sixteen = omega arith

pub bits_le : (n : NumProc) → bits n ≤ 16
bits_le eight = omega arith
bits_le sixteen = omega arith

module _ (n : NumProc) where
  create_written : (q j : ℕ) → written_here (create n) q j ≡ 0
  unfolding create view
  create_written q j = rw (get_bit-empty j)

  create_private : (q j : ℕ) → private_here (create n) q j ≡ 0
  unfolding create view
  create_private q j = rw (get_bit-empty j)

  create-over_processes :
      (f : Node → ℕ → ℕ → ℕ) → ((q j : ℕ) → f (create n) q j ≡ 0) → over_processes f (create n) ≡ 0
  unfolding over_processes
  create-over_processes f none_there =
      sum_below-zero _ _ (λ q. sum_below-zero heap_pages _ (λ j. none_there q j))

  create-once_shared : once_shared (create n) ≡ 0
  unfolding once_shared create allocate_shared_metadata count_sharing_procs count_loop
  create-once_shared = sum_below-zero heap_pages _ (λ j. refl)

  create-more_shared : more_shared (create n) ≡ 0
  unfolding more_shared create allocate_shared_metadata count_sharing_procs count_loop
  create-more_shared = sum_below-zero heap_pages _ (λ j. refl)

  create_counters :
      ((create n).shared.all_proc_private_page_count ≡ 192)
      × ((create n).shared.shared_page_count ≡ 1)
      × ((create n).shared.base_case_total_page_count ≡ 0)
  unfolding create allocate_shared_metadata
  create_counters = (refl, refl, refl)

  pub create-Accounted : Accounted (create n)
  create-Accounted =
      let (private_start, shared_start, base_start) = create_counters in
      let no_private = create-over_processes private_here create_private in
      let no_written = create-over_processes written_here create_written in
      record {
        enough_bits = unfold create allocate_shared_metadata in omega (arith, some_bits n);
        some_process = unfold create allocate_shared_metadata in omega arith;
        all_sound = λ rank lt.
            unfold create allocate_shared_metadata view in
            fresh_sound n rank _ (omega (arith, some_bits n)) (empty-Fits n) (λ j. bit-zero rank);
        nobody_else =
            λ rank i absent known. unfold create allocate_shared_metadata in bit-zero rank;
        private_counted = omega (arith, private_start, no_private, create-once_shared);
        shared_counted = omega (arith, shared_start, create-more_shared);
        base_counted = omega (arith, base_start, no_written);
      }

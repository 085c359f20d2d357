-- ===== src/Merge/Many.antt =====
-- SharedHeap.cpp: `MergeManyPages` with the macro `FLUSH_OUTSTANDING_MERGES`, on the pages from an index
-- on. The shared page is seen through the buffer of 4 MB. `none` is a failed assertion,
-- a page outside the heap, for which `TranslateMmapAddr` ends the process, or a comparison with a buffer
-- that is not mapped.
use sbllmalloc.Shared.{
  ℕ, zero, suc, ◌+◌, ◌-◌, Bool, true, false, not, ◌&&◌, ◌||◌, ltb, Option, none, some,
  if◌then◌else◌,
}
use sbllmalloc.Metadata.Address.{heap_pages}
use sbllmalloc.Metadata.Sharing.{get_sharing_bit, is_other_sharing}
use sbllmalloc.Metadata.Bitmap.{get_bit}
use sbllmalloc.Pages.Memory.{is_zero_content, same_content}
use sbllmalloc.Pages.State.{Pages, int_add}
use sbllmalloc.Merge.Remaps.{System, remap_region, copy_and_remap_region, remap_to_zero}

-- The variables of the loop: the pages that wait for their remapping start at `mergeable_start_addr`.
pub record Outstanding : Type 0 where
  pub pages : Pages
  pub mergeable_start_addr : Option ℕ
  pub last_page_shareable : Bool
  pub last_page_moveable : Bool
  pub last_page_zero : Bool
  pub counter_pages_merged : ℕ

abbrev pub is_some : Option ℕ → Bool
is_some none = false
is_some (some start) = true

-- The assertions at the start of a round
unfoldable pub is_consistent : Outstanding → Bool
is_consistent m =
    if is_some m.mergeable_start_addr
    then (m.last_page_zero || m.last_page_shareable || m.last_page_moveable)
      && not (
          (m.last_page_zero && m.last_page_shareable)
          || (m.last_page_zero && m.last_page_moveable)
          || (m.last_page_shareable && m.last_page_moveable))
    else not m.last_page_zero && not m.last_page_shareable && not m.last_page_moveable

module _ (os : System) where
  unfoldable pub remap_run : ℕ → ℕ → Outstanding → Pages
  remap_run start n m =
      let h1 = if m.last_page_shareable then remap_region os start n m.pages else m.pages in
      let h2 = if m.last_page_moveable then copy_and_remap_region os start n h1 else h1 in
      if m.last_page_zero then remap_to_zero os start n h2 else h2

  -- `FLUSH_OUTSTANDING_MERGES` with `p` as its end
  unfoldable pub flush : ℕ → Outstanding → Outstanding
  flush p m =
      let flushed : Outstanding = elim m.mergeable_start_addr [
        | none ↦ m
        | some start ↦ record m {
          pages = remap_run start (p - start) m;
          counter_pages_merged =
              if m.last_page_shareable || m.last_page_zero
              then int_add m.counter_pages_merged (p - start)
              else m.counter_pages_merged;
        }
      ] in
      record flushed {
        mergeable_start_addr = none;
        last_page_shareable = false;
        last_page_moveable = false;
        last_page_zero = false;
      }

  -- One round of the loop, after the assertions.
  unfoldable pub merge_page : ℕ → Outstanding → Outstanding
  merge_page p m =
      let waiting = is_some m.mergeable_start_addr in
      let flushed = if waiting then flush p m else m in
      let m1 = if m.last_page_shareable then m else flush p m in
      if not (get_bit m.pages.initialized_pages_bv p)
      then flush p m
      else if get_bit m.pages.zero_pages_bv p
      then flush p m
      else if get_sharing_bit m.pages.num_proc m.pages.my_rank m.pages.sharing_processes_info p
      then flush p m
      else if is_zero_content m.pages.memory p
      then (if waiting && m.last_page_zero
          then m
          else record flushed { mergeable_start_addr = some p; last_page_zero = true })
      else if not
          (is_other_sharing m.pages.num_proc m.pages.my_rank m.pages.sharing_processes_info p)
      then (if waiting && m.last_page_moveable
          then m
          else record flushed { mergeable_start_addr = some p; last_page_moveable = true })
      else if same_content m.pages.memory p
      then (if is_some m1.mergeable_start_addr
          then m1
          else record m1 { mergeable_start_addr = some p; last_page_shareable = true })
      else flush p m1

  -- A round compares the page with the shared one.
  unfoldable pub is_compared : ℕ → Pages → Bool
  is_compared p h =
      get_bit h.initialized_pages_bv p
      && not (get_bit h.zero_pages_bv p)
      && not (get_sharing_bit h.num_proc h.my_rank h.sharing_processes_info p)
      && not (is_zero_content h.memory p)
      && is_other_sharing h.num_proc h.my_rank h.sharing_processes_info p

  -- The round does not end the process: the assertions hold, the page lies in the heap, and the buffer is
  -- mapped where it is read.
  unfoldable pub goes_on : ℕ → Outstanding → Bool
  goes_on p m =
      is_consistent m && ltb p heap_pages && (not (is_compared p m.pages) || os.maps_buffer p)

  unfoldable pub merge_loop : ℕ → ℕ → Outstanding → Option Outstanding
  merge_loop zero p m = some m
  merge_loop (suc n) p m =
      let rest = merge_loop n (p + 1) (merge_page p m) in if goes_on p m then rest else none

  -- The pages after the merge, and the number of pages merged
  unfoldable pub merge_many_pages : ℕ → ℕ → Pages → Option (Pages × ℕ)
  merge_many_pages start n h =
      let m : Outstanding = record {
        pages = h;
        mergeable_start_addr = none;
        last_page_shareable = false;
        last_page_moveable = false;
        last_page_zero = false;
        counter_pages_merged = 0;
      } in
      elim (merge_loop n start m) [
        | none ↦ none
        | some m' ↦ let last = flush (start + n) m' in some (last.pages, last.counter_pages_merged)
      ]

-- ===== src/Merge/History.antt =====
-- SharedHeap.cpp: `CheckIfMergeable` and `UpdateMergeHist`, which are compiled with PROFILE_BASED_MERGE, under
-- PROF_MERGE_VERSION 2. Times are unsigned numbers of 32 bits, in microseconds, and wrap.
use Prim.Native.Nat.{bit_and, bit_or}
use sbllmalloc.Shared.{
  ℕ, zero, suc, ◌+◌, ◌-◌, ◌*◌, ◌/◌, ◌%◌, ◌^◌, Bool, true, false, ltb, ◌==◌, if◌then◌else◌,
}
use sbllmalloc.Bits.{to_bool}
use sbllmalloc.Metadata.Sharing.{Table, update}

pub record MergeHistory : Type 0 where
  pub merge_succ_hist : Table
  pub last_merge_time : Table

-- `mergeCostPerPage * 10`
abbrev pub merge_cost : ℕ
merge_cost = 8000 * 10

abbrev pub time_since : ℕ → ℕ → ℕ
time_since last curr_time = (curr_time + 2 ^ 32 - last) % 2 ^ 32

-- The loop over the bits of the history, with `mergeTime` and `total_merge_time`.
unfoldable pub history_loop : ℕ → ℕ → ℕ → ℕ → ℕ
history_loop zero hist merge_time total = total
history_loop (suc fuel) hist merge_time total =
    let unstable = to_bool (bit_and hist 0x80) in
    let total' = if unstable then (total + merge_time) % 2 ^ 32 else total in
    let merge_time' =
      if unstable
      then merge_time * 2 % 2 ^ 32
      else if ltb 1 merge_time
      then merge_time / 2
      else merge_time in
    let rest = history_loop fuel (hist * 2 % 2 ^ 8) merge_time' total' in
    if hist == 0 then total else rest

-- 8 rounds shift the history out.
unfoldable pub total_merge_time : ℕ → ℕ
total_merge_time hist = history_loop 8 hist merge_cost merge_cost

unfoldable pub check_if_mergeable : ℕ → ℕ → MergeHistory → Bool × MergeHistory
check_if_mergeable index curr_time h =
    let since = time_since (h.last_merge_time index) curr_time in
    let is_mergeable =
      if ltb since merge_cost
      then false
      else if ltb since (total_merge_time (h.merge_succ_hist index))
      then false
      else true in
    (
      is_mergeable,
      if is_mergeable
          then record h { last_merge_time = update h.last_merge_time index curr_time }
          else h,
    )

unfoldable pub update_merge_hist : ℕ → ℕ → MergeHistory → MergeHistory
update_merge_hist index curr_time h =
    let shifted = h.merge_succ_hist index / 2 in
    let unstable = ltb (time_since (h.last_merge_time index) curr_time) merge_cost in
    record {
      merge_succ_hist =
          update h.merge_succ_hist index (if unstable then bit_or shifted 0x80 else shifted);
      last_merge_time = update h.last_merge_time index curr_time;
    }

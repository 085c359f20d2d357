-- ===== src/Pages/Steps.antt =====
-- SharedHeap.cpp: the bookkeeping for one page in `SigSegvHandler`, `RemapRegion`,
-- `CopyAndRemapRegion` and `ShmFreeWrapper`, with `SHARED_STATS` and
-- `COLLECT_MALLOC_STAT` defined as SharedHeap.h does. The page is given by its index.
use sbllmalloc.Shared.{ℕ, Bool, true, false, ◌==◌, not, ◌&&◌, if◌then◌else◌}
use sbllmalloc.Metadata.Sharing.{
  count_sharing_procs, set_sharing_bit, unset_sharing_bit, get_sharing_bit,
}
use sbllmalloc.Metadata.Bitmap.{set_and_return_bit, reset_and_return_bit}
use sbllmalloc.Pages.Memory.{Memory, make_writable, map_zeroed, map_copy}
use sbllmalloc.Pages.State.{Pages, int_add, int_sub}

-- What the signal handler found the page to be, which decides how its mapping is changed.
pub data Fault : Type 0 where
  first_touch zero_page shared_page private_page : Fault

-- `switch(sh_cnt = CountSharingProcs(faultaddr))`, after the own bit was cleared. The assertion on
-- `aliveProcs` is left out.
unfoldable pub count_unshared : ℕ → Pages → Pages
count_unshared sh_cnt h =
    if sh_cnt == 1
    then record h {
      shared_page_count = int_sub h.shared_page_count 1;
      all_proc_private_page_count = int_add h.all_proc_private_page_count 2;
    }
    else if sh_cnt == 0
    then h
    else record h { all_proc_private_page_count = int_add h.all_proc_private_page_count 1 }

unfoldable pub unshare_page : ℕ → Pages → Pages
unshare_page i h =
    let table = unset_sharing_bit h.num_proc h.my_rank h.sharing_processes_info i in
    count_unshared (count_sharing_procs table i) (record h { sharing_processes_info = table })

-- The branch of `SigSegvHandler` for a write fault, without the change of the mapping.
unfoldable pub fault_page : ℕ → Pages → Pages × Fault
fault_page i h =
    let (is_initialized_page, initialized) = set_and_return_bit h.initialized_pages_bv i in
    let h1 = record h { initialized_pages_bv = initialized } in
    let (is_zero_page, zeros) = reset_and_return_bit h.zero_pages_bv i in
    let is_shared_page = get_sharing_bit h.num_proc h.my_rank h.sharing_processes_info i in
    let h2 = record h1 { zero_pages_bv = zeros } in
    if not is_initialized_page
    then (
      record h1 {
        all_proc_private_page_count = int_add h.all_proc_private_page_count 1;
        base_case_total_page_count = int_add h.base_case_total_page_count 1;
      },
      first_touch,
    )
    else if is_zero_page
    then (
      record h2 {
        all_proc_private_page_count = int_add h.all_proc_private_page_count 1;
        zero_page_count = int_sub h.zero_page_count 1;
      },
      zero_page,
    )
    else if is_shared_page
    then (unshare_page i h2, shared_page)
    else (h2, private_page)

-- How the handler changes the mapping of the page.
unfoldable pub change_mapping : Fault → ℕ → Memory → Memory
change_mapping first_touch i m = make_writable i m
change_mapping zero_page i m = map_zeroed i m
change_mapping shared_page i m = map_copy i m
change_mapping private_page i m = m

-- The branch of `SigSegvHandler` for a write fault, with the change of the mapping.
unfoldable pub handle_fault : ℕ → Pages → Pages
handle_fault i h =
    let (h', kind) = fault_page i h in record h' { memory = change_mapping kind i h.memory }

-- The loop body of `RemapRegion`: the page joins those that share it.
unfoldable pub remap_page : ℕ → Pages → Pages
remap_page i h =
    let h1 =
      if count_sharing_procs h.sharing_processes_info i == 1
      then record h {
        shared_page_count = int_add h.shared_page_count 1;
        all_proc_private_page_count = int_sub h.all_proc_private_page_count 1;
      }
      else h in
    record h1 {
      all_proc_private_page_count = int_sub h1.all_proc_private_page_count 1;
      sharing_processes_info = set_sharing_bit h.num_proc h.my_rank h.sharing_processes_info i;
    }

-- The loop body of `CopyAndRemapRegion`: the page is moved to the shared file, alone.
unfoldable pub copy_page : ℕ → Pages → Pages
copy_page i h = record h {
  sharing_processes_info = set_sharing_bit h.num_proc h.my_rank h.sharing_processes_info i;
}

-- `switch(sh_cnt = CountSharingProcs(p))` of `ShmFreeWrapper`, before the own bit is cleared.
unfoldable pub count_freed : ℕ → Pages → Pages
count_freed sh_cnt h =
    if sh_cnt == 1
    then record h { all_proc_private_page_count = int_sub h.all_proc_private_page_count 1 }
    else if sh_cnt == 2
    then record h {
      shared_page_count = int_sub h.shared_page_count 1;
      all_proc_private_page_count = int_add h.all_proc_private_page_count 1;
    }
    else h

-- `mmapCount -= 1`. What SH_MMAP and SH_UNMAP count is left out: nothing reads `mmapCount`.
unfoldable pub one_mmap_less : Bool → Pages → Pages
one_mmap_less test h = if test then record h { mmap_count = int_sub h.mmap_count 1 } else h

-- The loop body of `ShmFreeWrapper` where merging is enabled, with the variable `last_page_shared`.
unfoldable pub free_page : ℕ → Bool → Pages → Pages × Bool
free_page i last_page_shared h =
    let (is_initialized_page, initialized) = reset_and_return_bit h.initialized_pages_bv i in
    let h1 = record h { initialized_pages_bv = initialized } in
    let (is_zero_page, zeros) = reset_and_return_bit h.zero_pages_bv i in
    let is_shared_page = get_sharing_bit h.num_proc h.my_rank h.sharing_processes_info i in
    let h2 = one_mmap_less (last_page_shared && not is_shared_page) (record h1 {
      zero_pages_bv = zeros;
      base_case_total_page_count = int_sub h.base_case_total_page_count 1;
    }) in
    let h3 = count_freed (count_sharing_procs h.sharing_processes_info i) h2 in
    if is_initialized_page
    then (if is_zero_page
        then (
          one_mmap_less true (record h2 { zero_page_count = int_sub h.zero_page_count 1 }),
          false,
        )
        else if is_shared_page
        then (
          record h3 {
            sharing_processes_info =
                unset_sharing_bit h.num_proc h.my_rank h.sharing_processes_info i;
          },
          true,
        )
        else (
          record h2 { all_proc_private_page_count = int_sub h.all_proc_private_page_count 1 },
          false,
        ))
    else (one_mmap_less last_page_shared h1, false)

-- The loop body where merging is disabled: no page is shared or zero.
unfoldable pub free_unmerged_page : ℕ → Pages → Pages
free_unmerged_page i h =
    let (is_initialized_page, initialized) = reset_and_return_bit h.initialized_pages_bv i in
    let h1 = record h { initialized_pages_bv = initialized } in
    if is_initialized_page
    then record h1 {
      base_case_total_page_count = int_sub h.base_case_total_page_count 1;
      all_proc_private_page_count = int_sub h.all_proc_private_page_count 1;
    }
    else h1

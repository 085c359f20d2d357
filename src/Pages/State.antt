-- ===== src/Pages/State.antt =====
-- SharedHeap.cpp: the static variables that describe pages. `sharing` and the three counters that follow
-- it lie in the shared file; the semaphore is held where a step reads and writes them.
use sbllmalloc.Shared.{ℕ, ◌+◌, ◌-◌, ◌%◌, ◌^◌}
use sbllmalloc.Metadata.Sharing.{Table, NumProc}
use sbllmalloc.Pages.Memory.{Memory}

-- A C `int`, as its bit pattern of 32 bits.
abbrev pub int_add : ℕ → ℕ → ℕ
int_add x k = (x + k) % 2 ^ 32

abbrev pub int_sub : ℕ → ℕ → ℕ
int_sub x k = (x + 2 ^ 32 - k) % 2 ^ 32

pub record Pages : Type 0 where
  pub num_proc : NumProc
  pub my_rank : ℕ
  pub sharing_processes_info : Table
  pub shared_page_count : ℕ
  pub all_proc_private_page_count : ℕ
  pub base_case_total_page_count : ℕ
  pub alive_procs : ℕ
  pub initialized_pages_bv : Table
  pub zero_pages_bv : Table
  pub zero_page_count : ℕ
  pub mmap_count : ℕ
  pub memory : Memory

-- ===== src/Process/Start.antt =====
-- SharedHeap.cpp: `InitAddrSpace` and `MPI_Init`, on pages of 4096 bytes. The addresses that `mmap` returns to
-- `Init_Heap_Boundary`, the number of cores, the environment and the shared file are given; the calls of
-- the system succeed. `none` is the end of the process, and also the start with a negative
-- `MERGE_METRIC`, which the code accepts and for which it has no policy.
use mathlib.Core.Option
use sbllmalloc.Shared.{
  ℕ, [], Bool, true, false, not, Option, none, some, ◌==◌, if◌then◌else◌, ℤ, pos, negsuc,
}
use sbllmalloc.Avl.Tree.{create_avl}
use sbllmalloc.Metadata.Address.{Space, init_heap_boundary}
use sbllmalloc.Metadata.Sharing.{NumProc, choose_num_proc}
use sbllmalloc.Nodes.State.{SharedMetadata, Node, view, allocate_shared_metadata, new_process}
use sbllmalloc.Regions.Aspace.{my_comparator}
use sbllmalloc.Regions.Heap.{
  MergeMetric, merge_disabled, alloc_frequency, threshold, buffered, page_size,
}
use sbllmalloc.Startup.Environment.{
  Variable, enable_backtrace, merge_metric, min_mem_th, malloc_merge_freq, not_mpi_app, sem_key,
  Settings, init_env,
}
use sbllmalloc.Process.Calls.{Process}

-- The static variables before the start. `mergeMetric` is THRESHOLD, and `mallocRefFreq` is MALLOC_REF_FREQ.
abbrev pub static_settings : Settings
static_settings enable_backtrace = pos 0
static_settings merge_metric = pos 2
static_settings min_mem_th = pos 10000
static_settings malloc_merge_freq = pos 1000
static_settings not_mpi_app = pos 0
static_settings sem_key = pos 1234

-- `_MERGE_METRICS`
unfoldable pub metric_of : ℤ → Option MergeMetric
metric_of (pos n) =
    if n == 0
    then some merge_disabled
    else if n == 1
    then some alloc_frequency
    else if n == 2
    then some threshold
    else if n == 3
    then some buffered
    else none
metric_of (negsuc n) = none

abbrev pub magnitude : ℤ → ℕ
magnitude (pos n) = n
magnitude (negsuc n) = 0

abbrev pub is_set : ℤ → Bool
is_set (pos n) = not (n == 0)
is_set (negsuc n) = true

-- What a process reads before it starts
pub record Surroundings : Type 0 where
  pub first_mapping : ℕ
  pub second_mapping : ℕ
  pub cores : ℕ
  pub getenv : Variable → Option ℤ
  pub file : Option SharedMetadata

-- The variables once all is read
unfoldable pub start_process : Surroundings → Space → Settings → MergeMetric → NumProc → Process
start_process given space s metric n =
    let (file, rank) = allocate_shared_metadata given.file in
    let node : Node = record { num_proc = n; shared = file; process = λ q. new_process } in
    record {
      heap = record {
        is_mpi_initialized = false;
        not_mpi_app = is_set (s not_mpi_app);
        is_mpi_finalized = false;
        merge_metric = metric;
        space = space;
        alloc_record = some (create_avl my_comparator);
        pages = view node rank;
      };
      count_down_timer = 100;
      merge_min_mem_th = magnitude (s min_mem_th);
      malloc_ref_freq = magnitude (s malloc_merge_freq);
      malloc_ref_counter = 0;
      buffer_of_dirty_pages = [];
    }

unfoldable pub init_addr_space : Surroundings → Space → Option Process
init_addr_space given space = Option.bind (init_env page_size given.getenv static_settings) (λ s.
    Option.bind (metric_of (s merge_metric))
      (λ metric. Option.map (start_process given space s metric) (choose_num_proc given.cores)))

abbrev pub set_mpi_initialized : Process → Process
set_mpi_initialized p = record p { heap = record p.heap { is_mpi_initialized = true } }

unfoldable pub mpi_init : Surroundings → Option Process
mpi_init given =
    let space = init_heap_boundary page_size given.first_mapping given.second_mapping in
    Option.map set_mpi_initialized (init_addr_space given space)

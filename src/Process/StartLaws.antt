-- ===== src/Process/StartLaws.antt =====
-- SharedHeap.cpp: what holds of a process after `MPI_Init`.
use mathlib.Core.Option
use mathlib.Core.Path.{subst}
use sbllmalloc.Shared.{
  ℕ, ◌+◌, ◌-◌, ◌%◌, ◌^◌, ◌≤◌, ◌<◌, ◌≡◌, refl, arith, [], true, false, Option, none, some,
}
use sbllmalloc.Bits.{bit-zero}
use sbllmalloc.Avl.Tree.{AvlTreeData, create_avl}
use sbllmalloc.Avl.Refinement.{IsValid, regions, create_avl-IsValid}
use sbllmalloc.Metadata.Address.{IsHeap, heap_bytes, init_heap_boundary, init_heap_boundary-IsHeap}
use sbllmalloc.Metadata.Sharing.{NumProc, bits, choose_num_proc}
use sbllmalloc.Metadata.SharingLaws.{Fits, sharer}
use sbllmalloc.Pages.Account.{IsSound}
use sbllmalloc.Nodes.State.{SharedMetadata, Node, view, allocate_shared_metadata, new_process}
use sbllmalloc.Nodes.CreateLaws.{fresh_sound, empty-Fits, some_bits, bits_le}
use sbllmalloc.Regions.Aspace.{my_comparator}
use sbllmalloc.Regions.AspaceLaws.{my_comparator-IsComparator}
use sbllmalloc.Regions.Heap.{MergeMetric, check_mpi_initialized}
use sbllmalloc.Startup.Environment.{merge_metric, Settings, init_env}
use sbllmalloc.Process.Calls.{Process}
use sbllmalloc.Process.Start.{
  Surroundings, static_settings, metric_of, start_process, set_mpi_initialized, init_addr_space,
  mpi_init,
}

-- There is a bit for a further process, and it is not set anywhere.
abbrev pub HasRoom : NumProc → Option SharedMetadata → Type 0
HasRoom n none = Unit {0}
HasRoom n (some file) =
    (file.alive_procs < bits n)
    × Fits n file.sharing_processes_info
    × ((i : ℕ) → sharer file.sharing_processes_info file.alive_procs i ≡ 0)

start-IsSound :
    (n : NumProc) (found : Option SharedMetadata)
    → HasRoom n found
    → let (file, rank) = allocate_shared_metadata found in
      let node : Node = record { num_proc = n; shared = file; process = λ q. new_process } in
      IsSound (view node rank)
unfolding allocate_shared_metadata view
start-IsSound n none room = fresh_sound n 0 _ (some_bits n) (empty-Fits n) (λ j. bit-zero 0)
start-IsSound n (some file) (known, fits, absent) =
    let e : file.alive_procs ≡ ((file.alive_procs + 1) % 2 ^ 32 + 2 ^ 32 - 1) % 2 ^ 32 =
      omega (arith, known, bits_le n) in
    subst
      (λ rank. IsSound (
        view
          (record {
            num_proc = n;
            shared = record file { alive_procs = (file.alive_procs + 1) % 2 ^ 32 };
            process = λ q. new_process;
          })
          rank))
      e (fresh_sound n file.alive_procs file.sharing_processes_info known fits absent)

-- Where `InitEnv` accepts the settings and they name a policy, there are at most 16 cores, the
-- table has a bit for the process that is set nowhere, and the first mapping lies at least 3 GB
-- high, `MPI_Init` returns with MPI initialised and not finalised, the policy that is set, a heap
-- of 3 GB, sound metadata and a valid record without regions.
pub mpi_init_starts :
    (given : Surroundings) (s : Settings) (metric : MergeMetric) (n : NumProc)
    → init_env 4096 given.getenv static_settings ≡ some s
    → metric_of (s merge_metric) ≡ some metric
    → choose_num_proc given.cores ≡ some n
    → HasRoom n given.file
    → heap_bytes ≤ given.first_mapping + 4096
    → (p : Process) × (tree : AvlTreeData) × (mpi_init given ≡ some p)
      × (check_mpi_initialized p.heap ≡ true)
      × (p.heap.is_mpi_finalized ≡ false)
      × (p.heap.merge_metric ≡ metric)
      × IsHeap p.heap.space
      × IsSound p.heap.pages
      × (p.heap.alloc_record ≡ some tree)
      × IsValid (2 ^ 63) tree
      × (regions tree ≡ [])
unfolding mpi_init start_process init_addr_space check_mpi_initialized Option.bind
mpi_init_starts given s metric n settings policy processes room high =
    let (valid, no_regions) =
      create_avl-IsValid (2 ^ 63) my_comparator my_comparator-IsComparator in
    let space = init_heap_boundary 4096 given.first_mapping given.second_mapping in
    (
      set_mpi_initialized (start_process given space s metric n),
      create_avl my_comparator,
      rw (settings, policy, processes) refl,
      refl,
      refl,
      refl,
      init_heap_boundary-IsHeap 4096 given.first_mapping given.second_mapping high,
      start-IsSound n given.file room,
      refl,
      valid,
      no_regions,
    )

-- ===== src/Tests/StartRuns.antt =====
-- Runs of the start of a process with the default settings, of its statistics and of a call stack.
use sbllmalloc.Shared.{
  ℕ, ◌-◌, ◌*◌, ◌/◌, ◌^◌, ◌≤◌, ◌<◌, ◌≡◌, refl, arith, List, [], ◌∷◌, map, length, true, false,
  Option, none, some, ltb, ◌==◌, if◌then◌else◌, ℤ, pos,
}
use sbllmalloc.Avl.Tree.{AvlTreeData}
use sbllmalloc.Avl.Refinement.{IsValid, regions}
use sbllmalloc.Metadata.Address.{IsHeap}
use sbllmalloc.Metadata.Sharing.{eight, choose_num_proc}
use sbllmalloc.Pages.State.{Pages}
use sbllmalloc.Pages.Account.{IsSound}
use sbllmalloc.Regions.Heap.{alloc_frequency, check_mpi_initialized}
use sbllmalloc.Startup.Environment.{
  Variable, merge_metric, min_mem_th, malloc_merge_freq, Settings, slot, assign, args, read_args,
  less, times, check_env, init_env,
}
use sbllmalloc.Startup.EnvironmentLaws.{set_or_default, init_env_accepts}
use sbllmalloc.Startup.CallStack.{LoadRange, filled, first_outside, get_call_stack}
use sbllmalloc.Startup.CallStackLaws.{drop_inside, get_call_stack-eq-drop_inside}
use sbllmalloc.Statistics.Log.{Log, max_merges, line, usage, close_log}
use sbllmalloc.Statistics.LogLaws.{store_all, close_log-store_all}
use sbllmalloc.Process.Calls.{Process}
use sbllmalloc.Process.Start.{Surroundings, static_settings, metric_of, mpi_init}
use sbllmalloc.Process.StartLaws.{mpi_init_starts}
use sbllmalloc.Tests.Samples.{pages, written}

abbrev nothing_set : Variable → Option ℤ
nothing_set v = none

abbrev defaults : Settings
defaults =
    let given = read_args nothing_set args static_settings in
    assign given min_mem_th (times (given min_mem_th) (1000000 / 4096))

init_env_accepts_example :
    (th freq : ℕ) × (set_or_default nothing_set min_mem_th ≡ pos th)
    × (set_or_default nothing_set malloc_merge_freq ≡ pos freq)
    × (0 < freq)
    × (less (set_or_default nothing_set merge_metric) 4 ≡ true)
    × (defaults min_mem_th ≡ pos (th * (1000000 / 4096)))
    × (th * (1000000 / 4096) < 2 ^ 31)
    × ((v : Variable)
        → (slot v == slot min_mem_th) ≡ false
        → defaults v ≡ set_or_default nothing_set v)
unfolding init_env check_env read_args
init_env_accepts_example =
    init_env_accepts 4096 nothing_set static_settings defaults (omega arith) refl

abbrev first_process : Surroundings
first_process = record {
  first_mapping = 0x7f0000000000;
  second_mapping = 0x7effffff0000;
  cores = 8;
  getenv = nothing_set;
  file = none;
}

mpi_init_starts_example :
    (p : Process) × (tree : AvlTreeData) × (mpi_init first_process ≡ some p)
    × (check_mpi_initialized p.heap ≡ true)
    × (p.heap.is_mpi_finalized ≡ false)
    × (p.heap.merge_metric ≡ alloc_frequency)
    × IsHeap p.heap.space
    × IsSound p.heap.pages
    × (p.heap.alloc_record ≡ some tree)
    × IsValid (2 ^ 63) tree
    × (regions tree ≡ [])
unfolding init_env check_env read_args metric_of choose_num_proc
mpi_init_starts_example =
    mpi_init_starts first_process defaults alloc_frequency eight refl refl refl tt (omega arith)

-- Two calls of the library, then two of the program.
abbrev return_addresses : List ℕ
return_addresses = 100 ∷ 110 ∷ 900 ∷ 910 ∷ []

abbrev same_word : ℕ → ℕ
same_word address = address

abbrev loaded : LoadRange
loaded = record { low = 50; high = 200 }

get_call_stack-eq-drop_inside_example : get_call_stack same_word loaded true return_addresses 1 ≡ (
    if ltb 1 (length return_addresses - first_outside same_word loaded return_addresses)
    then filled same_word loaded (drop_inside same_word loaded return_addresses) 1
    else if ltb 1 (first_outside same_word loaded return_addresses)
    then filled same_word loaded return_addresses 1
    else 0)
get_call_stack-eq-drop_inside_example =
    get_call_stack-eq-drop_inside same_word loaded return_addresses 1

abbrev stored : List (ℕ × Pages)
stored = (0x1000, pages) ∷ (0x2000, written) ∷ []

abbrev new_log : Log
new_log = record { mem_stat = []; out_file = some [] }

close_log-store_all_example :
    (length (store_all stored new_log).mem_stat ≤ max_merges)
    × ((close_log (store_all stored new_log)).1 ≡ some (map (λ c. line (usage c.0 c.1)) stored))
close_log-store_all_example = close_log-store_all stored

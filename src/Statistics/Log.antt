-- ===== src/Statistics/Log.antt =====
-- SharedHeap.cpp: `StoreMemUsageStat`, `UpdateMergeStat`, `PrintMergeStat` and what `MPI_Finalize` does with
-- the output file. The memory that ptmalloc uses is given.
use sbllmalloc.Shared.{
  ℕ, ◌+◌, ◌-◌, ◌*◌, ◌%◌, ◌^◌, List, [], ◌∷◌, ◌++◌, map, length, Option, none, some, ltb, ◌==◌,
  if◌then◌else◌,
}
use sbllmalloc.Pages.State.{Pages, int_add}

-- `MemStatStruct`. A number is an unsigned one of 64 bits.
pub record MemStat : Type 0 where
  pub total_private_mem : ℕ
  pub total_ptmalloc_mem : ℕ
  pub total_zero_mem : ℕ
  pub total_shared_mem : ℕ
  pub total_unmerged_mem : ℕ
  pub total_merged_mem : ℕ
  pub merge_time_in_microsec : ℕ

-- What `fprintf` writes in a line
abbrev pub line : MemStat → List ℕ
line s =
    s.total_private_mem ∷ s.total_ptmalloc_mem ∷ s.total_zero_mem ∷ s.total_shared_mem
    ∷ s.total_unmerged_mem ∷ s.total_merged_mem ∷ []

-- The entries of `memStat` below `memStatCounter`, and the lines in `outFile`, if it is open.
pub record Log : Type 0 where
  pub mem_stat : List MemStat
  pub out_file : Option (List (List ℕ))

abbrev pub max_merges : ℕ
max_merges = 10000

unfoldable pub print_merge_stat : Log → Log
print_merge_stat log = elim log.out_file [
  | none ↦ log
  | some lines ↦ record log { out_file = some (lines ++ map line log.mem_stat) }
]

unfoldable pub update_merge_stat : MemStat → Log → Log
update_merge_stat s log =
    let log1 =
      if length log.mem_stat == max_merges
      then record (print_merge_stat log) { mem_stat = [] }
      else log in
    record log1 { mem_stat = log1.mem_stat ++ s ∷ [] }

-- An `int` as an `unsigned long`
unfoldable pub to_ulong : ℕ → ℕ
to_ulong c = let word = c % 2 ^ 32 in if ltb word (2 ^ 31) then word else word + (2 ^ 64 - 2 ^ 32)

unfoldable pub usage : ℕ → Pages → MemStat
usage private_mem h =
    let ptmalloc = private_mem * to_ulong h.alive_procs in
    let in_bytes = λ (pages : ℕ). to_ulong pages * 4096 % 2 ^ 64 in
    record {
      total_private_mem = (ptmalloc + in_bytes h.all_proc_private_page_count) % 2 ^ 64;
      total_ptmalloc_mem = ptmalloc % 2 ^ 64;
      total_zero_mem = in_bytes h.zero_page_count;
      total_shared_mem = in_bytes h.shared_page_count;
      total_unmerged_mem = (ptmalloc + in_bytes h.base_case_total_page_count) % 2 ^ 64;
      total_merged_mem =
          (ptmalloc + in_bytes (int_add h.all_proc_private_page_count h.shared_page_count))
          % 2 ^ 64;
      merge_time_in_microsec = 0;
    }

unfoldable pub store_mem_usage_stat : ℕ → Pages → Log → Log
store_mem_usage_stat private_mem h log =
    let stored = update_merge_stat (usage private_mem h) log in
    elim log.out_file [ none ↦ log | some lines ↦ stored ]

-- The file is closed: the lines it has, and the log without it.
unfoldable pub close_log : Log → Log × Option (List (List ℕ))
close_log log = (record log { out_file = none }, (print_merge_stat log).out_file)

-- ===== src/Statistics/LogLaws.antt =====
-- SharedHeap.cpp: what the file of the statistics has at the end, and the memory that it shows.
use mathlib.Core.Path.{subst}
use sbllmalloc.Shared.{
  ℕ, ◌≤◌, ◌≡◌, refl, sym, ap, ◌∙◌, arith, List, [], ◌∷◌, ◌++◌, map, append_assoc, append-nil,
  length, length-append, Option, none, some, ◌==◌, Bool-cases, inl, inr,
}
use sbllmalloc.Pages.State.{Pages}
use sbllmalloc.Statistics.Log.{
  MemStat, line, Log, max_merges, print_merge_stat, update_merge_stat, usage, store_mem_usage_stat,
  close_log,
}

-- The calls of `StoreMemUsageStat`, in order
unfoldable pub store_all : List (ℕ × Pages) → Log → Log
store_all [] log = log
store_all (c ∷ calls) log = store_all calls (store_mem_usage_stat c.0 c.1 log)

-- A log that has these lines, in its file and in its buffer
abbrev pub Holds : Log → List (List ℕ) → Type 0
Holds log all =
    (lines : List (List ℕ)) × (log.out_file ≡ some lines)
    × (lines ++ map line log.mem_stat ≡ all)
    × (length log.mem_stat ≤ max_merges)

map-append : (xs ys : List MemStat) → map line (xs ++ ys) ≡ map line xs ++ map line ys
map-append [] ys = refl
map-append (x ∷ xs) ys = ap (λ r. line x ∷ r) (map-append xs ys)

update_merge_stat-Holds :
    (s : MemStat) (log : Log) (all : List (List ℕ))
    → Holds log all
    → Holds (update_merge_stat s log) (all ++ line s ∷ [])
unfolding update_merge_stat print_merge_stat
update_merge_stat-Holds s log all (lines, there, held, small) =
    let longer = length-append log.mem_stat (s ∷ []) in
    elim (Bool-cases (length log.mem_stat == max_merges)) [
      | inl full ↦
          rw (full, there)
            (lines ++ map line log.mem_stat, refl, ap (λ r. r ++ line s ∷ []) held, omega arith)
      | inr room ↦ rw room (
        lines,
        there,
        ap (λ r. lines ++ r) (map-append log.mem_stat (s ∷ []))
            ∙ sym (append_assoc lines (map line log.mem_stat) (line s ∷ []))
            ∙ ap (λ r. r ++ line s ∷ []) held,
        ground (arith, longer, room),
      )
    ]

store_mem_usage_stat-Holds :
    (private_mem : ℕ) (h : Pages) (log : Log) (all : List (List ℕ))
    → Holds log all
    → Holds (store_mem_usage_stat private_mem h log) (all ++ line (usage private_mem h) ∷ [])
unfolding store_mem_usage_stat
store_mem_usage_stat-Holds private_mem h log all holds =
    let s = usage private_mem h in
    let stored : Log = update_merge_stat s log in
    let chosen =
      λ (o : Option (List (List ℕ))). elim o as (λ x. Log) [ none ↦ log | some lines ↦ stored ] in
    subst (λ o. Holds (chosen o) (all ++ line s ∷ [])) (sym holds.1)
      (update_merge_stat-Holds s log all holds)

store_all-Holds :
    (calls : List (ℕ × Pages)) (log : Log) (all : List (List ℕ))
    → Holds log all
    → Holds (store_all calls log) (all ++ map (λ c. line (usage c.0 c.1)) calls)
unfolding store_all
store_all-Holds [] log all holds = subst (Holds log) (sym (append-nil all)) holds
store_all-Holds (c ∷ calls) log all holds =
    subst (Holds (store_all calls (store_mem_usage_stat c.0 c.1 log)))
      (append_assoc all (line (usage c.0 c.1) ∷ []) (map (λ d. line (usage d.0 d.1)) calls))
      (store_all-Holds calls (store_mem_usage_stat c.0 c.1 log) (all ++ line (usage c.0 c.1) ∷ [])
        (store_mem_usage_stat-Holds c.0 c.1 log all holds))

-- After any calls of `StoreMemUsageStat` with an open file and an empty buffer, the buffer holds
-- at most `MAX_MERGES` entries, and the file that `MPI_Finalize` closes has one line for each
-- call, in order.
pub close_log-store_all :
    (calls : List (ℕ × Pages))
    → let log : Log = record { mem_stat = []; out_file = some [] } in
      (length (store_all calls log).mem_stat ≤ max_merges)
      × ((close_log (store_all calls log)).1 ≡ some (map (λ c. line (usage c.0 c.1)) calls))
unfolding close_log print_merge_stat
close_log-store_all calls =
    let log : Log = record { mem_stat = []; out_file = some [] } in
    let start : Holds log [] = ([], refl, refl, omega arith) in
    let (lines, there, held, small) = store_all-Holds calls log [] start in
    (small, rw there (ap some held))

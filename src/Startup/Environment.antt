-- ===== src/Startup/Environment.antt =====
-- SharedHeap.cpp: `InitEnv` and `CheckEnv`. `getenv` is given with `atoi` applied to its result. `none` is a
-- failed assertion. A setting is an `int`; the product in `CheckEnv` is that of integers.
use sbllmalloc.Shared.{
  ℕ, ◌+◌, ◌-◌, ◌*◌, ◌/◌, List, [], ◌∷◌, Bool, true, not, ◌&&◌, Option, none, some, ltb, ◌==◌,
  if◌then◌else◌, ℤ, pos, negsuc, is_pos,
}

-- The variables that the table `args` names, without those of the profiler.
pub data Variable : Type 0 where
  enable_backtrace merge_metric min_mem_th malloc_merge_freq not_mpi_app sem_key : Variable

-- `commandLineArgument`
pub record Argument : Type 0 where
  pub name : Variable
  pub default_val : ℤ

abbrev pub args : List Argument
args =
    record { name = enable_backtrace; default_val = pos 0 }
    ∷ record { name = merge_metric; default_val = pos 1 }
    ∷ record { name = min_mem_th; default_val = pos 10 }
    ∷ record { name = malloc_merge_freq; default_val = pos 1000 }
    ∷ record { name = not_mpi_app; default_val = pos 0 }
    ∷ record { name = sem_key; default_val = pos 1234 }
    ∷ []

-- The static variables, by what sets them.
abbrev pub Settings : Type 0
Settings = Variable → ℤ

abbrev pub slot : Variable → ℕ
slot enable_backtrace = 0
slot merge_metric = 1
slot min_mem_th = 2
slot malloc_merge_freq = 3
slot not_mpi_app = 4
slot sem_key = 5

abbrev pub assign : Settings → Variable → ℤ → Settings
assign s v x w = if slot w == slot v then x else s w

-- The loop of `InitEnv`
unfoldable pub read_args : (Variable → Option ℤ) → List Argument → Settings → Settings
read_args getenv [] s = s
read_args getenv (a ∷ rest) s =
    let value : ℤ = elim (getenv a.name) [ none ↦ a.default_val | some x ↦ x ] in
    read_args getenv rest (assign s a.name value)

abbrev pub less : ℤ → ℕ → Bool
less (pos n) k = ltb n k
less (negsuc n) k = true

abbrev pub times : ℤ → ℕ → ℤ
times (pos n) k = pos (n * k)
times (negsuc n) k = if k == 0 then pos 0 else negsuc ((n + 1) * k - 1)

unfoldable pub check_env : ℕ → Settings → Option Settings
check_env page_size s =
    if not (less (s merge_metric) 4)
    then none
    else if not (is_pos (s min_mem_th) && less (s min_mem_th) 100000)
    then none
    else if not (is_pos (s malloc_merge_freq))
    then none
    else some (assign s min_mem_th (times (s min_mem_th) (1000000 / page_size)))

unfoldable pub init_env : ℕ → (Variable → Option ℤ) → Settings → Option Settings
init_env page_size getenv start = check_env page_size (read_args getenv args start)

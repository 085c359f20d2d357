-- ===== src/Startup/CallStack.antt =====
-- SharedHeap.cpp: `GetMemRange`, `GetCallStack` and `GetBacktrace`. The lines of /proc/self/maps are given, each
-- with whether it names the library, and so is what `backtrace` finds, which is at most as long as it was
-- asked for, and the memory, which `load` reads.
use sbllmalloc.Shared.{
  ℕ, zero, suc, ◌+◌, ◌-◌, ◌^◌, List, [], ◌∷◌, length, Bool, true, false, not, ◌||◌, Option, none,
  some, ltb, leb, ◌==◌, if◌then◌else◌,
}

-- `lowLoadAddr` and `highLoadAddr`
pub record LoadRange : Type 0 where
  pub low : ℕ
  pub high : ℕ

pub record MapsLine : Type 0 where
  pub first : ℕ
  pub last : ℕ
  pub has_libptmalloc : Bool

abbrev pub no_range : LoadRange
no_range = record { low = 2 ^ 64 - 1; high = 0 }

unfoldable pub extend_range : LoadRange → MapsLine → LoadRange
extend_range r l =
    if l.has_libptmalloc
    then record {
      low = if ltb l.first r.low then l.first else r.low;
      high = if ltb r.high l.last then l.last else r.high;
    }
    else r

unfoldable pub extend_all : List MapsLine → LoadRange → LoadRange
extend_all [] r = r
extend_all (l ∷ rest) r = extend_all rest (extend_range r l)

-- `none` is a file that cannot be opened, after which `enableBacktrace` is false.
unfoldable pub get_mem_range : Option (List MapsLine) → LoadRange → LoadRange × Bool
get_mem_range none r = (r, false)
get_mem_range (some lines) r = (extend_all lines r, true)

-- The code compares what it reads at a return address.
abbrev pub outside : (ℕ → ℕ) → LoadRange → ℕ → Bool
outside load r frame = ltb (load frame) r.low || leb r.high (load frame)

module _ (load : ℕ → ℕ) (r : LoadRange) where
  -- The first loop of `GetCallStack`: the index at which it stops
  unfoldable pub first_outside : List ℕ → ℕ
  first_outside [] = 0
  first_outside (frame ∷ rest) =
      let later = first_outside rest in if outside load r frame then 0 else later + 1

  -- The array, as a function of the index. 0 is NULL.
  abbrev pub write : (ℕ → ℕ) → ℕ → ℕ → ℕ → ℕ
  write stack i x k = if k == i then x else stack k

  -- The second loop: `n` rounds, from the indices `i` and `j` on
  unfoldable pub shift_down : ℕ → ℕ → ℕ → (ℕ → ℕ) → ℕ → ℕ
  shift_down zero i j stack = stack
  shift_down (suc n) i j stack = shift_down n (i + 1) (j + 1) (write (write stack j (stack i)) i 0)

  abbrev pub filled : List ℕ → ℕ → ℕ
  filled [] k = 0
  filled (frame ∷ rest) zero = frame
  filled (frame ∷ rest) (suc k) = filled rest k

  unfoldable pub get_call_stack : Bool → List ℕ → ℕ → ℕ
  get_call_stack enable_backtrace frames =
      let i = first_outside frames in
      if not enable_backtrace
      then (λ k. 0)
      else if i == 0
      then filled frames
      else shift_down (length frames - i) i 0 (filled frames)

  -- 0 where backtraces are disabled or no frame lies outside
  unfoldable pub get_backtrace : Bool → List ℕ → ℕ
  get_backtrace enable_backtrace [] = 0
  get_backtrace enable_backtrace (frame ∷ rest) =
      let later = get_backtrace enable_backtrace rest in
      if not enable_backtrace then 0 else if outside load r frame then load frame else later

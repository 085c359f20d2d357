-- ===== src/Pages/Account.antt =====
-- What the shared counters are to count, and steps that keep them in account.
use sbllmalloc.Shared.{
  ℕ, ◌+◌, ◌%◌, ◌^◌, ◌<◌, ◌≡◌, ◌≢◌, refl, arith, Bool, true, false, not, ltb, ◌==◌, ◌&&◌,
}
use sbllmalloc.Metadata.Sharing.{NumProc, Table, bits, count_sharing_procs, get_sharing_bit}
use sbllmalloc.Metadata.SharingLaws.{Fits}
use sbllmalloc.Metadata.OwnView.{to_count}
use sbllmalloc.Metadata.Bitmap.{get_bit}
use sbllmalloc.Metadata.BitmapLaws.{IsBytes}
use sbllmalloc.Pages.Sums.{sum_below, sum_below-change}
use sbllmalloc.Pages.Memory.{Memory}
use sbllmalloc.Pages.State.{Pages}

-- The four facts that the metadata tell of a page.
abbrev pub is_initialized : Pages → ℕ → Bool
is_initialized h i = get_bit h.initialized_pages_bv i

abbrev pub is_zero : Pages → ℕ → Bool
is_zero h i = get_bit h.zero_pages_bv i

abbrev pub is_shared : Pages → ℕ → Bool
is_shared h i = get_sharing_bit h.num_proc h.my_rank h.sharing_processes_info i

abbrev pub sharers : Pages → ℕ → ℕ
sharers h i = count_sharing_procs h.sharing_processes_info i

-- The tables are well formed, a page that is zero or shared has been written, and no page is both.
pub record SoundTables (n : NumProc) (rank : ℕ) (sharing initialized zeros : Table) : Type 0 where
  pub known : rank < bits n
  pub fits : Fits n sharing
  pub bytes_initialized : IsBytes initialized
  pub bytes_zero : IsBytes zeros
  pub zero_initialized : (i : ℕ) → get_bit zeros i ≡ true → get_bit initialized i ≡ true
  pub shared_initialized :
      (i : ℕ) → get_sharing_bit n rank sharing i ≡ true → get_bit initialized i ≡ true
  pub exclusive : (i : ℕ) → get_bit zeros i ≡ true → get_sharing_bit n rank sharing i ≡ false

abbrev pub IsSound : Pages → Type 0
IsSound h =
    SoundTables h.num_proc h.my_rank h.sharing_processes_info h.initialized_pages_bv h.zero_pages_bv

-- A page that the process has written and that has a frame of its own.
abbrev pub is_private : Pages → ℕ → Bool
is_private h i = is_initialized h i && not (is_zero h i) && not (is_shared h i)

-- What a page counts in `allProcPrivatePageCount` (a page with one sharer still counts as private),
-- in `sharedPageCount` and in `baseCaseTotalPageCount`.
unfoldable pub private_weight : Pages → ℕ → ℕ
private_weight h i = to_count (is_private h i) + to_count (sharers h i == 1)

unfoldable pub shared_weight : Pages → ℕ → ℕ
shared_weight h i = to_count (ltb 1 (sharers h i))

unfoldable pub base_weight : Pages → ℕ → ℕ
base_weight h i = to_count (is_initialized h i)

abbrev pub int_range : ℕ
int_range = 2 ^ 32

-- A counter moves, as an `int`, by what a sum moves: from `c` and `s` to `c'` and `s'`.
abbrev pub Moves : ℕ → ℕ → ℕ → ℕ → Type 0
Moves c s c' s' = (c' + s) % int_range ≡ (c + s') % int_range

-- From `h` to `h'` the counters move by what the first `n` pages count.
pub record Conserves (n : ℕ) (h h' : Pages) : Type 0 where
  pub private_moves :
      Moves h.all_proc_private_page_count
        (sum_below n (private_weight h))
        h'.all_proc_private_page_count
        (sum_below n (private_weight h'))
  pub shared_moves :
      Moves h.shared_page_count
        (sum_below n (shared_weight h))
        h'.shared_page_count
        (sum_below n (shared_weight h'))
  pub base_moves :
      Moves h.base_case_total_page_count
        (sum_below n (base_weight h))
        h'.base_case_total_page_count
        (sum_below n (base_weight h'))

pub Conserves-refl : (n : ℕ) (h : Pages) → Conserves n h h
Conserves-refl n h = record { private_moves = refl; shared_moves = refl; base_moves = refl }

Moves-trans : (c s c' s' c'' s'' : ℕ) → Moves c s c' s' → Moves c' s' c'' s'' → Moves c s c'' s''
Moves-trans c s c' s' c'' s'' p q = omega arith

pub Conserves-trans :
    {n : ℕ} {h h' h'' : Pages} → Conserves n h h' → Conserves n h' h'' → Conserves n h h''
Conserves-trans p q = record {
  private_moves = Moves-trans _ _ _ _ _ _ p.private_moves q.private_moves;
  shared_moves = Moves-trans _ _ _ _ _ _ p.shared_moves q.shared_moves;
  base_moves = Moves-trans _ _ _ _ _ _ p.base_moves q.base_moves;
}

-- The same for one page, with the other pages as they were.
pub record ConservesAt (i : ℕ) (h h' : Pages) : Type 0 where
  pub private_here :
      Moves h.all_proc_private_page_count
        (private_weight h i)
        h'.all_proc_private_page_count
        (private_weight h' i)
  pub shared_here :
      Moves h.shared_page_count (shared_weight h i) h'.shared_page_count (shared_weight h' i)
  pub base_here :
      Moves h.base_case_total_page_count
        (base_weight h i)
        h'.base_case_total_page_count
        (base_weight h' i)
  pub private_elsewhere : (j : ℕ) → j ≢ i → private_weight h' j ≡ private_weight h j
  pub shared_elsewhere : (j : ℕ) → j ≢ i → shared_weight h' j ≡ shared_weight h j
  pub base_elsewhere : (j : ℕ) → j ≢ i → base_weight h' j ≡ base_weight h j

-- A change of the mappings leaves the counters and what the pages count.
module _ {h h' : Pages} (m : Memory) where
  pub Conserves-memory : {n : ℕ} → Conserves n h h' → Conserves n h (record h' { memory = m })
  unfolding private_weight shared_weight base_weight
  Conserves-memory c = record {
    private_moves = c.private_moves;
    shared_moves = c.shared_moves;
    base_moves = c.base_moves;
  }

  pub ConservesAt-memory : {i : ℕ} → ConservesAt i h h' → ConservesAt i h (record h' { memory = m })
  unfolding private_weight shared_weight base_weight
  ConservesAt-memory c = record {
    private_here = c.private_here;
    shared_here = c.shared_here;
    base_here = c.base_here;
    private_elsewhere = c.private_elsewhere;
    shared_elsewhere = c.shared_elsewhere;
    base_elsewhere = c.base_elsewhere;
  }

Moves-sum :
    (n i c c' : ℕ) (f g : ℕ → ℕ)
    → i < n
    → ((j : ℕ) → j ≢ i → g j ≡ f j)
    → Moves c (f i) c' (g i)
    → Moves c (sum_below n f) c' (sum_below n g)
Moves-sum n i c c' f g lt same here = omega (arith, sum_below-change n i f g lt (λ j less. same j))

pub ConservesAt-Conserves : (n i : ℕ) (h h' : Pages) → i < n → ConservesAt i h h' → Conserves n h h'
ConservesAt-Conserves n i h h' lt c = record {
  private_moves =
      Moves-sum n i _ _ (private_weight h) (private_weight h') lt c.private_elsewhere
        c.private_here;
  shared_moves =
      Moves-sum n i _ _ (shared_weight h) (shared_weight h') lt c.shared_elsewhere c.shared_here;
  base_moves = Moves-sum n i _ _ (base_weight h) (base_weight h') lt c.base_elsewhere c.base_here;
}

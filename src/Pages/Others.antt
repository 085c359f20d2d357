-- ===== src/Pages/Others.antt =====
-- SharedHeap.cpp: the bits that the other processes have in the shared table, over a step of one process.
use sbllmalloc.Shared.{ℕ, ◌<◌, ◌≡◌, ◌≢◌, refl, arith, ◌∙◌, ◌==◌, Bool-cases, inl, inr}
use sbllmalloc.Metadata.Sharing.{
  NumProc, Table, bits, count_sharing_procs, set_sharing_bit, unset_sharing_bit,
}
use sbllmalloc.Metadata.SharingLaws.{Fits, sharer, sharer-set_sharing_bit, sharer-unset_sharing_bit}
use sbllmalloc.Pages.Memory.{Memory}
use sbllmalloc.Pages.State.{Pages}
use sbllmalloc.Pages.Steps.{copy_page, remap_page}
use sbllmalloc.Pages.Account.{IsSound}

-- The bits of the processes of another rank are the same in both tables.
abbrev pub SameBits : NumProc → ℕ → Table → Table → Type 0
SameBits n rank table table' =
    (r j : ℕ) → r < bits n → r ≢ rank → sharer table' r j ≡ sharer table r j

-- A step of one process: it stays the process that it is, and leaves the bits of the others.
pub record SameOthers (h h' : Pages) : Type 0 where
  pub same_num : h'.num_proc ≡ h.num_proc
  pub same_rank : h'.my_rank ≡ h.my_rank
  pub same_bits : SameBits h.num_proc h.my_rank h.sharing_processes_info h'.sharing_processes_info

pub same_others :
    {h h' : Pages}
    → h'.num_proc ≡ h.num_proc
    → h'.my_rank ≡ h.my_rank
    → SameBits h.num_proc h.my_rank h.sharing_processes_info h'.sharing_processes_info
    → SameOthers h h'
same_others a b c = record { same_num = a; same_rank = b; same_bits = c }

pub SameOthers-refl : (h : Pages) → SameOthers h h
SameOthers-refl h = record { same_num = refl; same_rank = refl; same_bits = λ r j lt ne. refl }

pub SameOthers-trans : {h h' h'' : Pages} → SameOthers h h' → SameOthers h' h'' → SameOthers h h''
SameOthers-trans {h} {h'} {h''} a b = record {
  same_num = b.same_num ∙ a.same_num;
  same_rank = b.same_rank ∙ a.same_rank;
  same_bits = λ r j lt ne.
      b.same_bits r j (rw a.same_num lt) (λ e. ne (e ∙ a.same_rank)) ∙ a.same_bits r j lt ne;
}

-- A change of the mappings leaves the bits.
pub SameOthers-memory :
    {h h' : Pages} (m : Memory) → SameOthers h h' → SameOthers h (record h' { memory = m })
SameOthers-memory m same = same_others same.same_num same.same_rank same.same_bits

pub set_sharing_bit-SameBits :
    (n : NumProc) (rank : ℕ) (table : Table) (i : ℕ)
    → rank < bits n
    → Fits n table
    → SameBits n rank table (set_sharing_bit n rank table i)
set_sharing_bit-SameBits n rank table i known fits r j lt ne =
    ground (arith, sharer-set_sharing_bit n rank table i known fits r j)

pub unset_sharing_bit-SameBits :
    (n : NumProc) (rank : ℕ) (table : Table) (i : ℕ)
    → rank < bits n
    → Fits n table
    → SameBits n rank table (unset_sharing_bit n rank table i)
unset_sharing_bit-SameBits n rank table i known fits r j lt ne =
    ground (arith, sharer-unset_sharing_bit n rank table i known fits r j lt)

module _ (h : Pages) (sound : IsSound h) (i : ℕ) where
  pub copy_page-SameOthers : SameOthers h (copy_page i h)
  unfolding copy_page
  copy_page-SameOthers = record {
    same_num = refl;
    same_rank = refl;
    same_bits = set_sharing_bit-SameBits _ _ _ i sound.known sound.fits;
  }

  pub remap_page-SameOthers : SameOthers h (remap_page i h)
  unfolding remap_page
  remap_page-SameOthers = elim (Bool-cases (count_sharing_procs h.sharing_processes_info i == 1)) [
    | inl one ↦ rw one (record {
      same_num = refl;
      same_rank = refl;
      same_bits = set_sharing_bit-SameBits _ _ _ i sound.known sound.fits;
    })
    | inr other ↦ rw other (record {
      same_num = refl;
      same_rank = refl;
      same_bits = set_sharing_bit-SameBits _ _ _ i sound.known sound.fits;
    })
  ]

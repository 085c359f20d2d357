-- ===== src/Contents/Reads.antt =====
-- SharedHeap.cpp: what a process reads, and what a step of one process leaves to the others.
use sbllmalloc.Shared.{ℕ, zero, suc, ◌<◌, ◌≡◌, ◌≢◌, refl, ◌∙◌, arith, true}
use mathlib.Core.Path.{subst}
use native.Mathlib.Decide.{ℕ_discrete}
use sbllmalloc.Metadata.Sharing.{bits}
use sbllmalloc.Metadata.SharingLaws.{sharer}
use sbllmalloc.Pages.Memory.{
  Bytes, Memory, page_bytes, same_bytes, zeros, is_zero_content, same_content,
}
use sbllmalloc.Pages.State.{Pages}
use sbllmalloc.Pages.Others.{SameOthers, SameOthers-refl, SameOthers-trans}

pub same_bytes_equal : (n : ℕ) (a b : Bytes) → same_bytes n a b ≡ true → (k : ℕ) → k < n → a k ≡ b k
unfolding same_bytes
same_bytes_equal zero a b same k lt = absurd (omega arith)
same_bytes_equal (suc n) a b same k lt = elim (ℕ_discrete n k) [
  | yes e ↦ subst (λ j. a j ≡ b j) e (ground arith)
  | no ne ↦ same_bytes_equal n a b (ground arith) k (omega arith)
]

-- Every byte of every page reads the same.
abbrev pub SameReads : Memory → Memory → Type 0
SameReads m m' = (j k : ℕ) → k < 4096 → page_bytes m' j k ≡ page_bytes m j k

-- Over a step of one process, it reads the same, the other processes keep their bits, and the page of
-- the shared file that one of them has is as it was.
pub record Transparent (h h' : Pages) : Type 0 where
  pub same_reads : SameReads h.memory h'.memory
  pub same_others : SameOthers h h'
  pub kept_file :
      (r j : ℕ)
      → r < bits h.num_proc
      → r ≢ h.my_rank
      → sharer h.sharing_processes_info r j ≡ 1
      → h'.memory.shared_file j ≡ h.memory.shared_file j

pub Transparent-refl : (h : Pages) → Transparent h h
Transparent-refl h = record {
  same_reads = λ j k lt. refl;
  same_others = SameOthers-refl h;
  kept_file = λ r j lt ne e. refl;
}

pub Transparent-trans :
    {h h' h'' : Pages} → Transparent h h' → Transparent h' h'' → Transparent h h''
Transparent-trans a b =
    let others = a.same_others in
    record {
      same_reads = λ j k lt. b.same_reads j k lt ∙ a.same_reads j k lt;
      same_others = SameOthers-trans others b.same_others;
      kept_file = λ r j lt ne e.
          b.kept_file r j (rw others.same_num lt) (λ own. ne (own ∙ others.same_rank))
            (others.same_bits r j lt ne ∙ e)
          ∙ a.kept_file r j lt ne e;
    }

-- What the comparisons tell of the bytes.
pub zero_bytes :
    (m : Memory) (j : ℕ) → is_zero_content m j ≡ true → (k : ℕ) → k < 4096 → page_bytes m j k ≡ 0
unfolding is_zero_content
zero_bytes m j compared k lt = same_bytes_equal 4096 (page_bytes m j) zeros compared k lt

pub file_bytes :
    (m : Memory) (j : ℕ)
    → same_content m j ≡ true
    → (k : ℕ) → k < 4096
    → m.shared_file j k ≡ page_bytes m j k
unfolding same_content
file_bytes m j compared k lt =
    same_bytes_equal 4096 (m.shared_file j) (page_bytes m j) compared k lt

-- ===== src/Nodes/Views.antt =====
-- SharedHeap.cpp: what a process sees where only the bits of others, or the entries of others, change.
use mathlib.Core.Path.{subst, sym}
use sbllmalloc.Shared.{ℕ, ◌<◌, ◌≡◌, ◌≢◌, ap, ◌∙◌, arith, false, true, ◌==◌}
use sbllmalloc.Metadata.Sharing.{NumProc, Table, bits, get_sharing_bit}
use sbllmalloc.Metadata.SharingLaws.{Fits, sharer, get_sharing_bit-eq-sharer}
use sbllmalloc.Pages.Account.{SoundTables}
use sbllmalloc.Nodes.State.{ProcessPages, with_process}

-- A process whose bits stay as they are has the same view.
pub same_own_bit :
    (n : NumProc) (q : ℕ) (t t' : Table) (j : ℕ)
    → q < bits n
    → Fits n t
    → Fits n t'
    → sharer t' q j ≡ sharer t q j
    → get_sharing_bit n q t' j ≡ get_sharing_bit n q t j
same_own_bit n q t t' j known fits fits' same =
    get_sharing_bit-eq-sharer n q t' j known fits'
    ∙ ap (λ k. k == 1) same
    ∙ sym (get_sharing_bit-eq-sharer n q t j known fits)

pub other_sound :
    (n : NumProc) (q : ℕ) (t t' i z : Table)
    → SoundTables n q t i z
    → Fits n t'
    → ((j : ℕ) → sharer t' q j ≡ sharer t q j)
    → SoundTables n q t' i z
other_sound n q t t' i z sound fits' same =
    let own = λ (j : ℕ). same_own_bit n q t t' j sound.known sound.fits fits' (same j) in
    record {
      known = sound.known;
      fits = fits';
      bytes_initialized = sound.bytes_initialized;
      bytes_zero = sound.bytes_zero;
      zero_initialized = sound.zero_initialized;
      shared_initialized = λ j e. sound.shared_initialized j (sym (own j) ∙ e);
      exclusive = λ j e. own j ∙ sound.exclusive j e;
    }

pub moved_sound :
    {n n' : NumProc} {r r' : ℕ} {t i z : Table}
    → n ≡ n'
    → r ≡ r'
    → SoundTables n r t i z
    → SoundTables n' r' t i z
moved_sound {n} {n'} {r} {r'} {t} {i} {z} e f sound =
    subst (λ m. SoundTables m r' t i z) e (subst (λ q. SoundTables n q t i z) f sound)

pub with_process-other :
    (ps : ℕ → ProcessPages) (rank : ℕ) (p : ProcessPages) (q : ℕ)
    → q ≢ rank
    → with_process ps rank p q ≡ ps q
with_process-other ps rank p q ne = let other : (q == rank) ≡ false = ground arith in rw other

pub with_process-here :
    (ps : ℕ → ProcessPages) (rank : ℕ) (p : ProcessPages) → with_process ps rank p rank ≡ p
with_process-here ps rank p = let here : (rank == rank) ≡ true = ground arith in rw here

-- ===== src/Pages/StepLaws/Tables.antt =====
-- SharedHeap.cpp: the writes of the steps to the tables.
use sbllmalloc.Shared.{ℕ, ◌-◌, ◌≡◌, ◌∙◌, arith, true, false, ◌==◌, if◌then◌else◌}
use sbllmalloc.Metadata.Sharing.{
  NumProc, Table, set_sharing_bit, unset_sharing_bit, get_sharing_bit, count_sharing_procs,
}
use sbllmalloc.Metadata.SharingLaws.{set_sharing_bit-Fits, unset_sharing_bit-Fits}
use sbllmalloc.Metadata.OwnView.{
  get_sharing_bit-set, get_sharing_bit-unset, count_sharing_procs-unset,
}
use sbllmalloc.Metadata.Bitmap.{get_bit, set_bit, unset_bit}
use sbllmalloc.Metadata.BitmapLaws.{
  get_bit-set_bit, get_bit-unset_bit, set_bit-IsBytes, unset_bit-IsBytes,
}
use sbllmalloc.Pages.State.{Pages}
use sbllmalloc.Pages.Account.{SoundTables, IsSound, is_shared, sharers}

module _ (n : NumProc) (rank : ℕ) (sharing initialized zeros : Table)
    (s : SoundTables n rank sharing initialized zeros) (i : ℕ) where
  pub share-SoundTables :
      get_bit initialized i ≡ true
      → get_bit zeros i ≡ false
      → SoundTables n rank (set_sharing_bit n rank sharing i) initialized zeros
  share-SoundTables written not_zero = record {
    known = s.known;
    fits = set_sharing_bit-Fits n rank sharing i s.known s.fits;
    bytes_initialized = s.bytes_initialized;
    bytes_zero = s.bytes_zero;
    zero_initialized = s.zero_initialized;
    shared_initialized = λ j e.
        ground
          (arith, get_sharing_bit-set n rank sharing s.known s.fits i j, s.shared_initialized j);
    exclusive = λ j e.
        ground (arith, get_sharing_bit-set n rank sharing s.known s.fits i j, s.exclusive j e);
  }

  pub unshare-SoundTables :
      SoundTables n rank (unset_sharing_bit n rank sharing i) initialized zeros
  unshare-SoundTables = record {
    known = s.known;
    fits = unset_sharing_bit-Fits n rank sharing i s.known s.fits;
    bytes_initialized = s.bytes_initialized;
    bytes_zero = s.bytes_zero;
    zero_initialized = s.zero_initialized;
    shared_initialized = λ j e.
        ground
          (arith, get_sharing_bit-unset n rank sharing s.known s.fits i j, s.shared_initialized j);
    exclusive = λ j e.
        ground (arith, get_sharing_bit-unset n rank sharing s.known s.fits i j, s.exclusive j e);
  }

  pub unset_zero-SoundTables : SoundTables n rank sharing initialized (unset_bit zeros i)
  unset_zero-SoundTables = record {
    known = s.known;
    fits = s.fits;
    bytes_initialized = s.bytes_initialized;
    bytes_zero = unset_bit-IsBytes zeros i s.bytes_zero;
    zero_initialized =
        λ j e. ground (arith, get_bit-unset_bit zeros i s.bytes_zero j, s.zero_initialized j);
    shared_initialized = s.shared_initialized;
    exclusive = λ j e. ground (arith, get_bit-unset_bit zeros i s.bytes_zero j, s.exclusive j);
  }

  pub set_initialized-SoundTables : SoundTables n rank sharing (set_bit initialized i) zeros
  set_initialized-SoundTables = record {
    known = s.known;
    fits = s.fits;
    bytes_initialized = set_bit-IsBytes initialized i s.bytes_initialized;
    bytes_zero = s.bytes_zero;
    zero_initialized = λ j e.
        ground (arith, get_bit-set_bit initialized i s.bytes_initialized j, s.zero_initialized j e);
    shared_initialized = λ j e.
        ground
          (arith, get_bit-set_bit initialized i s.bytes_initialized j, s.shared_initialized j e);
    exclusive = s.exclusive;
  }

  pub unset_initialized-SoundTables :
      get_bit zeros i ≡ false
      → get_sharing_bit n rank sharing i ≡ false
      → SoundTables n rank sharing (unset_bit initialized i) zeros
  unset_initialized-SoundTables not_zero not_shared = record {
    known = s.known;
    fits = s.fits;
    bytes_initialized = unset_bit-IsBytes initialized i s.bytes_initialized;
    bytes_zero = s.bytes_zero;
    zero_initialized = λ j e.
        ground
          (arith, get_bit-unset_bit initialized i s.bytes_initialized j, s.zero_initialized j e);
    shared_initialized = λ j e.
        ground
          (arith, get_bit-unset_bit initialized i s.bytes_initialized j, s.shared_initialized j e);
    exclusive = s.exclusive;
  }

-- The own bit and the count of sharers after the own bit is cleared.
module _ (h : Pages) (sound : IsSound h) (i : ℕ) where
  pub own_bit :
      (j : ℕ)
      → get_sharing_bit h.num_proc h.my_rank
          (unset_sharing_bit h.num_proc h.my_rank h.sharing_processes_info i)
          j
        ≡ (if j == i then false else is_shared h j)
  own_bit j =
      get_sharing_bit-unset h.num_proc h.my_rank h.sharing_processes_info sound.known sound.fits i j

  pub count_here :
      (j : ℕ)
      → is_shared h i ≡ true
      → count_sharing_procs (unset_sharing_bit h.num_proc h.my_rank h.sharing_processes_info i) j
        ≡ (if j == i then sharers h i - 1 else sharers h j)
  count_here j mine =
      count_sharing_procs-unset h.num_proc h.my_rank h.sharing_processes_info sound.known sound.fits
        i j
      ∙ rw mine

-- ===== src/Contents/RunReads.antt =====
-- SharedHeap.cpp: the bytes of a run of pages that is remapped.
use sbllmalloc.Shared.{
  ℕ, ◌<◌, ◌≡◌, ◌≢◌, refl, sym, ap, ◌∙◌, arith, Bool, true, Bool-cases, inl, inr,
}
use sbllmalloc.Metadata.Sharing.{bits}
use sbllmalloc.Metadata.SharingLaws.{sharer, get_sharing_bit-eq-sharer}
use sbllmalloc.Metadata.OwnView.{own_counted}
use sbllmalloc.Pages.Memory.{
  Frame, Memory, in_run, backing_bytes, is_zero_content, same_content, map_shared, copy_to_shared,
}
use sbllmalloc.Pages.State.{Pages}
use sbllmalloc.Pages.Account.{IsSound, sharers}
use sbllmalloc.Merge.ZeroMapped.{ZeroMapped}
use sbllmalloc.Contents.Reads.{SameReads, zero_bytes, file_bytes}

module _ (start n : ℕ) (m : Memory) where
  -- A run that is mapped to the shared file, where the file holds the same.
  pub map_shared-SameReads :
      ((j : ℕ) → in_run start n j ≡ true → same_content m j ≡ true)
      → SameReads m (map_shared start n m)
  unfolding map_shared backing_bytes
  map_shared-SameReads same j k lt = elim (Bool-cases (in_run start n j)) [
    | inl here ↦ rw here (file_bytes m j (same j here) k lt)
    | inr out ↦ rw out refl
  ]

  -- A run that is copied before.
  pub map_copied-SameReads : SameReads m (map_shared start n (copy_to_shared start n m))
  unfolding map_shared copy_to_shared backing_bytes
  map_copied-SameReads j k lt = elim (Bool-cases (in_run start n j)) [
    | inl here ↦ rw here refl
    | inr out ↦ rw out refl
  ]

  -- Pages of zeros that are mapped to the zero page
  pub zeroed-SameReads :
      (m' : Memory) (done : Bool)
      → ZeroMapped start n m m' done
      → ((j : ℕ) → in_run start n j ≡ true → is_zero_content m j ≡ true)
      → SameReads m m'
  unfolding backing_bytes
  zeroed-SameReads m' done mapped zero_there j k lt =
      let file = ap (λ b. b k) (mapped.same_file j) in
      let whole : (f f' : Frame)
          → f' ≡ f
          → backing_bytes f'.backing (m'.shared_file j) k
            ≡ backing_bytes f.backing (m.shared_file j) k =
        λ f f' e.
          ap (λ (g : Frame). backing_bytes g.backing (m'.shared_file j) k) e
          ∙ ap (λ b. backing_bytes f.backing b k) (mapped.same_file j) in
      elim (Bool-cases (in_run start n j)) [
        | inr out ↦ whole (m.frames j) (m'.frames j) (mapped.elsewhere j out)
        | inl here ↦ elim (mapped.either j) [
          | inl same ↦ whole (m.frames j) (m'.frames j) same
          | inr zeroed ↦
              ap (λ (g : Frame). backing_bytes g.backing (m'.shared_file j) k) zeroed
              ∙ sym (zero_bytes m j (zero_there j here) k lt)
        ]
      ]

-- A page that no process shares is none of another process.
pub nobody_shares :
    (h : Pages) (r j : ℕ)
    → IsSound h
    → r < bits h.num_proc
    → sharers h j ≡ 0
    → sharer h.sharing_processes_info r j ≢ 1
nobody_shares h r j sound known alone one =
    let counted = own_counted h.num_proc r h.sharing_processes_info known sound.fits j in
    let own = get_sharing_bit-eq-sharer h.num_proc r h.sharing_processes_info j known sound.fits in
    ground (arith, counted, own)

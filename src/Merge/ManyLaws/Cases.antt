-- ===== src/Merge/ManyLaws/Cases.antt =====
-- SharedHeap.cpp: the branches of a round of the loop of `MergeManyPages`.
use sbllmalloc.Pages.Memory.{is_zero_content, same_content}
use sbllmalloc.Shared.{
  ℕ, ◌<◌, ◌≡◌, arith, true, false, ◌&&◌, some, Bool-cases, inl, inr, if◌then◌else◌,
}
use sbllmalloc.Metadata.Sharing.{is_other_sharing}
use sbllmalloc.Metadata.OwnView.{is_other_sharing_iff}
use sbllmalloc.Pages.Account.{IsSound, is_initialized, is_zero, is_shared, is_private, sharers}
use sbllmalloc.Merge.Remaps.{System}
use sbllmalloc.Merge.Many.{Outstanding, is_some, flush, merge_page}

module _ (os : System) (p : ℕ) where
  -- The branches of a round, with what leads to them.
  pub merge_page_cases {ℓ} :
      (P : Outstanding → Type ℓ) (m : Outstanding)
      → IsSound m.pages
      → (is_private m.pages p ≡ false → P (flush os p m))
      → (is_private m.pages p ≡ true
          → is_zero_content m.pages.memory p ≡ true
          → P (
              if is_some m.mergeable_start_addr && m.last_page_zero
              then m
              else record (if is_some m.mergeable_start_addr then flush os p m else m) {
                mergeable_start_addr = some p;
                last_page_zero = true;
              }))
      → (is_private m.pages p ≡ true
          → sharers m.pages p ≡ 0
          → is_zero_content m.pages.memory p ≡ false
          → P (
              if is_some m.mergeable_start_addr && m.last_page_moveable
              then m
              else record (if is_some m.mergeable_start_addr then flush os p m else m) {
                mergeable_start_addr = some p;
                last_page_moveable = true;
              }))
      → (let m1 = if m.last_page_shareable then m else flush os p m in
          is_private m.pages p ≡ true
          → 0 < sharers m.pages p
          → is_zero_content m.pages.memory p ≡ false
          → same_content m.pages.memory p ≡ true
          → P (
              if is_some m1.mergeable_start_addr
              then m1
              else record m1 { mergeable_start_addr = some p; last_page_shareable = true }))
      → (is_private m.pages p ≡ true
          → 0 < sharers m.pages p
          → is_zero_content m.pages.memory p ≡ false
          → same_content m.pages.memory p ≡ false
          → P (flush os p (if m.last_page_shareable then m else flush os p m)))
      → P (merge_page os p m)
  unfolding merge_page
  merge_page_cases P m sound flushed zero_case move_case share_case differs =
      let others_lem =
        is_other_sharing_iff m.pages.num_proc m.pages.my_rank m.pages.sharing_processes_info
          sound.known sound.fits p in
      elim (Bool-cases (is_initialized m.pages p)) [
        | inr fresh ↦ rw fresh (flushed (ground arith))
        | inl old ↦ elim (Bool-cases (is_zero m.pages p)) [
          | inl z ↦ rw (old, z) (flushed (ground arith))
          | inr nz ↦ elim (Bool-cases (is_shared m.pages p)) [
            | inl sh ↦ rw (old, nz, sh) (flushed (ground arith))
            | inr pr ↦
                let private : is_private m.pages p ≡ true = ground arith in
                elim (Bool-cases (is_zero_content m.pages.memory p)) [
                  | inl zc ↦ rw (old, nz, pr, zc) (zero_case private zc)
                  | inr nzc ↦
                      elim (Bool-cases (
                        is_other_sharing m.pages.num_proc m.pages.my_rank
                          m.pages.sharing_processes_info p)) [
                            | inr alone ↦
                                rw (old, nz, pr, nzc, alone)
                                  (move_case private (ground (arith, others_lem)) nzc)
                            | inl others ↦ elim (Bool-cases (same_content m.pages.memory p)) [
                              | inl same ↦
                                  rw (old, nz, pr, nzc, others, same)
                                    (share_case private (ground (arith, others_lem)) nzc same)
                              | inr other ↦
                                  rw (old, nz, pr, nzc, others, other)
                                    (differs private (ground (arith, others_lem)) nzc other)
                            ]
                          ]
                ]
          ]
        ]
      ]

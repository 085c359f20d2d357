-- ===== src/Metadata/OwnView.antt =====
-- The table of sharing processes as the current process sees it: its own bit and the count of sharers,
-- after each write.
use sbllmalloc.Shared.{
  ℕ, ◌+◌, ◌-◌, ◌≤◌, ◌<◌, ◌≡◌, ◌∙◌, arith, Bool, true, false, ltb, ◌==◌, if◌then◌else◌, Bool-cases,
  inl, inr,
}
use sbllmalloc.Bits.{bit-lt}
use sbllmalloc.Metadata.Sharing.{
  NumProc, bits, Table, count_sharing_procs, set_sharing_bit, unset_sharing_bit, get_sharing_bit,
  is_other_sharing,
}
use sbllmalloc.Metadata.SharingLaws.{
  Fits, sharer, count_sharing_procs-eq-ones, get_sharing_bit-eq-sharer, sharer-set_sharing_bit,
  sharer-unset_sharing_bit, set_sharing_bit-Fits, unset_sharing_bit-Fits, ones-set_sharing_bit,
  ones-unset_sharing_bit, is_other_sharing-eq-ltb,
}

-- 1 for a bit that is set
abbrev pub to_count : Bool → ℕ
to_count b = if b then 1 else 0

module _ (n : NumProc) (rank : ℕ) (table : Table) (known : rank < bits n)
    (fits : Fits n table) where
  sharer-eq-to_count : (i : ℕ) → sharer table rank i ≡ to_count (get_sharing_bit n rank table i)
  sharer-eq-to_count i =
      ground (arith, get_sharing_bit-eq-sharer n rank table i known fits, bit-lt (table i) rank)

  pub get_sharing_bit-set :
      (i j : ℕ)
      → get_sharing_bit n rank (set_sharing_bit n rank table i) j
        ≡ (if j == i then true else get_sharing_bit n rank table j)
  get_sharing_bit-set i j =
      get_sharing_bit-eq-sharer n rank (set_sharing_bit n rank table i) j known
        (set_sharing_bit-Fits n rank table i known fits)
      ∙ rw
          (
            sharer-set_sharing_bit n rank table i known fits rank j,
            get_sharing_bit-eq-sharer n rank table j known fits,
          )
          (ground arith)

  pub get_sharing_bit-unset :
      (i j : ℕ)
      → get_sharing_bit n rank (unset_sharing_bit n rank table i) j
        ≡ (if j == i then false else get_sharing_bit n rank table j)
  get_sharing_bit-unset i j =
      get_sharing_bit-eq-sharer n rank (unset_sharing_bit n rank table i) j known
        (unset_sharing_bit-Fits n rank table i known fits)
      ∙ rw
          (
            sharer-unset_sharing_bit n rank table i known fits rank j known,
            get_sharing_bit-eq-sharer n rank table j known fits,
          )
          (ground arith)

  pub count_sharing_procs-set :
      (i j : ℕ)
      → count_sharing_procs (set_sharing_bit n rank table i) j ≡ (
          if j == i
          then count_sharing_procs table i + 1 - to_count (get_sharing_bit n rank table i)
          else count_sharing_procs table j)
  count_sharing_procs-set i j = elim (Bool-cases (j == i)) [
    | inl here ↦
        let e : j ≡ i = ground arith in
        rw (here, e)
          (omega (
            arith,
            count_sharing_procs-eq-ones n rank table i known fits,
            count_sharing_procs-eq-ones n rank (set_sharing_bit n rank table i) i known
                (set_sharing_bit-Fits n rank table i known fits),
            ones-set_sharing_bit n rank table i known fits,
            sharer-eq-to_count i,
          ))
    | inr elsewhere ↦ rw elsewhere (unfold set_sharing_bit count_sharing_procs in rw elsewhere)
  ]

  pub count_sharing_procs-unset :
      (i j : ℕ)
      → count_sharing_procs (unset_sharing_bit n rank table i) j ≡ (
          if j == i
          then count_sharing_procs table i - to_count (get_sharing_bit n rank table i)
          else count_sharing_procs table j)
  count_sharing_procs-unset i j = elim (Bool-cases (j == i)) [
    | inl here ↦
        let e : j ≡ i = ground arith in
        rw (here, e)
          (omega (
            arith,
            count_sharing_procs-eq-ones n rank table i known fits,
            count_sharing_procs-eq-ones n rank (unset_sharing_bit n rank table i) i known
                (unset_sharing_bit-Fits n rank table i known fits),
            ones-unset_sharing_bit n rank table i known fits,
            sharer-eq-to_count i,
          ))
    | inr elsewhere ↦ rw elsewhere (unfold unset_sharing_bit count_sharing_procs in rw elsewhere)
  ]

  -- The own bit is one of those that are counted.
  pub own_counted :
      (i : ℕ) → to_count (get_sharing_bit n rank table i) ≤ count_sharing_procs table i
  own_counted i = omega (
    arith,
    count_sharing_procs-eq-ones n rank table i known fits,
    ones-unset_sharing_bit n rank table i known fits,
    sharer-eq-to_count i,
  )

  -- In a table whose words fit their cells, `IsOtherSharing` holds exactly if `CountSharingProcs`
  -- exceeds the bit that `GetSharingBit` reads, so if a process other than the current one has its
  -- bit set.
  pub is_other_sharing_iff :
      (i : ℕ)
      → is_other_sharing n rank table i
        ≡ ltb (to_count (get_sharing_bit n rank table i)) (count_sharing_procs table i)
  is_other_sharing_iff i =
      is_other_sharing-eq-ltb n rank table i known fits
      ∙ rw (sharer-eq-to_count i, count_sharing_procs-eq-ones n rank table i known fits)

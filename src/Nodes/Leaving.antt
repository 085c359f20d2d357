-- ===== src/Nodes/Leaving.antt =====
-- SharedHeap.cpp: `CleanUpSharedData`, a process that leaves a node while others go on.
use mathlib.Core.Option
use sbllmalloc.Shared.{
  ℕ, zero, suc, ◌+◌, ◌-◌, ◌%◌, ◌^◌, ◌≤◌, ◌<◌, ◌≡◌, refl, ap, ◌∙◌, arith, Option, true, false, some,
  ◌==◌,
}
use sbllmalloc.Metadata.Sharing.{count_sharing_procs}
use sbllmalloc.Metadata.OwnView.{count_sharing_procs-unset}
use sbllmalloc.Pages.Account.{IsSound, is_shared}
use sbllmalloc.Nodes.State.{
  SharedMetadata, Node, view, allocate_shared_metadata, clean_up_shared_data, shared_fault_asserts,
}

-- The file after several processes have left
unfoldable pub leave_all : ℕ → SharedMetadata → Option SharedMetadata
leave_all zero file = some file
leave_all (suc n) file = Option.bind (clean_up_shared_data file) (leave_all n)

clean_up-some :
    (file : SharedMetadata)
    → 1 < file.alive_procs
    → file.alive_procs < 2 ^ 32
    → clean_up_shared_data file ≡ some (record file { alive_procs = file.alive_procs - 1 })
unfolding clean_up_shared_data
clean_up-some file more small =
    let alive : (file.alive_procs + 2 ^ 32 - 1) % 2 ^ 32 ≡ file.alive_procs - 1 = omega arith in
    let others : (file.alive_procs - 1 == 0) ≡ false = ground arith in rw (alive, others) refl

-- Where more than one process is alive, a process that leaves by `CleanUpSharedData` and one that
-- then enters by `AllocateSharedMetadata` leave the file as it was, and the new process gets the
-- highest rank that was in use.
pub allocate_shared_metadata-clean_up_shared_data :
    (file : SharedMetadata)
    → 1 < file.alive_procs
    → file.alive_procs < 2 ^ 31
    → Option.map (λ left. allocate_shared_metadata (some left)) (clean_up_shared_data file)
      ≡ some (file, file.alive_procs - 1)
unfolding allocate_shared_metadata
allocate_shared_metadata-clean_up_shared_data file more small =
    let e : (file.alive_procs - 1 + 1) % 2 ^ 32 ≡ file.alive_procs = omega arith in
    let rank : (file.alive_procs + 2 ^ 32 - 1) % 2 ^ 32 ≡ file.alive_procs - 1 = omega arith in
    rw (clean_up-some file more (omega arith), e, rank) refl

leave_all-some :
    (n : ℕ) (file : SharedMetadata)
    → n < file.alive_procs
    → file.alive_procs < 2 ^ 32
    → leave_all n file ≡ some (record file { alive_procs = file.alive_procs - n })
unfolding leave_all Option.bind
leave_all-some zero file more small = ap (λ k. some (record file { alive_procs = k })) (omega arith)
leave_all-some (suc n) file more small =
    let left : SharedMetadata = record file { alive_procs = file.alive_procs - 1 } in
    let rest = leave_all-some n left (omega arith) (omega arith) in
    ap (λ o. Option.bind o (leave_all n)) (clean_up-some file (omega arith) small)
    ∙ rest
    ∙ ap (λ k. some (record file { alive_procs = k })) (omega arith)

-- Where all processes that are alive, at most 16, share a page and two or more of them leave by
-- `CleanUpSharedData`, the assertion of `SigSegvHandler` fails for a remaining process that writes
-- to the page.
pub shared_fault_asserts_fails :
    (node : Node) (rank i n : ℕ)
    → IsSound (view node rank)
    → is_shared (view node rank) i ≡ true
    → count_sharing_procs node.shared.sharing_processes_info i ≡ node.shared.alive_procs
    → 2 ≤ n
    → n < node.shared.alive_procs
    → node.shared.alive_procs ≤ 16
    → (file : SharedMetadata) × (leave_all n node.shared ≡ some file)
      × (shared_fault_asserts (view (record node { shared = file }) rank) i ≡ false)
unfolding view shared_fault_asserts
shared_fault_asserts_fails node rank i n sound mine all two some_left few = (
  record node.shared { alive_procs = node.shared.alive_procs - n },
  leave_all-some n node.shared some_left (omega arith),
  ground (
    arith,
    count_sharing_procs-unset node.num_proc rank node.shared.sharing_processes_info sound.known
        sound.fits i i,
  ),
)

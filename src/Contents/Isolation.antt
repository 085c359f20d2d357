-- ===== src/Contents/Isolation.antt =====
-- The processes of a node: each reads what it wrote, whatever the others do and merge.
use mathlib.Core.Path.{subst, sym}
use native.Mathlib.Decide.{ℕ_discrete, dec_lt}
use sbllmalloc.Shared.{ℕ, ◌+◌, ◌<◌, ◌≡◌, refl, ap, ◌∙◌, arith, true, false, ◌==◌, if◌then◌else◌}
use sbllmalloc.Metadata.Sharing.{NumProc, bits}
use sbllmalloc.Metadata.Bitmap.{get_bit}
use sbllmalloc.Pages.Memory.{Bytes, Frame, anonymous, page_bytes}
use sbllmalloc.Pages.State.{Pages}
use sbllmalloc.Pages.Account.{is_private}
use sbllmalloc.Nodes.State.{Node, ProcessPages, view, store, create, join, allocate_shared_metadata}
use sbllmalloc.Nodes.Steps.{Acts, Reach, created, joined, acted}
use sbllmalloc.Nodes.Invariant.{Accounted}
use sbllmalloc.Nodes.Safety.{Acts-IsSound, Reach-Accounted}
use sbllmalloc.Nodes.CreateLaws.{get_bit-empty, create-Accounted}
use sbllmalloc.Nodes.JoinLaws.{join_old, join_new, join-IsSound, join_alive}
use sbllmalloc.Contents.PageStates.{Agrees}
use sbllmalloc.Contents.StoreStates.{writable_private}
use sbllmalloc.Contents.ActStates.{Acts-Agrees, Acts-reads, expected_reads}
use sbllmalloc.Contents.NodeStates.{
  AgreesIn, unmapped-Agrees, store-Agrees-own, store-Agrees-other, store_reads_own,
  store_reads_other,
}

create-Agrees :
    (n : NumProc) (q : ℕ) → q < (create n).shared.alive_procs → Agrees (view (create n) q)
unfolding create view
create-Agrees n q alive =
    unmapped-Agrees (view (create n) q) ((create-Accounted n).all_sound q alive) (λ j. refl)
      get_bit-empty

module _ (node : Node) (acc : Accounted node) (room : node.shared.alive_procs < bits node.num_proc)
    (agrees : (q : ℕ) → q < node.shared.alive_procs → Agrees (view node q)) where
  join-Agrees : (q : ℕ) → q < node.shared.alive_procs + 1 → Agrees (view (join node) q)
  unfolding view join allocate_shared_metadata
  join-Agrees q lt = elim (dec_lt q node.shared.alive_procs) [
    | yes old ↦
        subst (AgreesIn node.num_proc q node.shared.sharing_processes_info)
          (sym (join_old node acc room q old)) (agrees q old)
    | no new ↦
        let e : q ≡ node.shared.alive_procs = omega arith in
        let process = ap (join node).process e ∙ join_new node acc room in
        unmapped-Agrees (view (join node) q) (join-IsSound node acc room q lt)
          (λ j. ap (λ (p : ProcessPages). p.frames j) process)
          (λ j.
            ap (λ (p : ProcessPages). get_bit p.initialized_pages_bv j) process ∙ get_bit-empty j)
  ]

-- On every reachable node, where every page can be mapped to the zero page, each page of each
-- process is in one of five states, in which its mapping agrees with the metadata: not mapped;
-- mapped, not yet written and read-only; written, private and writable; read-only on the zero page
-- with its zero bit; or read-only on the shared file with its sharing bit.
pub Reach-Agrees :
    (node : Node) → Reach node → (q : ℕ) → q < node.shared.alive_procs → Agrees (view node q)
Reach-Agrees _ (created n) q alive = create-Agrees n q alive
Reach-Agrees _ (joined node reached room) q alive =
    let acc = Reach-Accounted node reached in
    join-Agrees node acc room (Reach-Agrees node reached) q
      (omega (arith, alive, join_alive node acc room))
Reach-Agrees _ (acted node rank h' reached running act) q alive =
    let acc = Reach-Accounted node reached in
    let before = Reach-Agrees node reached in
    let (sound, others, conserved) = Acts-IsSound _ h' act (acc.all_sound rank running) in
    elim (ℕ_discrete q rank) [
      | yes e ↦
          subst (λ r. Agrees (view (store node rank h') r)) (sym e)
            (store-Agrees-own node rank h' acc others sound
              (Acts-Agrees _ h' act (acc.all_sound rank running) (before rank running)))
      | no ne ↦
          let same : q < node.shared.alive_procs = unfold store in alive in
          store-Agrees-other node rank h' acc others sound q same ne (before q same)
    ]

-- On every reachable node, where every page can be mapped to the zero page, a page that a process
-- can write without a fault has a frame of its own and is private in the metadata, so that no
-- store reaches the shared file or the zero page.
pub writable_is_private :
    (node : Node) (q j : ℕ)
    → Reach node
    → q < node.shared.alive_procs
    → ((view node q).memory.frames j).writable ≡ true
    → (bytes : Bytes) × (((view node q).memory.frames j).backing ≡ anonymous bytes)
      × (is_private (view node q) j ≡ true)
writable_is_private node q j reached alive writable =
    let (bytes, own, a, b, c) = writable_private (Reach-Agrees node reached q alive j) writable in
    (bytes, ap (λ (f : Frame). f.backing) own, ground arith)

-- On every reachable node, where every page can be mapped to the zero page: after a step of one
-- process, each other process reads the same bytes of its pages as before, and the process itself
-- reads what the step is to do and nothing else. A write fault, `MergeManyPages` and `MergePages`
-- change no byte, a store to a writable page changes that byte of that page, and pages that are
-- mapped or unmapped hold zeros.
pub reads_expected :
    (node : Node) (rank : ℕ) (h' : Pages) (q j k : ℕ)
    → Reach node
    → rank < node.shared.alive_procs
    → (act : Acts (view node rank) h') → q < node.shared.alive_procs
    → k < 4096
    → page_bytes (view (store node rank h') q).memory j k ≡ (
        if q == rank
        then expected_reads act (page_bytes (view node rank).memory) j k
        else page_bytes (view node q).memory j k)
reads_expected node rank h' q j k reached running act alive small =
    let acc = Reach-Accounted node reached in
    let agrees = Reach-Agrees node reached in
    let (sound, others, conserved) = Acts-IsSound _ h' act (acc.all_sound rank running) in
    let (own, kept) = Acts-reads _ h' act (acc.all_sound rank running) (agrees rank running) in
    elim (ℕ_discrete q rank) [
      | yes e ↦
          let here : (q == rank) ≡ true = ground arith in
          rw here (
            ap (λ r. page_bytes (view (store node rank h') r).memory j k) e
            ∙ store_reads_own node rank h' acc others sound j k
            ∙ own j k small)
      | no ne ↦
          let other : (q == rank) ≡ false = ground arith in
          rw other
            (store_reads_other node rank h' acc others sound q j k alive ne (agrees q alive) kept)
    ]

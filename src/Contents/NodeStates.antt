-- ===== src/Contents/NodeStates.antt =====
-- The mappings and the bytes of all processes of a node, over a step of one of them.
use mathlib.Core.Path.{subst, sym}
use sbllmalloc.Shared.{ℕ, ◌<◌, ◌≡◌, ◌≢◌, refl, ap, ◌∙◌, arith, false}
use sbllmalloc.Metadata.Sharing.{NumProc, Table, bits, get_sharing_bit}
use sbllmalloc.Metadata.SharingLaws.{get_sharing_bit-eq-sharer}
use sbllmalloc.Metadata.Bitmap.{get_bit}
use sbllmalloc.Pages.Memory.{
  Bytes, Backing, unmapped, anonymous, zero_page, shared_page, page_bytes, backing_bytes,
}
use sbllmalloc.Pages.State.{Pages}
use sbllmalloc.Pages.Account.{IsSound}
use sbllmalloc.Pages.Others.{SameOthers}
use sbllmalloc.Nodes.State.{Node, ProcessPages, view, store}
use sbllmalloc.Nodes.Invariant.{Accounted}
use sbllmalloc.Nodes.Views.{same_own_bit, moved_sound, with_process-other, with_process-here}
use sbllmalloc.Contents.PageStates.{
  PageState, as_unmapped, Agrees, PageState-cast, shared_page_is_shared,
}
use sbllmalloc.Contents.ActStates.{KeptFile}

-- The mappings of a process of a rank, with its bits in a table.
abbrev pub AgreesIn : NumProc → ℕ → Table → ProcessPages → Type 0
AgreesIn n q table p =
    (j : ℕ)
    → PageState (p.frames j) (get_bit p.initialized_pages_bv j) (get_bit p.zero_pages_bv j)
        (get_sharing_bit n q table j)

-- Nothing is mapped, and the metadata are sound.
pub unmapped-Agrees :
    (h : Pages)
    → IsSound h
    → ((j : ℕ) → h.memory.frames j ≡ record { backing = unmapped; writable = false })
    → ((j : ℕ) → get_bit h.initialized_pages_bv j ≡ false)
    → Agrees h
unmapped-Agrees h sound frames fresh j =
    let z = sound.zero_initialized j in
    let s = sound.shared_initialized j in
    PageState-cast (frames j) (fresh j) (ground (arith, fresh j)) (ground (arith, fresh j))
      as_unmapped

same_backing :
    (b : Backing) (file file' : Bytes)
    → (b ≡ shared_page → file ≡ file')
    → backing_bytes b file ≡ backing_bytes b file'
unfolding backing_bytes
same_backing unmapped file file' same = refl
same_backing (anonymous bytes) file file' same = refl
same_backing zero_page file file' same = refl
same_backing shared_page file file' same = same refl

module _ (node : Node) (rank : ℕ) (h : Pages) (acc : Accounted node)
    (others : SameOthers (view node rank) h) (sound : IsSound h) where
  pub store-Agrees-own : Agrees h → Agrees (view (store node rank h) rank)
  unfolding view store
  store-Agrees-own agrees =
      subst (AgreesIn node.num_proc rank h.sharing_processes_info)
        (sym (with_process-here node.process rank _))
        (λ j.
          PageState-cast refl refl refl
            (ap (λ n. get_sharing_bit n rank h.sharing_processes_info j) (sym others.same_num)
              ∙ ap (λ r. get_sharing_bit h.num_proc r h.sharing_processes_info j)
                  (sym others.same_rank))
            (agrees j))

  pub store-Agrees-other :
      (q : ℕ)
      → q < node.shared.alive_procs
      → q ≢ rank
      → Agrees (view node q)
      → Agrees (view (store node rank h) q)
  unfolding view store
  store-Agrees-other q alive ne agrees =
      let known : q < bits node.num_proc = omega (arith, acc.enough_bits) in
      let fits = (moved_sound others.same_num others.same_rank sound).fits in
      subst (AgreesIn node.num_proc q h.sharing_processes_info)
        (sym (with_process-other node.process rank _ q ne))
        (λ j.
          PageState-cast refl refl refl
            (same_own_bit node.num_proc q node.shared.sharing_processes_info
              h.sharing_processes_info j known (acc.all_sound q alive).fits fits
              (others.same_bits q j known ne))
            (agrees j))

  -- What the process that has acted reads, and another one.
  pub store_reads_own :
      (j k : ℕ) → page_bytes (view (store node rank h) rank).memory j k ≡ page_bytes h.memory j k
  unfolding view store
  store_reads_own j k =
      ap (λ (p : ProcessPages). backing_bytes (p.frames j).backing (h.memory.shared_file j) k)
        (with_process-here node.process rank _)

  pub store_reads_other :
      (q j k : ℕ)
      → q < node.shared.alive_procs
      → q ≢ rank
      → Agrees (view node q)
      → KeptFile (view node rank) h
      → page_bytes (view (store node rank h) q).memory j k ≡ page_bytes (view node q).memory j k
  unfolding view store
  store_reads_other q j k alive ne agrees kept =
      let known : q < bits node.num_proc = omega (arith, acc.enough_bits) in
      let table = node.shared.sharing_processes_info in
      ap (λ (p : ProcessPages). backing_bytes (p.frames j).backing (h.memory.shared_file j) k)
        (with_process-other node.process rank _ q ne)
      ∙ ap (λ b. b k)
          (same_backing ((node.process q).frames j).backing _ _ (λ e.
            let told = shared_page_is_shared (agrees j) e in
            let bit =
              get_sharing_bit-eq-sharer node.num_proc q table j known
                (acc.all_sound q alive).fits in
            kept q j known ne (ground (arith, told, bit))))

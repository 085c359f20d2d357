-- ===== src/Tests/LeaveRuns.antt =====
-- Runs of three processes that share a page, of which two leave.
use sbllmalloc.Shared.{ℕ, ◌≡◌, ◌<◌, ◌≢◌, refl, arith, some, true, false}
use mathlib.Core.Path.{subst}
use sbllmalloc.Bits.{count_loop, complement}
use sbllmalloc.Metadata.Sharing.{
  eight, count_sharing_procs, set_sharing_bit, get_sharing_bit, is_other_sharing,
}
use sbllmalloc.Metadata.Bitmap.{get_bit, set_bit, set_and_return_bit, reset_and_return_bit}
use sbllmalloc.Pages.Memory.{
  unmapped, map_private, make_writable, map_shared, copy_to_shared, same_content, same_bytes,
  backing_bytes,
}
use sbllmalloc.Pages.Steps.{fault_page, handle_fault, change_mapping, copy_page, remap_page}
use sbllmalloc.Pages.Account.{is_initialized, is_zero}
use sbllmalloc.Merge.Single.{merge_pages}
use sbllmalloc.Nodes.State.{
  SharedMetadata, Node, view, store, create, join, allocate_shared_metadata, shared_fault_asserts,
}
use sbllmalloc.Nodes.Steps.{fault, map_region, merge_one, Reach, created, joined, acted}
use sbllmalloc.Nodes.Safety.{Reach-Accounted}
use sbllmalloc.Nodes.Leaving.{leave_all, shared_fault_asserts_fails}

abbrev three_processes : Node
three_processes = join (join (create eight))

three_processes-Reach : Reach three_processes
three_processes-Reach =
    joined _ (joined _ (created eight) (unfold create allocate_shared_metadata in omega arith))
      (unfold create join allocate_shared_metadata in omega arith)

-- A process maps and writes page 5, and `MergePages` shares it.
abbrev mapped_at : ℕ → Node → Node
mapped_at rank node =
    store node rank (record (view node rank) { memory = map_private 5 1 (view node rank).memory })

abbrev wrote : ℕ → Node → Node
wrote rank node =
    store (mapped_at rank node) rank (handle_fault 5 (view (mapped_at rank node) rank))

abbrev shares : ℕ → Node → Node
shares rank node = store (wrote rank node) rank (merge_pages 5 (view (wrote rank node) rank)).0

shares-Reach :
    (rank : ℕ) (node : Node)
    → Reach node
    → rank < node.shared.alive_procs
    → (((view node rank).memory.frames 5).backing ≡ unmapped)
    → (((view (mapped_at rank node) rank).memory.frames 5).backing ≢ unmapped)
    → is_initialized (view (wrote rank node) rank) 5 ≡ true
    → is_zero (view (wrote rank node) rank) 5 ≡ false
    → Reach (shares rank node)
shares-Reach rank node reached alive free_there mapped initialized not_zero =
    acted (wrote rank node) rank _
      (acted (mapped_at rank node) rank _
        (acted node rank _ reached alive (
          map_region (view node rank) 5 1 (λ j here.
            let e : 5 ≡ j = ground arith in
            subst (λ i. ((view node rank).memory.frames i).backing ≡ unmapped) e free_there)))
        (unfold store in alive) (fault (view (mapped_at rank node) rank) 5 (omega arith) mapped))
      (unfold store in alive)
      (merge_one (view (wrote rank node) rank) 5 (omega arith) initialized not_zero)

abbrev all_share : Node
all_share = shares 2 (shares 1 (shares 0 three_processes))

all_share-Reach : Reach all_share
unfolding view store create join allocate_shared_metadata fault_page handle_fault change_mapping
    merge_pages set_and_return_bit reset_and_return_bit get_bit get_sharing_bit is_other_sharing
    count_sharing_procs count_loop remap_page copy_page set_sharing_bit set_bit map_private
    make_writable map_shared copy_to_shared same_content same_bytes backing_bytes
all_share-Reach =
    shares-Reach 2 _
      (shares-Reach 1 _
        (shares-Reach 0 _ three_processes-Reach (omega arith) refl (λ e. absurd (cc)) refl refl)
        (omega arith) refl (λ e. absurd (cc)) refl refl)
      (omega arith) refl (λ e. absurd (cc)) refl refl

shared_fault_asserts_fails_example :
    (file : SharedMetadata) × (leave_all 2 all_share.shared ≡ some file)
    × (shared_fault_asserts (view (record all_share { shared = file }) 0) 5 ≡ false)
unfolding view store create join allocate_shared_metadata fault_page handle_fault change_mapping
    merge_pages set_and_return_bit reset_and_return_bit get_bit get_sharing_bit is_other_sharing
    count_sharing_procs count_loop remap_page copy_page set_sharing_bit set_bit map_private
    make_writable map_shared copy_to_shared same_content same_bytes backing_bytes complement
shared_fault_asserts_fails_example =
    shared_fault_asserts_fails all_share 0 5 2
      ((Reach-Accounted all_share all_share-Reach).all_sound 0 (omega arith)) refl refl
      (omega arith) (omega arith) (omega arith)

-- ===== src/Process/FaultParts.antt =====
-- `SigSegvHandler` under the threshold policy: its parts.
use mathlib.Core.Option
use sbllmalloc.Shared.{
  ℕ, ◌+◌, ◌-◌, ◌/◌, ◌%◌, ◌^◌, ◌<◌, ◌≡◌, ap, not, Option, some, ◌==◌, ltb, is_neg, is_pos,
  Bool-cases, inl, inr,
}
use sbllmalloc.Avl.Tree.{Comparator, AvlNode, null, node, AvlTreeData}
use sbllmalloc.Avl.Search.{update_range}
use sbllmalloc.Metadata.Address.{Space}
use sbllmalloc.Pages.State.{Pages, int_add, int_sub}
use sbllmalloc.Pages.Steps.{handle_fault}
use sbllmalloc.Regions.FreeLaws.{addr_to_page_index-some}
use sbllmalloc.Merge.Remaps.{System}
use sbllmalloc.Merge.Policies.{int_ge, merge_all, merge_by_threshold}
use sbllmalloc.Merge.PolicyLaws.{AllInHeap}
use sbllmalloc.Process.Calls.{Process, take_fault}

pub AllInHeap-update_range :
    (c : Comparator) (k : ℕ) (s : Space) (t : AvlNode)
    → AllInHeap s t
    → AllInHeap s (update_range c k (λ e. record e { dirty = 1 }) t)
unfolding update_range
AllInHeap-update_range c k s null inside = tt
AllInHeap-update_range c k s (node e h l r) inside =
    let in_left = AllInHeap-update_range c k s l inside.3 in
    let in_right = AllInHeap-update_range c k s r inside.4 in
    elim (Bool-cases (is_neg (c k e.key))) [
      | inl less ↦ rw less (inside.0, inside.1, inside.2, in_left, inside.4)
      | inr other ↦ elim (Bool-cases (is_pos (c k e.key))) [
        | inl more ↦ elim (Bool-cases (ltb k ((e.key + e.value) % 2 ^ 64))) [
          | inl here ↦ rw (other, more, here) inside
          | inr beyond ↦ rw (other, more, beyond) (inside.0, inside.1, inside.2, inside.3, in_right)
        ]
        | inr equal ↦ rw (other, equal) inside
      ]
    ]

-- The region around the fault is marked, and no region is moved.
unfoldable pub marked_root : AvlTreeData → ℕ → AvlNode
marked_root tree a = update_range tree.comparator a (λ e. record e { dirty = 1 }) tree.root

-- What a threshold merge may result in: no merge, or a merge of all regions.
pub merge_by_threshold_cases {ℓ} :
    (os : System) (space : Space) (P : ℕ × ℕ × Option Pages × AvlTreeData → Type ℓ)
    (timer least : ℕ) (tree : AvlTreeData) (h : Pages)
    → ((t l : ℕ) → P (t, l, some h, tree))
    → ((t l : ℕ) → let (h', tree') = merge_all os space tree h in P (t, l, h', tree'))
    → P (merge_by_threshold os space timer least tree h)
unfolding merge_by_threshold
merge_by_threshold_cases os space P timer least tree h stay merged =
    elim (Bool-cases (not (int_sub timer 1 == 0))) [
      | inl early ↦ rw early (stay _ _)
      | inr due ↦
          elim (Bool-cases
            (int_ge (int_add h.all_proc_private_page_count h.shared_page_count) least)) [
              | inl much ↦ rw (due, much) (merged _ _)
              | inr little ↦ rw (due, little) (stay _ _)
            ]
    ]

pub take_fault-some :
    (a : ℕ) (p : Process)
    → p.heap.space.bottom < a
    → a < p.heap.space.top
    → take_fault a p
      ≡ some (record p {
        heap = record p.heap {
          pages = handle_fault ((a - p.heap.space.bottom) / 2 ^ 12) p.heap.pages;
        };
      })
unfolding take_fault
take_fault-some a p low high =
    ap (Option.map (λ i. record p { heap = record p.heap { pages = handle_fault i p.heap.pages } }))
      (addr_to_page_index-some p.heap.space a low high)

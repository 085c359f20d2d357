-- ===== src/Merge/PolicyLaws.antt =====
-- SharedHeap.cpp: a merge of all regions, by `TraverseAVL` with `MergeNode2`.
use mathlib.Core.Path.{subst}
use sbllmalloc.Shared.{
  ◌*◌, ◌≤◌, ◌+◌, ℕ, ◌-◌, ◌/◌, ◌^◌, ◌<◌, ◌≡◌, refl, ap, arith, ◌∷◌, ◌++◌, Option, some, ◌==◌,
  Bool-cases, inl, inr,
}
use sbllmalloc.Avl.Tree.{Entry, AvlNode, null, node, AvlTreeData}
use sbllmalloc.Avl.Search.{traverse, traverse_avl}
use sbllmalloc.Avl.SearchLaws.{region_of}
use sbllmalloc.Avl.Assoc.{Region}
use sbllmalloc.Avl.Bindings.{bindings}
use sbllmalloc.Avl.Refinement.{regions}
use sbllmalloc.Metadata.Address.{Space, IsHeap, heap_pages}
use sbllmalloc.Pages.State.{Pages}
use sbllmalloc.Pages.Account.{IsSound}
use sbllmalloc.Merge.Remaps.{System}
use sbllmalloc.Contents.Reads.{Transparent, Transparent-refl, Transparent-trans}
use sbllmalloc.Contents.MergeReads.{merge_many_pages-Transparent}
use sbllmalloc.Contents.MergeStates.{merge_many_pages-Agrees}
use sbllmalloc.Merge.ZeroLaws.{AllMapped, AllBuffered}
use sbllmalloc.Merge.Many.{merge_many_pages}
use sbllmalloc.Contents.PageStates.{Agrees, StillMapped}
use sbllmalloc.Contents.MappedPages.{merge_many_pages-StillMapped}
use sbllmalloc.Merge.Policies.{merge_node2, merge_all}
use sbllmalloc.Regions.Heap.{rounds}
use sbllmalloc.Regions.FreeLaws.{addr_to_page_index-some}

-- Every region lies inside the heap.
abbrev pub AllInHeap : Space → AvlNode → Type 0
AllInHeap s null = Unit {0}
AllInHeap s (node e h l r) =
    (s.bottom < e.key)
    × (e.key < s.top)
    × (e.key + rounds e.value * 4096 ≤ s.top)
    × AllInHeap s l
    × AllInHeap s r

abbrev pub AllClean : AvlNode → Type 0
AllClean null = Unit {0}
AllClean (node e h l r) = (e.dirty ≡ 0) × AllClean l × AllClean r

module _ (os : System) (space : Space) where
  -- What a merge leaves: where every page can be mapped to the zero page, also the agreement with the
  -- mappings.
  abbrev pub Merged : Pages → Pages → Type 0
  Merged h h' =
      IsSound h'
      × Transparent h h'
      × (AllMapped os → Agrees h → Agrees h')
      × (AllMapped os → StillMapped h h')

  pub Merged-refl : (h : Pages) → IsSound h → Merged h h
  Merged-refl h sound = (sound, Transparent-refl h, λ all agrees. agrees, λ all j mapped. mapped)

  pub Merged-trans : {a b c : Pages} → Merged a b → Merged b c → Merged a c
  Merged-trans m n = (
    n.0,
    Transparent-trans m.1 n.1,
    λ all agrees. n.2 all (m.2 all agrees),
    λ all j mapped. n.3 all j (m.3 all j mapped),
  )

  merge_many_pages-Merged :
      (start n : ℕ) (h : Pages)
      → IsSound h
      → AllBuffered os
      → start + n ≤ heap_pages
      → (h' : Pages) × (merged : ℕ) × (merge_many_pages os start n h ≡ some (h', merged))
        × IsSound h'
        × Transparent h h'
        × (AllMapped os → Agrees h → Agrees h')
        × (AllMapped os → StillMapped h h')
  merge_many_pages-Merged start n h sound all top =
      let (h', merged, done, sound', reads) =
        merge_many_pages-Transparent os start n h sound all top in
      (
        h',
        merged,
        done,
        sound',
        reads,
        λ mapped agrees.
            let (after, count, e, agrees') =
              merge_many_pages-Agrees os start n h sound all top mapped agrees in
            let same : after ≡ h' = cc in subst (λ r. Agrees r) same agrees',
        λ mapped.
            let (after, count, e, still) =
              merge_many_pages-StillMapped os start n h sound all top mapped in
            let same : after ≡ h' = cc in subst (StillMapped h) same still,
      )

  merge_node2_cases {ℓ} :
      (P : Option Pages × Entry → Type ℓ) (h : Pages) (e : Entry)
      → IsSound h
      → IsHeap space
      → AllBuffered os
      → space.bottom < e.key
      → e.key < space.top
      → e.key + rounds e.value * 4096 ≤ space.top
      → ((h' : Pages) (e' : Entry)
          → Merged h h'
          → region_of e' ≡ region_of e
          → e'.key ≡ e.key
          → e'.value ≡ e.value
          → e'.dirty ≡ 0
          → P (some h', e'))
      → P (merge_node2 os space (some h) e)
  unfolding merge_node2
  merge_node2_cases P h e sound heap all low high within case =
      let start = (e.key - space.bottom) / 2 ^ 12 in
      let index = addr_to_page_index-some space e.key low high in
      let (h', merged, done, sound', reads, agree, still) =
        merge_many_pages-Merged start (rounds e.value) h sound all (omega (arith, heap)) in
      elim (Bool-cases (e.dirty == 0)) [
        | inl clean ↦
            rw (merge_node2, index, clean)
              (case h e (Merged-refl h sound) refl refl refl (ground arith))
        | inr dirty ↦
            rw (merge_node2, index, dirty, done)
              (case h' (record e { dirty = 0 }) (sound', reads, agree, still) refl refl refl refl)
      ]

  traverse_cases {ℓ} :
      (t : AvlNode) (P : Option Pages × AvlNode → Type ℓ) (h : Pages)
      → IsSound h
      → IsHeap space
      → AllBuffered os
      → AllInHeap space t
      → ((h' : Pages) (t' : AvlNode)
          → Merged h h'
          → bindings t' ≡ bindings t
          → AllInHeap space t'
          → AllClean t'
          → P (some h', t'))
      → P (traverse (merge_node2 os space) (some h) t)
  unfolding traverse bindings
  traverse_cases null P h sound heap all inside case = case h null (Merged-refl h sound) refl tt tt
  traverse_cases (node e ht l r) P h sound heap all inside case =
      traverse_cases l
        (λ a. P (
          let b = merge_node2 os space a.0 e in
          let c = traverse (merge_node2 os space) b.0 r in (c.0, node b.1 ht a.1 c.1)))
        h sound heap all inside.3
        (λ h1 l' merged1 same_l inside_l clean_l.
          merge_node2_cases
            (λ b. P (let c = traverse (merge_node2 os space) b.0 r in (c.0, node b.1 ht l' c.1))) h1
            e merged1.0 heap all inside.0 inside.1 inside.2
            (λ h2 e' merged2 same_e same_key same_size clean_e.
              traverse_cases r (λ c. P (c.0, node e' ht l' c.1)) h2 merged2.0 heap all inside.4
                (λ h3 r' merged3 same_r inside_r clean_r.
                  case h3 (node e' ht l' r') (Merged-trans merged1 (Merged-trans merged2 merged3))
                    (rw (same_l, same_r) (ap (λ (b : Region). bindings l ++ b ∷ bindings r) same_e))
                    (
                      rw same_key inside.0,
                      rw same_key inside.1,
                      rw (same_key, same_size) inside.2,
                      inside_l,
                      inside_r,
                    )
                    (clean_e, clean_l, clean_r))))

  -- What a traversal with `MergeNode2` makes of the pages and the tree.
  pub merge_all-Merged :
      (tree : AvlTreeData) (h : Pages)
      → IsSound h
      → IsHeap space
      → AllBuffered os
      → AllInHeap space tree.root
      → (h' : Pages) × ((merge_all os space tree h).0 ≡ some h')
        × Merged h h'
        × (regions (merge_all os space tree h).1 ≡ regions tree)
        × AllInHeap space (merge_all os space tree h).1.root
        × AllClean (merge_all os space tree h).1.root
  unfolding merge_all traverse_avl
  merge_all-Merged tree h sound heap all inside =
      traverse_cases tree.root
        (λ a.
          (h' : Pages) × (a.0 ≡ some h')
          × Merged h h'
          × (bindings a.1 ≡ bindings tree.root)
          × AllInHeap space a.1
          × AllClean a.1)
        h sound heap all inside
        (λ h' t' merged same inside' clean. (h', refl, merged, same, inside', clean))

  -- With sound metadata, a heap of 3 GB, a tree whose regions lie inside it, and the buffer in
  -- which shared pages are compared always mapped, a traversal with `MergeNode2` ends, keeps the
  -- metadata sound, the bytes that the process reads and the list of regions, and leaves no region
  -- dirty.
  pub merge_all-IsSound :
      (tree : AvlTreeData) (h : Pages)
      → IsSound h
      → IsHeap space
      → AllBuffered os
      → AllInHeap space tree.root
      → (h' : Pages) × ((merge_all os space tree h).0 ≡ some h')
        × IsSound h'
        × Transparent h h'
        × (regions (merge_all os space tree h).1 ≡ regions tree)
        × AllClean (merge_all os space tree h).1.root
  merge_all-IsSound tree h sound heap all inside =
      let (h', done, merged, same, inside', clean) =
        merge_all-Merged tree h sound heap all inside in
      (h', done, merged.0, merged.1, same, clean)

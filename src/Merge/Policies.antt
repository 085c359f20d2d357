-- ===== src/Merge/Policies.antt =====
-- SharedHeap.cpp: `MergeNode2`, which `TraverseAVL` calls for each region, and the policies that start a
-- merge. `none` is the end of the process.
use sbllmalloc.Shared.{
  ◌||◌, ℕ, ◌+◌, ◌%◌, ◌^◌, List, [], ◌∷◌, Bool, not, Option, none, some, leb, ◌==◌, if◌then◌else◌,
}
use sbllmalloc.Avl.Tree.{Entry, AvlTreeData}
use sbllmalloc.Avl.Search.{traverse_avl}
use sbllmalloc.Metadata.Address.{Space, addr_to_page_index}
use sbllmalloc.Metadata.Sharing.{get_sharing_bit}
use sbllmalloc.Metadata.Bitmap.{get_bit}
use sbllmalloc.Pages.State.{Pages, int_add, int_sub}
use sbllmalloc.Merge.Remaps.{System}
use sbllmalloc.Merge.Many.{merge_many_pages}
use sbllmalloc.Merge.Single.{merge_pages}
use sbllmalloc.Regions.Heap.{rounds}

-- `x >= y` for two of type `int`
abbrev pub int_ge : ℕ → ℕ → Bool
int_ge x y = leb ((y + 2 ^ 31) % 2 ^ 32) ((x + 2 ^ 31) % 2 ^ 32)

module _ (os : System) (space : Space) where
  -- A region that is dirty is merged and then clean. The address of each page is
  -- looked up by `merge_many_pages`.
  unfoldable pub merge_node2 : Option Pages → Entry → Option Pages × Entry
  merge_node2 none e = (none, e)
  merge_node2 (some h) e = elim (addr_to_page_index space 12 e.key) [
    | none ↦ (none, e)
    | some start ↦
        let merged : Option Pages × Entry = elim (merge_many_pages os start (rounds e.value) h) [
          | none ↦ (none, e)
          | some r ↦ (some r.0, record e { dirty = 0 })
        ] in
        if not (e.dirty == 0) then merged else (some h, e)
  ]

  unfoldable pub merge_all : AvlTreeData → Pages → Option Pages × AvlTreeData
  merge_all tree h = traverse_avl merge_node2 (some h) tree

  -- `MergeByTHRESHOLD`: the timer, the threshold, the pages and the tree. The timer starts at 100 and
  -- stays between 1 and 100.
  unfoldable pub merge_by_threshold :
      ℕ → ℕ → AvlTreeData → Pages → ℕ × ℕ × Option Pages × AvlTreeData
  merge_by_threshold count_down_timer merge_min_mem_th tree h =
      let used = int_add h.all_proc_private_page_count h.shared_page_count in
      let (h', tree') = merge_all tree h in
      if not (int_sub count_down_timer 1 == 0)
      then (int_sub count_down_timer 1, merge_min_mem_th, some h, tree)
      else if int_ge used merge_min_mem_th
      then (100, used, h', tree')
      else (100, merge_min_mem_th, some h, tree)

  -- `MergeByALLOC_FREQUENCY`: the counter of calls, the pages and the tree.
  unfoldable pub merge_by_alloc_frequency :
      ℕ → ℕ → AvlTreeData → Pages → ℕ × Option Pages × AvlTreeData
  merge_by_alloc_frequency malloc_ref_freq malloc_ref_counter tree h =
      let (h', tree') = merge_all tree h in
      let counter = (malloc_ref_counter + 1) % 2 ^ 64 in
      if counter % malloc_ref_freq == 0 then (0, h', tree') else (counter, some h, tree)

module _ (os : System) (space : Space) where
  -- `MergePages` does not end the process: the page is shared, or `GetSharedPage` maps the shared one.
  unfoldable pub gets_shared_page : ℕ → Pages → Bool
  gets_shared_page i h =
      get_sharing_bit h.num_proc h.my_rank h.sharing_processes_info i || os.maps_buffer i

  -- `MergeByBUFFERED`: the addresses in the buffer, one after another.
  unfoldable pub merge_by_buffered : List ℕ → Pages → Option Pages
  merge_by_buffered [] h = some h
  merge_by_buffered (t ∷ rest) h = elim (addr_to_page_index space 12 t) [
    | none ↦ none
    | some i ↦
        if get_bit h.initialized_pages_bv i
        then (let merged = merge_by_buffered rest (merge_pages i h).0 in
            if gets_shared_page i h then merged else none)
        else merge_by_buffered rest h
  ]

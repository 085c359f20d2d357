-- ===== src/Nodes/Steps.antt =====
-- SharedHeap.cpp: what the processes of a node do to the metadata while they hold the semaphore, in any
-- order. The bit vectors that a process changes before it waits are its own.
use sbllmalloc.Shared.{ℕ, ◌+◌, ◌*◌, ◌≤◌, ◌<◌, ◌≡◌, ◌≢◌, true, false, some}
use sbllmalloc.Metadata.Sharing.{NumProc, bits}
use sbllmalloc.Metadata.Address.{Space, IsHeap, heap_pages, page_of}
use sbllmalloc.Pages.Memory.{unmapped, in_run, unmap, map_private, store_byte}
use sbllmalloc.Pages.State.{Pages}
use sbllmalloc.Pages.Steps.{handle_fault}
use sbllmalloc.Pages.Account.{is_initialized, is_zero}
use sbllmalloc.Merge.Remaps.{System}
use sbllmalloc.Merge.Many.{merge_many_pages}
use sbllmalloc.Merge.Single.{merge_pages}
use sbllmalloc.Merge.ZeroLaws.{AllMapped}
use sbllmalloc.Regions.Heap.{free_loop}
use sbllmalloc.Nodes.State.{Node, view, store, create, join}

-- A write fault, the pages of a region in `ShmFreeWrapper`, `MergeManyPages`, and `MergePages`, which only the
-- buffered policy calls, under which no page is zero. The contents of the pages may be others at each merge.
-- Each process has a heap of its own.
pub data Acts : Pages → Pages → Type 0 where
  fault :
      (h : Pages) (i : ℕ)
      → i < heap_pages
      → (h.memory.frames i).backing ≢ unmapped
      → Acts h (handle_fault i h)
  free :
      (space : Space) (h h' : Pages) (ptr n : ℕ)
      → IsHeap space
      → space.bottom < ptr
      → ptr + n * 4096 ≤ space.top
      → free_loop space n ptr false h ≡ some h'
      → Acts h (record h' { memory = unmap (page_of space ptr) n h'.memory })
  merge :
      (os : System) (h h' : Pages) (start n merged : ℕ)
      → AllMapped os
      → start + n ≤ heap_pages
      → merge_many_pages os start n h ≡ some (h', merged)
      → Acts h h'
  merge_one :
      (h : Pages) (i : ℕ)
      → i < heap_pages
      → is_initialized h i ≡ true
      → is_zero h i ≡ false
      → Acts h (merge_pages i h).0
  map_region :
      (h : Pages) (start n : ℕ)
      → ((j : ℕ) → in_run start n j ≡ true → (h.memory.frames j).backing ≡ unmapped)
      → Acts h (record h { memory = map_private start n h.memory })
  write_byte :
      (h : Pages) (i k byte : ℕ)
      → (h.memory.frames i).writable ≡ true
      → Acts h (record h { memory = store_byte i k byte h.memory })

-- `InitAddrSpace` does not check the number of processes: a node with more of them than bits is not reached.
pub data Reach : Node → Type 0 where
  created : (n : NumProc) → Reach (create n)
  joined :
      (node : Node) → Reach node → node.shared.alive_procs < bits node.num_proc → Reach (join node)
  acted :
      (node : Node) (rank : ℕ) (h' : Pages)
      → Reach node
      → rank < node.shared.alive_procs
      → Acts (view node rank) h'
      → Reach (store node rank h')

-- ===== src/Nodes/State.antt =====
-- SharedHeap.cpp: `AllocateSharedMetadata` and `CleanUpSharedData`, as far as they change the metadata, and
-- the processes of a node with what each keeps for itself.
use sbllmalloc.Shared.{ℕ, Bool, true, false, Option, none, some, ◌==◌, leb, if◌then◌else◌}
use sbllmalloc.Metadata.Sharing.{NumProc, Table, unset_sharing_bit, count_sharing_procs}
use sbllmalloc.Pages.Memory.{Bytes, zeros, unmapped, Frame}
use sbllmalloc.Pages.State.{Pages, int_add, int_sub}

-- The shared file: its pages for the heap, and its end, `sharingProcessesInfo` and the page of `aliveProcs`.
pub record SharedMetadata : Type 0 where
  pub shared_file : ℕ → Bytes
  pub sharing_processes_info : Table
  pub alive_procs : ℕ
  pub shared_page_count : ℕ
  pub all_proc_private_page_count : ℕ
  pub base_case_total_page_count : ℕ

-- The static variables of one process, and its mappings of the heap.
pub record ProcessPages : Type 0 where
  pub initialized_pages_bv : Table
  pub zero_pages_bv : Table
  pub zero_page_count : ℕ
  pub mmap_count : ℕ
  pub frames : ℕ → Frame

-- The file as it is found, `none` where `shm_open` creates it. The result has the rank, which is an `int`.
-- The calls of the system succeed.
unfoldable pub allocate_shared_metadata : Option SharedMetadata → SharedMetadata × ℕ
allocate_shared_metadata none = (
  record {
    shared_file = λ i. zeros;
    sharing_processes_info = λ i. 0;
    alive_procs = 1;
    shared_page_count = 1;
    all_proc_private_page_count = 192;
    base_case_total_page_count = 0;
  },
  int_sub 1 1,
)
allocate_shared_metadata (some file) =
    let alive = int_add file.alive_procs 1 in (record file { alive_procs = alive }, int_sub alive 1)

-- The file after a process has left, `none` where it is unlinked. The own mappings of the process end.
unfoldable pub clean_up_shared_data : SharedMetadata → Option SharedMetadata
clean_up_shared_data file =
    let alive = int_sub file.alive_procs 1 in
    if alive == 0 then none else some (record file { alive_procs = alive })

-- `memset` of the two bit vectors, in `InitAddrSpace`, and the three mappings of `AllocateSharedMetadata`.
abbrev pub new_process : ProcessPages
new_process = record {
  initialized_pages_bv = λ i. 0;
  zero_pages_bv = λ i. 0;
  zero_page_count = 0;
  mmap_count = 3;
  frames = λ i. record { backing = unmapped; writable = false };
}

-- `ASSERTX(sh_cnt <= *aliveProcs)`, which `SigSegvHandler` reaches where at least two other processes share
-- the page.
unfoldable pub shared_fault_asserts : Pages → ℕ → Bool
shared_fault_asserts h i =
    let table = unset_sharing_bit h.num_proc h.my_rank h.sharing_processes_info i in
    let sh_cnt = count_sharing_procs table i in
    if leb 2 sh_cnt then leb sh_cnt h.alive_procs else true

-- The processes have the ranks from 0 on.
pub record Node : Type 0 where
  pub num_proc : NumProc
  pub shared : SharedMetadata
  pub process : ℕ → ProcessPages

-- What the process of a rank sees.
unfoldable pub view : Node → ℕ → Pages
view node rank = record {
  num_proc = node.num_proc;
  my_rank = rank;
  sharing_processes_info = node.shared.sharing_processes_info;
  shared_page_count = node.shared.shared_page_count;
  all_proc_private_page_count = node.shared.all_proc_private_page_count;
  base_case_total_page_count = node.shared.base_case_total_page_count;
  alive_procs = node.shared.alive_procs;
  initialized_pages_bv = (node.process rank).initialized_pages_bv;
  zero_pages_bv = (node.process rank).zero_pages_bv;
  zero_page_count = (node.process rank).zero_page_count;
  mmap_count = (node.process rank).mmap_count;
  memory = record { frames = (node.process rank).frames; shared_file = node.shared.shared_file };
}

abbrev pub with_process : (ℕ → ProcessPages) → ℕ → ProcessPages → ℕ → ProcessPages
with_process processes rank p q = if q == rank then p else processes q

-- The process of a rank has changed what it sees. No step changes `aliveProcs`.
unfoldable pub store : Node → ℕ → Pages → Node
store node rank h = record node {
  shared = record {
    shared_file = h.memory.shared_file;
    sharing_processes_info = h.sharing_processes_info;
    alive_procs = node.shared.alive_procs;
    shared_page_count = h.shared_page_count;
    all_proc_private_page_count = h.all_proc_private_page_count;
    base_case_total_page_count = h.base_case_total_page_count;
  };
  process = with_process node.process rank (record {
    initialized_pages_bv = h.initialized_pages_bv;
    zero_pages_bv = h.zero_pages_bv;
    zero_page_count = h.zero_page_count;
    mmap_count = h.mmap_count;
    frames = h.memory.frames;
  });
}

-- The first process of a node, and a further one.
unfoldable pub create : NumProc → Node
create n = record {
  num_proc = n;
  shared = (allocate_shared_metadata none).0;
  process = λ q. new_process;
}

unfoldable pub join : Node → Node
join node =
    let (shared', rank) = allocate_shared_metadata (some node.shared) in
    record node { shared = shared'; process = with_process node.process rank new_process }

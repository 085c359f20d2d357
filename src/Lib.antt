-- ===== src/Lib.antt =====
-- SBLLmalloc (shared-memory allocator for MPI processes on one node): the program's own code, AVL.cpp and
-- SharedHeap.cpp with their headers. Each process allocates regions from the system and enters them in a
-- tree; the processes share a file with a place for each page of the heap, and pages with equal contents
-- are mapped there once, read-only. A write to such a page faults, and the signal handler gives the process
-- its own copy again. Bit vectors of each process and a table that all share tell what a page is; counters
-- in the shared file tell how many pages are private and shared.
--
-- Shared: numbers, lists, `int` results and the names used everywhere. Bits: binary digits.
-- Log2: `FloorLog2` and `CeilLog2` of SharedHeap.cpp.
-- Metadata: Address (`TranslateMmapAddr`, `Addr2PageIndex`, the heap's boundary), Sharing (the table of
--   sharing processes: `SetSharingBit` and its kin), Bitmap (the page bit vectors: `SetMultiBits` and its
--   kin), with SharingLaws, OwnView and BitmapLaws on them.
-- Avl: AVL.cpp and AVL.h. Tree has the nodes and the rotations, Insert, Remove and Search the operations.
--   Assoc and Ranges are the abstract view, an ordered list of regions; Refinement relates the two, Heights
--   is about the stored heights, TraverseLaws about `TraverseAVL`.
-- Pages: what the pages of the heap are mapped to, and their bytes (Memory), the counters and bit vectors
--   together (State), the steps on one page of the signal handler, of a merge and of a free (Steps), what
--   the counters are to count (Account), what a step leaves to the other processes (Others), and StepLaws.
-- Regions: `MyComparator` and the wrappers of the tree (Aspace), `ShmFreeWrapper` and `ShmGetSizeWrapper`
--   (Heap).
-- Merge: `RemapRegion`, `CopyAndRemapRegion` and `RemapToZero` (Remaps, Counts, ZeroFailure),
--   `MergeManyPages` (Many, Ample), `MergePages` (Single), `MergeNode2` and the policies (Policies,
--   Countdown), `CheckIfMergeable` and `UpdateMergeHist` (History). Keeps is what a merge keeps on a run of
--   pages, Marks and ManyLaws are what it makes of each page.
-- Nodes: the processes of a node, which share the table and the counters. State has
--   `AllocateSharedMetadata` and `CleanUpSharedData` and what each process sees, Steps the critical
--   sections of all processes in any order, Invariant what the counters count over the processes.
-- Contents: what the processes read from their pages. Reads has what a step is to leave, RunReads,
--   FlushReads and MergeReads are on `MergeManyPages`, MappedPages on what it leaves mapped, SingleStates
--   on `MergePages`, BufferedReads on `MergeByBUFFERED`, FaultStates on the signal handler. PageStates has
--   the states of a page, MergeStates and ActStates how the steps keep them, StoreStates the stores of the
--   process itself, NodeStates and Isolation all processes of a node.
-- Startup: `InitEnv` and `CheckEnv` (Environment), `GetMemRange`, `GetCallStack` and `GetBacktrace`
--   (CallStack).
-- Statistics: `StoreMemUsageStat`, its buffer and its file (Log).
-- Process: `ShmMallocWrapper` and `SigSegvHandler` (Calls; FaultParts, FaultNotes and FaultPolicies are
--   about the handler), `ShmReallocWrapper` (Realloc), `InitAddrSpace` and `MPI_Init` (Start), a malloc
--   with its free (RoundTrip).
-- Tests: runs on concrete inputs.
--
-- An operation keeps the name of its function, in small letters and with underscores. Functions that write
-- through pointers return what they write. Addresses, sizes and page indices are natural numbers; where the
-- code relies on the width of a word, the wrap-around is written out, and the counters are bit patterns of
-- 32 bits. `none` stands for the end of the process, by `Fatal`, by a failed assertion or by an access to
-- memory that is not mapped, and for a loop whose `int` overflows.
-- The code is taken as SharedHeap.h configures it: SHARED_STATS, COLLECT_MALLOC_STAT and MREMAP_FIXED on
-- x86_64, without the profiler; `CheckIfMergeable` and `UpdateMergeHist` are those of PROFILE_BASED_MERGE.
-- A step of the model is one critical section under the semaphore. What a process changes before it waits
-- for the semaphore, its own bit vectors, no other process reads.
--
-- Recursion is structural but for three loops. `CountSharingProcs` takes one bit off in each round, and a
-- word has at most 16 bits, which is its fuel. `SetMultiBits` takes at least one page off in each round,
-- and its fuel is the number of pages. `CheckIfMergeable` shifts a byte to the left in each round, and its
-- fuel is 8.
--
-- What the system does is given: whether `mmap` and `munmap` succeed, the environment, the memory that
-- ptmalloc uses, and what `backtrace` finds.
-- Not modelled: ptmalloc3 (another project's code); MPI itself; how the shared file, the semaphore and the
-- handlers are set up; the zero page of the shared file as a page that could be written (no address has its
-- place, and it is mapped read-only); the semaphore's own operations, of which the critical sections are
-- the model; the handlers of SIGINT and SIGBUS, which only end the process; the profiler and the timer,
-- which are not compiled; errno; the bytes of a page that is not mapped, which read as zeros here and end
-- the process there; and `mmapCount` beyond what `ShmFreeWrapper` takes off it itself, since
-- `IsCloseToMmapLimit` returns false. A process that leaves while others go on is no step of a node;
-- Nodes.Leaving is about it. The regions that `ShmMallocWrapper` and `ShmFreeWrapper` map and unmap change
-- the mappings only as steps of a node, and `ShmReallocWrapper` copies no bytes and has
-- no write faults.
pub mod Avl
pub mod Bits
pub mod Contents
pub mod Log2
pub mod Merge
pub mod Metadata
pub mod Nodes
pub mod Pages
pub mod Process
pub mod Regions
pub mod Shared
pub mod Startup
pub mod Statistics
pub mod Tests

-- ===== src/Contents.antt =====
-- SharedHeap.cpp: the bytes that the processes read from their pages, over merges, faults, writes and frees.
pub mod Reads
pub mod RunReads
pub mod FlushReads
pub mod MergeReads
pub mod MergeStates
pub mod MappedPages
pub mod SingleStates
pub mod BufferedReads
pub mod StoreStates
pub mod ActStates
pub mod FaultStates
pub mod PageStates
pub mod NodeStates
pub mod Isolation

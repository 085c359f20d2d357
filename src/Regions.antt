-- ===== src/Regions.antt =====
-- SharedHeap.cpp: the record of allocated regions (`allocRecord`) as the allocator uses it, and the
-- whole state of a process with its public operations.
pub mod Aspace
pub mod AspaceLaws
pub mod Heap
pub mod FreeLaws
pub mod FreeBits

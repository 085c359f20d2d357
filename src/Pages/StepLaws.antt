-- ===== src/Pages/StepLaws.antt =====
-- SharedHeap.cpp: the steps on one page, the soundness of the metadata and the counters.
pub mod Tables
pub mod Remap
pub mod Fault
pub mod Free

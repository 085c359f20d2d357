-- ===== src/Statistics.antt =====
-- SharedHeap.cpp: the statistics of memory usage, their buffer and their file.
pub mod Log
pub mod LogLaws
pub mod UsageLaws

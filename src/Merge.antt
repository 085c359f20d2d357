-- ===== src/Merge.antt =====
-- SharedHeap.cpp: the merge of the pages of a region, `MergeManyPages` and the three ways in which a run
-- of pages is remapped.
pub mod Remaps
pub mod Many
pub mod Keeps
pub mod RemapLaws
pub mod ZeroMapped
pub mod ZeroLaws
pub mod Marks
pub mod ZeroFailure
pub mod ManyLaws
pub mod Ample
pub mod Policies
pub mod PolicyLaws
pub mod Countdown
pub mod History
pub mod HistoryLaws
pub mod Single
pub mod Counts

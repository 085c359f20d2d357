-- ===== src/Tests.antt =====
-- Runs of the program on concrete inputs.
mod Samples
mod TreeRuns
mod PageRuns
mod HeapRuns
mod NodeRuns
mod ContentsRuns
mod LeaveRuns
mod StartRuns
